-- ===== src/Loader/Words/Rows.antt =====
-- flash_loader.c: what the loop over the rows of the STM32C5 writes.
use libstlink.Prelude.{
  ℕ, zero, suc, ◌+◌, ◌-◌, ◌%◌, ◌≤◌, ◌<◌, ◌≡◌, ◌⊎◌, ◌∙◌, refl, inl, inr, true, false, Option, none,
  some, List, ◌∷◌, ◌++◌, ℤ, failure, is_nonzero, arith, ltb, get_or, take, drop, replicate, length,
  Bool-cases, ltb→lt, ltb→le, length-take, length-replicate, length-append, length-drop,
  get_or-append, get_or-take, get_or-drop, get_or-replicate,
}
use libstlink.Word.{add32, sub32, u32_mod}
use libstlink.Stlink.{Stlink, History, Call, M, pure, bind_run, then_run, ◌>>=◌}
use libstlink.Stlink.ReadWrite.{stlink_write_mem32}
use libstlink.Stlink.Image.{
  ReadsOnly, no_more, ReadsOnly-trans, Filled, Filled-none, Filled-reads, Filled-trans,
  Filled-bytes,
}
use libstlink.Flash.Status.{wait_flash_busy, check_flash_error}
use libstlink.Flash.Status.Quiet.{Idles, with_calls, wait_flash_busy-Idles, check_flash_error-Polls}
use libstlink.Loader.Buffer.{overwritten, copy_to_q_buf}
use libstlink.Loader.Words.{at_most, write_rows}
use libstlink.Loader.Words.Image.{padded_image}

-- From h to h' the rows at addr + lo, addr + lo + 16, … below addr + hi were written, each by one transfer of 16
-- bytes, and in between registers were only read.
pub data ByRows (addr : ℕ) : ℕ → ℕ → History → History → Type 0 where
  no_row : {off : ℕ} {h h' : History} → ReadsOnly h h' → ByRows addr off off h h'
  one_row :
      {off hi : ℕ} {h h₁ h' : History} (bytes : List ℕ)
      → ReadsOnly (Call.write_mem32 (addr + off) 16 bytes ∷ h) h₁
      → ByRows addr (off + 16) hi h₁ h'
      → ByRows addr off hi h h'

-- The last row.
last_row :
    {addr off : ℕ} {h h' : History} (bytes : List ℕ)
    → ReadsOnly (Call.write_mem32 (addr + off) 16 bytes ∷ h) h'
    → ByRows addr off (off + 16) h h'
last_row bytes reads = one_row bytes reads (no_row no_more)

-- Reads may follow.
pub ByRows-reads :
    {addr off hi : ℕ} {h h₁ h' : History}
    → ByRows addr off hi h h₁
    → ReadsOnly h₁ h'
    → ByRows addr off hi h h'
ByRows-reads (no_row reads) more = no_row (ReadsOnly-trans reads more)
ByRows-reads (one_row bytes reads rows) more = one_row bytes reads (ByRows-reads rows more)

pub ByRows-whole :
    {addr off hi : ℕ} {h h' : History} → ByRows addr off hi h h' → off % 16 ≡ 0 → hi % 16 ≡ 0
ByRows-whole (no_row reads) whole = whole
ByRows-whole (one_row bytes reads rows) whole = ByRows-whole rows (omega arith)

module _ (sl : Stlink) (fuel addr : ℕ) (base : List ℕ) (len padded : ℕ) where
  abbrev data_in : ℕ → ℕ
  data_in off = at_most (sub32 len off) 16

  -- The row at an offset, in the buffer q.
  abbrev row_at : ℕ → List ℕ → List ℕ
  row_at off q =
      overwritten (take (data_in off) (drop off base) ++ replicate (16 - data_in off) 0xff) q

  row_at-Image :
      (off k : ℕ) (q : List ℕ)
      → len ≤ length base
      → off < len
      → len < u32_mod
      → k < 16
      → get_or (row_at off q) k 0 ≡ padded_image base len 0xff (off + k)
  row_at-Image off k q room below small lt =
      let n = data_in off in
      let fits : n ≤ len - off = ground arith in
      let size : length (take n (drop off base)) ≡ n =
        length-take n (drop off base) (omega (arith, fits, length-drop off base)) in
      let in_row : ltb k (n + (16 - n)) ≡ true = ground arith in
      rw (get_or-append, get_or-append, length-append, size, length-replicate)
        (elim (Bool-cases (ltb k n)) [
          | inl in_data ↦
              let inside : ltb (off + k) len ≡ true = ground arith in
              rw (in_row, in_data, inside)
                (get_or-take n (drop off base) k 0 (ltb→lt k n in_data) ∙ get_or-drop off k base 0)
          | inr pad ↦
              let outside : ltb (off + k) len ≡ false = ground arith in
              rw (in_row, pad, outside)
                (get_or-replicate (16 - n) 0xff (k - n) 0 (omega (arith, ltb→le k n pad)))
        ])

  abbrev after_row : ℕ → List ℕ → History → History
  after_row off q h = Call.write_mem32 (addr + off) 16 (row_at off q) ∷ h

  -- The result of a round's write.
  abbrev row_code : ℕ → List ℕ → History → ℤ
  row_code off q h = sl.backend.write_mem32 h (addr + off) 16 (row_at off q)

  -- A round whose write fails.
  row_refused :
      (rounds off : ℕ) (q : List ℕ) (h : History) (err : ℤ) (h₁ : History)
      → ltb off padded ≡ true
      → add32 addr off ≡ addr + off
      → is_nonzero (row_code off q h) ≡ true
      → check_flash_error (with_calls sl (row_at off q) (after_row off q h))
        ≡ some (err, with_calls sl (row_at off q) h₁)
      → write_rows (suc rounds) fuel addr base len padded off (with_calls sl q h)
        ≡ some (some failure, with_calls sl (row_at off q) h₁)
  unfolding write_rows copy_to_q_buf stlink_write_mem32
  row_refused rounds off q h err h₁ go here code checked =
      rw (write_rows, stlink_write_mem32, ◌>>=◌, go, here, code)
        (then_run check_flash_error checked (pure (some failure)))

  -- What follows the check of a round.
  abbrev after_check : ℕ → ℕ → ℤ → M (Option ℤ)
  after_check rounds off err = elim (is_nonzero err) [
    | true ↦ pure (some failure)
    | false ↦ write_rows rounds fuel addr base len padded (add32 off 16)
  ]

  check_failed :
      (rounds off : ℕ) (err : ℤ) (s : Stlink)
      → is_nonzero err ≡ true
      → after_check rounds off err s ≡ some (some failure, s)
  check_failed rounds off err s e = rw (after_check, e) refl

  check_passed :
      (rounds off : ℕ) (err : ℤ) (s : Stlink)
      → is_nonzero err ≡ false
      → add32 off 16 ≡ off + 16
      → after_check rounds off err s ≡ write_rows rounds fuel addr base len padded (off + 16) s
  check_passed rounds off err s e next = rw (after_check, e, next) refl

  -- A round whose write is taken: the wait, the check, and what follows.
  row_taken :
      (rounds off : ℕ) (q : List ℕ) (h h₁ : History) (err : ℤ) (h₂ : History)
      → ltb off padded ≡ true
      → add32 addr off ≡ addr + off
      → is_nonzero (row_code off q h) ≡ false
      → wait_flash_busy fuel (with_calls sl (row_at off q) (after_row off q h))
        ≡ some (tt, with_calls sl (row_at off q) h₁)
      → check_flash_error (with_calls sl (row_at off q) h₁)
        ≡ some (err, with_calls sl (row_at off q) h₂)
      → write_rows (suc rounds) fuel addr base len padded off (with_calls sl q h)
        ≡ after_check rounds off err (with_calls sl (row_at off q) h₂)
  unfolding write_rows copy_to_q_buf stlink_write_mem32
  row_taken rounds off q h h₁ err h₂ go here code waited checked =
      rw (write_rows, stlink_write_mem32, ◌>>=◌, go, here, code)
        (then_run (wait_flash_busy fuel) waited (check_flash_error >>= after_check rounds off)
          ∙ bind_run check_flash_error checked (after_check rounds off))

  -- The loop ends. It has written the rows from off on, all of them unless it fails, and nothing else.
  pub write_rows_fill :
      (rounds off : ℕ) (q : List ℕ) (h : History)
      → Idles fuel sl
      → len ≤ length base
      → addr + padded ≤ u32_mod
      → (len ≤ padded) × (padded < len + 16)
      → padded < u32_mod
      → (off % 16 ≡ 0) × (padded % 16 ≡ 0) × (off ≤ padded)
      → padded < rounds + off
      → (r : Option ℤ) × (end : ℕ) × (q' : List ℕ) × (h' : History) × (write_rows rounds fuel addr
            base len padded off
            (with_calls sl q h)
          ≡ some (r, with_calls sl q' h'))
        × Filled (padded_image base len 0xff) addr off end h h'
        × ByRows addr off end h h'
        × (off ≤ end)
        × (end ≤ padded)
        × (((r ≡ none) × (end ≡ padded)) ⊎ (r ≡ some failure))
  unfolding write_rows
  write_rows_fill zero off q h idles data_there room close small aligned enough =
      absurd (omega arith)
  write_rows_fill (suc rounds) off q h idles data_there room close small aligned enough =
      elim (Bool-cases (ltb off padded)) [
        | inr stop ↦ (
          none,
          off,
          q,
          h,
          rw (write_rows, stop) refl,
          Filled-none,
          no_row no_more,
          omega arith,
          omega arith,
          inl (refl, omega (arith, ltb→le off padded stop)),
        )
        | inl go ↦
            let below = ltb→lt off padded go in
            let here : add32 addr off ≡ addr + off = omega arith in
            let next : add32 off 16 ≡ off + 16 = omega arith in
            let row : Filled (padded_image base len 0xff) addr off (off + 16) h
                (after_row off q h) =
              Filled-bytes (row_at off q)
                (λ k lt. row_at-Image off k q data_there (omega arith) (omega arith) lt) in
            elim (Bool-cases (is_nonzero (row_code off q h))) [
              | inl refused ↦
                  let (err, h₁, checked, reads) =
                    check_flash_error-Polls (with_calls sl (row_at off q) (after_row off q h)) in
                  (
                    some failure,
                    off + 16,
                    row_at off q,
                    h₁,
                    row_refused rounds off q h err h₁ go here refused checked,
                    Filled-reads row reads,
                    last_row (row_at off q) reads,
                    omega arith,
                    omega arith,
                    inr refl,
                  )
              | inr taken ↦
                  let (h₁, waited, reads) =
                    wait_flash_busy-Idles fuel sl (row_at off q) (after_row off q h) idles in
                  let (err, h₂, checked, reads') =
                    check_flash_error-Polls (with_calls sl (row_at off q) h₁) in
                  let ran = row_taken rounds off q h h₁ err h₂ go here taken waited checked in
                  let first = Filled-reads row (ReadsOnly-trans reads reads') in
                  elim (Bool-cases (is_nonzero err)) [
                    | inl failed ↦ (
                      some failure,
                      off + 16,
                      row_at off q,
                      h₂,
                      ran ∙ check_failed rounds off err _ failed,
                      first,
                      last_row (row_at off q) (ReadsOnly-trans reads reads'),
                      omega arith,
                      omega arith,
                      inr refl,
                    )
                    | inr fine ↦
                        let (r, end, q', h', rest, filled, rows, grows, le, ends) =
                          write_rows_fill rounds (off + 16) (row_at off q) h₂ idles data_there room
                            close small (omega arith, omega arith, omega arith) (omega arith) in
                        (
                          r,
                          end,
                          q',
                          h',
                          ran ∙ check_passed rounds off err _ fine next ∙ rest,
                          Filled-trans (omega arith) grows first filled,
                          one_row (row_at off q) (ReadsOnly-trans reads reads') rows,
                          omega arith,
                          le,
                          ends,
                        )
                  ]
            ]
      ]
