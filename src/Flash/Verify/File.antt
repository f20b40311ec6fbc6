-- ===== src/Flash/Verify/File.antt =====
-- map_file.c: what the result of `check_file` says of the memory.
use libstlink.Prelude.{
  ℕ, zero, suc, ◌+◌, ◌%◌, ◌^◌, ◌≤◌, ◌<◌, ◌≡◌, ◌↔◌, inl, inr, refl, ap, ◌∙◌, true, some, List, ◌∷◌,
  ℤ, success, failure, arith, length, drop, ltb, ltb→lt, ltb→le, Bool-cases,
}
use libstlink.Word.{add32}
use libstlink.Stlink.{Stlink, read_mem32, then_run}
use libstlink.Stlink.ReadWrite.{stlink_read_mem32}
use libstlink.Flash.Verify.{same_bytes, align_size, chunk_of, check_size, check_from, check_file}
use libstlink.Flash.Verify.Memory.{
  Reads, Matches, stlink_read_mem32-Reads, same_bytes-Matches, go_on, elim-go_on,
}
use libstlink.Flash.Verify.Bytes.{window, align_size_lem}

module _ (mem : ℕ → ℕ) (addr : ℕ) (base : List ℕ) (n_cmp : ℕ) where
  -- The bytes that a round compares.
  abbrev compared : ℕ → ℕ
  compared off = check_size n_cmp off (length base)

  abbrev after_read : ℕ → Stlink → Stlink
  after_read off sl = record sl {
    q_buf = window mem (addr + off) (align_size (compared off));
    history = read_mem32 (addr + off) (align_size (compared off)) ∷ sl.history;
  }

  compared_lem :
      (off : ℕ)
      → 0 < n_cmp
      → off < length base
      → length base + n_cmp < 2 ^ 32
      → (0 < compared off)
        × (off + compared off ≤ length base)
        × (compared off ≤ n_cmp)
        × ((i : ℕ) → i < length base → off + compared off ≤ i → off + n_cmp ≤ i)
  compared_lem off some_bytes h small = ground arith

  -- A round reads, compares, and goes on or fails.
  check_round :
      (fuel off : ℕ) (sl : Stlink)
      → 0 < n_cmp
      → n_cmp ≤ 0x1800
      → (addr % 4 ≡ 0) × (n_cmp % 4 ≡ 0) × (off % 4 ≡ 0)
      → addr + length base + n_cmp < 2 ^ 32
      → Reads mem sl.backend
      → ltb off (length base) ≡ true
      → check_from (suc fuel) n_cmp base (length base) addr off sl
        ≡ go_on
            (same_bytes
              (compared off)
              (window mem (addr + off) (align_size (compared off)))
              (drop off base))
            (check_from fuel n_cmp base (length base) addr (off + n_cmp))
            (after_read off sl)
  unfolding check_from
  check_round fuel off sl some_bytes high words small reads go =
      let below = ltb→lt off (length base) go in
      let sizes = compared_lem off some_bytes below (omega arith) in
      let up = align_size_lem (compared off) (omega (arith, sizes.2)) in
      let at_off : add32 addr off ≡ addr + off = omega arith in
      let next : add32 off n_cmp ≡ off + n_cmp = omega arith in
      let size : align_size (compared off) % 2 ^ 16 ≡ align_size (compared off) =
        omega (arith, up.2, sizes.2) in
      rw (check_from, go, at_off, size)
        (then_run (stlink_read_mem32 (addr + off) (align_size (compared off))) {sl = sl}
            (stlink_read_mem32-Reads sl mem (addr + off) (align_size (compared off)) reads
              (omega (arith, words)) up.0)
            _
          ∙ elim-go_on _ _ _ (after_read off sl)
              (ap (λ (x : ℕ). check_from fuel n_cmp base (length base) addr x) next))

  -- The loop from an offset on: it ends, and tells whether the bytes from there on match.
  check_from_iff :
      (fuel off : ℕ) (sl : Stlink)
      → 0 < n_cmp
      → n_cmp ≤ 0x1800
      → (addr % 4 ≡ 0) × (n_cmp % 4 ≡ 0) × (off % 4 ≡ 0)
      → addr + length base + n_cmp < 2 ^ 32
      → Reads mem sl.backend
      → 0 < fuel
      → length base < fuel + off
      → (r : ℤ) × (sl' : Stlink) × (check_from fuel n_cmp base (length base) addr off sl
          ≡ some (r, sl'))
        × ((r ≡ success) ↔ Matches mem addr base off (length base))
  unfolding check_from
  check_from_iff zero off sl some_bytes high words small reads some_fuel enough =
      absurd (omega arith)
  check_from_iff (suc fuel) off sl some_bytes high words small reads some_fuel enough =
      elim (Bool-cases (ltb off (length base))) [
        | inr stop ↦ (
          success,
          sl,
          rw (check_from, stop) refl,
          ((λ e i lo hi. absurd (omega (arith, ltb→le off (length base) stop))), λ f. refl),
        )
        | inl go ↦
            let below = ltb→lt off (length base) go in
            let sizes = compared_lem off some_bytes below (omega arith) in
            let up = align_size_lem (compared off) (omega (arith, sizes.2)) in
            let ran = check_round fuel off sl some_bytes high words small reads go in
            let round =
              same_bytes-Matches mem addr base off (addr + off) 0 (compared off)
                (align_size (compared off)) (omega arith) (omega (arith, up.1)) sizes.1 in
            let (r, sl', rest, tells) =
              check_from_iff fuel (off + n_cmp) (after_read off sl) some_bytes high
                (omega (arith, words), omega (arith, words), omega (arith, words)) small reads
                (omega arith) (omega arith) in
            elim (Bool-cases (
              same_bytes (compared off) (window mem (addr + off) (align_size (compared off)))
                (drop off base))) [
                  | inl same ↦ (
                    r,
                    sl',
                    ran ∙ rw same rest,
                    (
                      (λ e i lo hi. elim (Bool-cases (ltb i (off + compared off))) [
                        | inl here ↦ round.0 same i lo (ltb→lt i _ here)
                        | inr later ↦ tells.0 e i (sizes.3 i hi (ltb→le i _ later)) hi
                      ]),
                      λ f. tells.1 (λ i lo hi. f i (omega arith) hi),
                    ),
                  )
                  | inr differs ↦ (
                    failure,
                    after_read off sl,
                    ran ∙ rw differs refl,
                    (
                      (λ e. cc e),
                      λ f.
                          let same = round.1 (λ i lo hi. f i lo (omega (arith, sizes.1))) in
                          cc (differs, same),
                    ),
                  )
                ]
      ]

-- Where the backend reads a memory in whole words, the check of a file against it, at an address of a word and
-- for a page size of whole words but 0, ends with any fuel of more rounds than bytes, and its result is 0 just
-- where every byte of the file is the byte of the memory at its address, if it ends 0x1800 bytes before 2^32.
pub check_file_iff :
    (mem : ℕ → ℕ) (fuel addr : ℕ) (base : List ℕ) (sl : Stlink)
    → Reads mem sl.backend
    → addr % 4 ≡ 0
    → 0 < sl.flash_pgsz
    → sl.flash_pgsz % 4 ≡ 0
    → addr + length base + 0x1800 < 2 ^ 32
    → length base < fuel
    → (r : ℤ) × (sl' : Stlink) × (check_file fuel base (length base) addr sl ≡ some (r, sl'))
      × ((r ≡ success) ↔ Matches mem addr base 0 (length base))
unfolding check_file
check_file_iff mem fuel addr base sl reads aligned page whole small enough =
    let size : (0 < chunk_of sl) × (chunk_of sl ≤ 0x1800) × (chunk_of sl % 4 ≡ 0) = ground arith in
    check_from_iff mem addr base (chunk_of sl) fuel 0 sl size.0 size.1 (aligned, size.2, refl)
      (omega (arith, size.1)) reads (omega arith) (omega arith)
