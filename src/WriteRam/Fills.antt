-- ===== src/WriteRam/Fills.antt =====
-- common_legacy.c: what the writes to the RAM leave in it.
use libstlink.Prelude.{
  ◌==◌, ℕ, zero, suc, ◌+◌, ◌-◌, ◌%◌, ◌^◌, ◌≤◌, ◌<◌, ◌≡◌, ◌∙◌, refl, ap, inl, inr, true, false, some,
  List, ◌∷◌, arith, ltb, get_or, take, drop, length, bit_and, Bool-cases, ltb→lt, ltb→le,
  length-take, length-append, length-drop, get_or-append, get_or-take, get_or-drop, if◌then◌else◌,
  [], ◌++◌,
}
use libstlink.Word.{add32, sub32, u32_mod, is_set}
use libstlink.Word.Align.{bit_and-three}
use libstlink.Stlink.{Stlink, History, Call, then_run, ◌>>=◌, ◌>>◌}
use libstlink.Stlink.ReadWrite.{stlink_write_mem32, stlink_write_mem8}
use libstlink.Stlink.Image.{Filled, Filled-none, Filled-trans, Filled-bytes, Filled-mem8}
use libstlink.Flash.Status.Quiet.{with_calls}
use libstlink.Loader.Buffer.{overwritten, copy_to_q_buf}
use libstlink.WriteRam.{block_size, write_blocks, write_last, write_data}

module _ (sl : Stlink) (addr : ℕ) (base : List ℕ) where
  -- The buffer after n bytes of the data were copied to it.
  abbrev block_at : ℕ → ℕ → List ℕ → List ℕ
  block_at off n q = overwritten (take n (drop off base) ++ []) q

  block_at-Image :
      (off n k : ℕ) (q : List ℕ)
      → off + n ≤ length base
      → k < n
      → get_or (block_at off n q) k 0 ≡ get_or base (off + k) 0
  block_at-Image off n k q room lt =
      let size : length (take n (drop off base)) ≡ n =
        length-take n (drop off base) (omega (arith, length-drop off base)) in
      let inside : ltb k n ≡ true = ground arith in
      let whole : ltb k (n + 0) ≡ true = ground arith in
      rw (get_or-append, get_or-append, length-append, size, whole, inside)
        (get_or-take n (drop off base) k 0 lt ∙ get_or-drop off k base 0)

  -- A round of the loop, its size a number of whole words.
  block_round :
      (rounds len off n : ℕ) (q : List ℕ) (h : History)
      → ltb off len ≡ true
      → block_size len off ≡ n
      → n % 4 ≡ 0
      → n ≤ 1024
      → add32 addr off ≡ addr + off
      → add32 off 1024 ≡ off + 1024
      → write_blocks (suc rounds) addr base len off (with_calls sl q h)
        ≡ write_blocks rounds addr base len (off + 1024) (
            with_calls sl
              (block_at off n q)
              (Call.write_mem32 (addr + off) n (block_at off n q) ∷ h))
  unfolding write_blocks copy_to_q_buf stlink_write_mem32
  block_round rounds len off n q h go size whole small here next =
      let no_round : is_set (bit_and n 3) ≡ false = rw (bit_and-three n) (ground arith) in
      let fits : n % 2 ^ 16 ≡ n = omega arith in
      let words : (n % 4 == 0) ≡ true = ground arith in
      rw (write_blocks, stlink_write_mem32, ◌>>=◌, go, size, no_round, fits, words, here, next) refl

  -- The loop over the blocks ends, with the words from off on written and nothing else.
  write_blocks_fill :
      (rounds len off : ℕ) (q : List ℕ) (h : History)
      → len ≤ length base
      → len % 4 ≡ 0
      → off % 4 ≡ 0
      → addr + len + 1024 < u32_mod
      → len < rounds + off
      → 0 < rounds
      → (q' : List ℕ) × (h' : History) × (write_blocks rounds addr base len off (with_calls sl q h)
          ≡ some (tt, with_calls sl q' h'))
        × Filled (λ i. get_or base i 0) addr (if ltb off len then off else len) len h h'
  unfolding write_blocks
  write_blocks_fill zero len off q h there whole step room enough some_round = absurd (omega arith)
  write_blocks_fill (suc rounds) len off q h there whole step room enough some_round =
      elim (Bool-cases (ltb off len)) [
        | inr stop ↦ (q, h, rw (write_blocks, stop) refl, rw stop Filled-none)
        | inl go ↦
            let below = ltb→lt off len go in
            let n = if ltb len (off + 1024) then len - off else 1024 in
            let next : add32 off 1024 ≡ off + 1024 = omega arith in
            let less : sub32 len off ≡ len - off = omega arith in
            let size : block_size len off ≡ n = rw (next, less) refl in
            let sizes : (n % 4 ≡ 0) × (n ≤ 1024) × (off + n ≤ len) = ground arith in
            let (q', h', rest, filled) =
              write_blocks_fill rounds len (off + 1024) (block_at off n q)
                (Call.write_mem32 (addr + off) n (block_at off n q) ∷ h) there whole (omega arith)
                room (omega arith) (omega (arith, below)) in
            let mid : (if ltb (off + 1024) len then off + 1024 else len) ≡ off + n = ground arith in
            let block : Filled (λ i. get_or base i 0) addr off (off + n) h
                (Call.write_mem32 (addr + off) n (block_at off n q) ∷ h) =
              Filled-bytes (block_at off n q)
                (λ k lt. block_at-Image off n k q (omega (arith, sizes)) lt) in
            (
              q',
              h',
              block_round rounds len off n q h go size sizes.0 sizes.1 (omega arith) next ∙ rest,
              rw go (Filled-trans (omega arith) sizes.2 block (rw mid at filled)),
            )
      ]

  -- The bytes behind the words.
  write_last_fill :
      (len n : ℕ) (q : List ℕ) (h : History)
      → n ≤ length base
      → (len ≤ n) × (n < len + 4)
      → addr + n < u32_mod
      → (q' : List ℕ) × (h' : History) × (write_last addr base n len (with_calls sl q h)
          ≡ some (tt, with_calls sl q' h'))
        × Filled (λ i. get_or base i 0) addr len n h h'
  unfolding write_last copy_to_q_buf stlink_write_mem8
  write_last_fill len n q h there close room = elim (Bool-cases (ltb len n)) [
    | inr stop ↦
        let same : n ≡ len = omega (arith, ltb→le len n stop) in
        (q, h, rw (write_last, stop) refl, rw same Filled-none)
    | inl go ↦
        let k = n - len in
        let here : add32 addr len ≡ addr + len = omega arith in
        let fits : k % 2 ^ 16 ≡ k = omega arith in
        let up : len + k ≡ n = omega arith in
        let bytes : Filled (λ i. get_or base i 0) addr len (len + k) h
            (Call.write_mem8 (addr + len) k (block_at len k q) ∷ h) =
          Filled-mem8 (block_at len k q)
            (λ j lt. block_at-Image len k j q (omega (arith, up)) lt) in
        (
          block_at len k q,
          Call.write_mem8 (addr + len) k (block_at len k q) ∷ h,
          rw (write_last, ◌>>=◌, go, here, fits) refl,
          rw up at bytes,
        )
  ]

  in_words :
      (fuel n len : ℕ) (s : Stlink)
      → n - bit_and n 3 ≡ len
      → write_data fuel addr base n s
        ≡ (write_blocks fuel addr base len 0 >> write_last addr base n len) s
  unfolding write_data
  in_words fuel n len s e =
      ap (λ (m : ℕ). (write_blocks fuel addr base m 0 >> write_last addr base n m) s) e

  -- The data are written to the RAM in whole: each byte of them was written last at its address, and no other
  -- address was written, whatever the probe answers. The fuel is enough from one more than the bytes on.
  pub write_data_fill :
      (fuel n : ℕ) (q : List ℕ) (h : History)
      → n ≤ length base
      → addr + n + 1024 < u32_mod
      → n < fuel
      → (q' : List ℕ) × (h' : History) × (write_data fuel addr base n (with_calls sl q h)
          ≡ some (tt, with_calls sl q' h'))
        × Filled (λ i. get_or base i 0) addr 0 n h h'
  write_data_fill fuel n q h there room enough =
      let len = n - n % 4 in
      let words : n - bit_and n 3 ≡ len = ap (λ (m : ℕ). n - m) (bit_and-three n) in
      let (q₁, h₁, ran, filled) =
        write_blocks_fill fuel len 0 q h (omega arith) (omega arith) refl (omega arith)
          (omega arith) (omega arith) in
      let start : (if ltb 0 len then 0 else len) ≡ 0 = ground arith in
      let (q₂, h₂, rest, behind) =
        write_last_fill len n q₁ h₁ there (omega arith, omega arith) (omega arith) in
      (
        q₂,
        h₂,
        in_words fuel n len (with_calls sl q h) words
            ∙ then_run (write_blocks fuel addr base len 0) {sl = with_calls sl q h} ran
                (write_last addr base n len)
            ∙ rest,
        Filled-trans (omega arith) (omega arith) (rw start at filled) behind,
      )
