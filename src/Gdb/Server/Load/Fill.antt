-- ===== src/Gdb/Server/Load/Fill.antt =====
-- gdb-server.c: the bytes that `flash_populate` leaves in a block.
use libstlink.Prelude.{
  ℕ, zero, suc, ◌+◌, ◌-◌, ◌≤◌, ◌<◌, ◌^◌, ◌≡◌, ◌∙◌, refl, ap, max, min, ◌&&◌, false, Bool-cases, inl,
  inr, List, [], ◌∷◌, ◌++◌, length, get_or, get_or-take, get_or-append, get_or-drop, length-take,
  ltb→lt, ltb→le, take, drop, ltb, leb, if◌then◌else◌, arith,
}
use libstlink.Word.{add32, sub32}
use libstlink.Gdb.Server.Load.{
  FlashBlock, overwrite, intersects, start_in, end_in, fill_block, fill_blocks, flash_populate,
}

-- memcpy within the bounds of both buffers.
get_or-overwrite :
    (buf src : List ℕ) (start n j : ℕ)
    → start + n ≤ length buf
    → n ≤ length src
    → get_or (overwrite buf start src n) j 0
      ≡ (if leb start j && ltb j (start + n) then get_or src (j - start) 0 else get_or buf j 0)
get_or-overwrite buf src start n j fits enough =
    let outer =
      rw (length-take start buf (omega arith)) at
        (get_or-append (take start buf) (take n src ++ drop (start + n) buf) j 0) in
    let inner =
      rw (length-take n src enough) at
        (get_or-append (take n src) (drop (start + n) buf) (j - start) 0) in
    elim (Bool-cases (ltb j start)) [
      | inl before ↦
          outer ∙ rw before (get_or-take start buf j 0 (ltb→lt j start before) ∙ ground arith)
      | inr from ↦ elim (Bool-cases (ltb (j - start) n)) [
        | inl inside ↦
            outer
            ∙ rw from (
                inner
                ∙ rw inside
                    (get_or-take n src (j - start) 0 (ltb→lt (j - start) n inside) ∙ ground arith))
        | inr past ↦
            let at_j : start + n + (j - start - n) ≡ j =
              omega (arith, ltb→le j start from, ltb→le (j - start) n past) in
            outer
            ∙ rw from (
                inner
                ∙ rw past (get_or-drop (start + n) (j - start - n) buf 0 ∙ rw at_j (ground arith)))
      ]
    ]

-- A block of the list, and what `flash_populate` makes of it.
get_or-fill_blocks :
    (a b : ℕ) (src : List ℕ) (fbs : List FlashBlock) (i : ℕ) (none : FlashBlock)
    → i < length fbs
    → get_or (fill_blocks a b src fbs) i none ≡ fill_block a b src (get_or fbs i none)
unfolding fill_blocks
get_or-fill_blocks a b src [] i none h = absurd (omega arith)
get_or-fill_blocks a b src (fb ∷ fbs) zero none h = refl
get_or-fill_blocks a b src (fb ∷ fbs) (suc i) none h =
    get_or-fill_blocks a b src fbs i none (omega arith)

module _ (a : ℕ) (src : List ℕ) (fb : FlashBlock) (j : ℕ) (data_end : a + length src < 2 ^ 32)
    (block_end : fb.addr + fb.length < 2 ^ 32) (size : length fb.bytes ≡ fb.length)
    (inside : j < fb.length) where
  abbrev start : ℕ
  start = max a fb.addr - fb.addr

  abbrev count : ℕ
  count = min (a + length src) (fb.addr + fb.length) - max a fb.addr

  start_lem : start_in a fb ≡ start
  start_lem = ground arith

  end_lem :
      fb.addr < a + length src
      → end_in (add32 a (length src)) fb ≡ min (a + length src) (fb.addr + fb.length) - fb.addr
  end_lem r = ground arith

  count_lem :
      a < fb.addr + fb.length
      → fb.addr < a + length src
      → sub32 (end_in (add32 a (length src)) fb) (start_in a fb) ≡ count
  count_lem l r = rw (start_lem, end_lem r) (omega arith)

  same_test :
      a < fb.addr + fb.length
      → fb.addr < a + length src
      → (leb start j && ltb j (start + count))
        ≡ (leb a (fb.addr + j) && ltb (fb.addr + j) (a + length src))
  same_test l r = ground arith

  -- The byte j of a block after the data is filled in, where no address wraps around.
  fill_block-get_or : get_or (fill_block a (add32 a (length src)) src fb).bytes j 0 ≡ (
      if leb a (fb.addr + j) && ltb (fb.addr + j) (a + length src)
      then get_or src (fb.addr + j - max a fb.addr) 0
      else get_or fb.bytes j 0)
  unfolding fill_block intersects
  fill_block-get_or = elim (Bool-cases (intersects a (add32 a (length src)) fb)) [
    | inl meets ↦
        (let l : a < fb.addr + fb.length = ground arith in
          let r : fb.addr < a + length src = ground arith in
          let index : j - start ≡ fb.addr + j - max a fb.addr = omega arith in
          rw (meets, count_lem l r, start_lem)
            (get_or-overwrite fb.bytes src start count j (omega arith) (omega arith)
              ∙ rw (same_test l r, index) refl))
    | inr apart ↦
        (let off : (leb a (fb.addr + j) && ltb (fb.addr + j) (a + length src)) ≡ false =
            ground arith in
          rw (apart, off) refl)
  ]

  module _ (root : List FlashBlock) (i : ℕ) (none : FlashBlock) (known : i < length root)
      (here : get_or root i none ≡ fb) where
    -- `flash_populate` changes the bytes of a block as follows, where the block has as many bytes as
    -- its length says and neither it nor the data reaches 2^32. A byte whose address is in the data
    -- gets the byte of the data at its distance from the first address that both share; every other
    -- byte stays.
    pub flash_populate-get_or :
        get_or (get_or (flash_populate a src (length src) root).1 i none).bytes j 0 ≡ (
          if leb a (fb.addr + j) && ltb (fb.addr + j) (a + length src)
          then get_or src (fb.addr + j - max a fb.addr) 0
          else get_or fb.bytes j 0)
    unfolding flash_populate
    flash_populate-get_or =
        ap (λ b. get_or b.bytes j 0)
          (get_or-fill_blocks a (add32 a (length src)) src root i none known
            ∙ ap (fill_block a (add32 a (length src)) src) here)
        ∙ fill_block-get_or
