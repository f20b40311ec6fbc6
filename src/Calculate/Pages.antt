-- ===== src/Calculate/Pages.antt =====
-- calculate.c: BKER:PNB of the L4.
use native.Mathlib.Nat.{add-mul-div_right, div-lt_iff_lt-mul}
use libstlink.Prelude.{ap, ℕ, ◌+◌, ◌-◌, ◌*◌, ◌/◌, ◌^◌, ◌<◌, ◌≤◌, ◌≡◌, ◌∙◌, bit_or, arith}
use libstlink.Word.{sub32}
use libstlink.Word.Bits.{bit_or-eq-add, bit_or_comm}
use libstlink.Word.Digits.{zero-bit_or}
use libstlink.Calculate.{l4_page}
use libstlink.Stlink.{Stlink}

bker_or_page : (page : ℕ) → page < 256 → bit_or 0x100 page ≡ 256 + page
bker_or_page page h = bit_or_comm 0x100 page ∙ (bit_or-eq-add 8 page 1 h ∙ omega arith)

upper_page :
    (p half off : ℕ)
    → 0 < p
    → half ≡ 256 * p
    → half ≤ off
    → off < 512 * p
    → 512 * p < 2 ^ 32
    → bit_or 0x100 (sub32 off half / p) ≡ off / p
upper_page p half off pos size low high small =
    let e : sub32 off half ≡ off - half = omega arith in
    let d : off / p ≡ (off - half) / p + 256 =
      let split : off ≡ off - half + 256 * p = omega arith in
      ap (λ (n : ℕ). n / p) split ∙ add-mul-div_right (off - half) 256 pos in
    let b : (off - half) / p < 256 = (div-lt_iff_lt-mul pos).1 (omega arith) in
    rw (e, bker_or_page ((off - half) / p) b) (omega arith)

-- On an L4 whose flash is two banks of 256 pages the option byte for dual bank mode makes no
-- difference: without it the page number runs over into the BKER bit, and gives the same BKER:PNB.
pub l4_page_overflow :
    (sl : Stlink) (flashopt off : ℕ)
    → 0 < sl.flash_pgsz
    → sl.flash_size ≡ 512 * sl.flash_pgsz
    → sl.flash_size < 2 ^ 32
    → off < sl.flash_size
    → l4_page sl flashopt off ≡ off / sl.flash_pgsz
unfolding l4_page
l4_page_overflow sl flashopt off pos size small h =
    ground
      (arith, zero-bit_or (off / sl.flash_pgsz), upper_page sl.flash_pgsz (sl.flash_size / 2) off)
