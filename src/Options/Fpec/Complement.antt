-- ===== src/Options/Fpec/Complement.antt =====
-- option_bytes.c: the half words of the option bytes of the F0, F1 and F3.
use libstlink.Prelude.{ℕ, ◌+◌, ◌-◌, ◌*◌, ◌/◌, ◌%◌, ◌^◌, ◌<◌, ◌≡◌, ◌∙◌, ap, bit_and, arith}
use libstlink.Word.{not32, shl32}
use libstlink.Word.Bits.{bit_or-eq-add}
use libstlink.Word.Masks.{bit_and-low_byte, bit_and-high_byte}
use libstlink.Options.Fpec.{val_with_complement}

-- The half word of a 32-bit value has the low byte of the value, and above it the complement of that byte: its two bytes
-- always add up to 255.
pub val_with_complement_lem :
    (v : ℕ)
    → v < 2 ^ 32
    → (val_with_complement v % 256 ≡ v % 256) × (val_with_complement v / 256 + v % 256 ≡ 255)
unfolding val_with_complement
val_with_complement_lem v small =
    let low = bit_and-low_byte v in
    let high : bit_and (shl32 (not32 v) 8) 0xff00 ≡ (255 - v % 256) * 2 ^ 8 =
      bit_and-high_byte (shl32 (not32 v) 8) ∙ omega arith in
    let joined : val_with_complement v ≡ v % 256 + (255 - v % 256) * 2 ^ 8 =
      rw (val_with_complement, low, high)
        (ap (λ (n : ℕ). n % 2 ^ 16) (bit_or-eq-add 8 (v % 256) (255 - v % 256) (omega arith))
          ∙ omega arith) in
    (omega (arith, joined), omega (arith, joined))
