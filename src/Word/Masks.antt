-- ===== src/Word/Masks.antt =====
-- `n & mask` for masks of whole bytes.
use libstlink.Prelude.{ℕ, ◌+◌, ◌*◌, ◌/◌, ◌%◌, ◌^◌, ◌<◌, ◌≡◌, ◌∙◌, ap, bit_and, arith}
use libstlink.Word.Digits.{bit_and_step, bit_and-zero}

-- A mask whose lowest digit is 1 or 0.
ones : (n m : ℕ) → bit_and n (2 * m + 1) ≡ 2 * bit_and (n / 2) m + n % 2
ones n m =
    let half : (2 * m + 1) / 2 ≡ m = omega arith in
    omega (arith, rw half at (bit_and_step n (2 * m + 1)))

zeros : (n m : ℕ) → bit_and n (2 * m) ≡ 2 * bit_and (n / 2) m
zeros n m =
    let half : 2 * m / 2 ≡ m = omega arith in omega (arith, rw half at (bit_and_step n (2 * m)))

pub bit_and-low_byte : (n : ℕ) → bit_and n 0xff ≡ n % 256
bit_and-low_byte n = omega (
  arith,
  ones n 0x7f,
  ones (n / 2) 0x3f,
  ones (n / 2 / 2) 0x1f,
  ones (n / 2 / 2 / 2) 0xf,
  ones (n / 2 / 2 / 2 / 2) 0x7,
  ones (n / 2 / 2 / 2 / 2 / 2) 0x3,
  ones (n / 2 / 2 / 2 / 2 / 2 / 2) 0x1,
  ones (n / 2 / 2 / 2 / 2 / 2 / 2 / 2) 0x0,
  bit_and-zero (n / 2 / 2 / 2 / 2 / 2 / 2 / 2 / 2),
)

ones_at : (n m mask : ℕ) → mask ≡ 2 * m + 1 → bit_and n mask ≡ 2 * bit_and (n / 2) m + n % 2
ones_at n m mask e = rw e (ones n m)

zeros_at : (n m mask : ℕ) → mask ≡ 2 * m → bit_and n mask ≡ 2 * bit_and (n / 2) m
zeros_at n m mask e = rw e (zeros n m)

-- A mask whose low byte is clear.
low_clear : (n m : ℕ) → bit_and n (m * 256) ≡ bit_and (n / 256) m * 256
low_clear n m =
    let byte : n / 256 ≡ n / 2 / 2 / 2 / 2 / 2 / 2 / 2 / 2 = omega arith in
    rw byte (
      omega (
        arith,
        zeros_at n (m * 128) (m * 256) (omega arith),
        zeros_at (n / 2) (m * 64) (m * 128) (omega arith),
        zeros_at (n / 2 / 2) (m * 32) (m * 64) (omega arith),
        zeros_at (n / 2 / 2 / 2) (m * 16) (m * 32) (omega arith),
        zeros_at (n / 2 / 2 / 2 / 2) (m * 8) (m * 16) (omega arith),
        zeros_at (n / 2 / 2 / 2 / 2 / 2) (m * 4) (m * 8) (omega arith),
        zeros_at (n / 2 / 2 / 2 / 2 / 2 / 2) (m * 2) (m * 4) (omega arith),
        zeros_at (n / 2 / 2 / 2 / 2 / 2 / 2 / 2) m (m * 2) (omega arith),
      ))

-- A mask whose low byte is set.
low_set : (n m : ℕ) → bit_and n (m * 256 + 255) ≡ bit_and (n / 256) m * 256 + n % 256
low_set n m =
    let byte : n / 256 ≡ n / 2 / 2 / 2 / 2 / 2 / 2 / 2 / 2 = omega arith in
    rw byte (
      omega (
        arith,
        ones_at n (m * 128 + 127) (m * 256 + 255) (omega arith),
        ones_at (n / 2) (m * 64 + 63) (m * 128 + 127) (omega arith),
        ones_at (n / 2 / 2) (m * 32 + 31) (m * 64 + 63) (omega arith),
        ones_at (n / 2 / 2 / 2) (m * 16 + 15) (m * 32 + 31) (omega arith),
        ones_at (n / 2 / 2 / 2 / 2) (m * 8 + 7) (m * 16 + 15) (omega arith),
        ones_at (n / 2 / 2 / 2 / 2 / 2) (m * 4 + 3) (m * 8 + 7) (omega arith),
        ones_at (n / 2 / 2 / 2 / 2 / 2 / 2) (m * 2 + 1) (m * 4 + 3) (omega arith),
        ones_at (n / 2 / 2 / 2 / 2 / 2 / 2 / 2) m (m * 2 + 1) (omega arith),
      ))

pub bit_and-high_byte : (n : ℕ) → bit_and n 0xff00 ≡ n / 256 % 256 * 256
bit_and-high_byte n = low_clear n 0xff ∙ omega (arith, bit_and-low_byte (n / 256))

pub bit_and-low_half : (n : ℕ) → bit_and n 0xffff ≡ n % 65536
bit_and-low_half n = low_set n 0xff ∙ omega (arith, bit_and-low_byte (n / 256))

pub bit_and-high_half : (n : ℕ) → n < 2 ^ 32 → bit_and n 0xffff0000 ≡ n / 65536 * 65536
bit_and-high_half n h =
    low_clear n 0xffff00
    ∙ ap (λ x. x * 256)
        (low_clear (n / 256) 0xffff ∙ ap (λ x. x * 256) (bit_and-low_half (n / 256 / 256)))
    ∙ omega arith
