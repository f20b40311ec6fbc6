-- ===== src/Word/Align.antt =====
-- The masks that round a number to whole words.
use libstlink.Prelude.{ℕ, ◌-◌, ◌/◌, ◌%◌, ◌^◌, ◌<◌, ◌≡◌, bit_and, arith}
use libstlink.Word.{clear}
use libstlink.Word.Bits.{bit_and_ones}
use libstlink.Word.Digits.{bit_and_step, bit_and-zero}

-- n & 3
pub bit_and-three : (n : ℕ) → bit_and n 3 ≡ n % 4
bit_and-three n = omega (arith, bit_and_step n 3, bit_and_step (n / 2) 1, bit_and-zero (n / 2 / 2))

-- n & ~3
pub clear-three : (n : ℕ) → n < 2 ^ 32 → clear n 3 ≡ n - n % 4
clear-three n h = omega (
  arith,
  bit_and_step n 0xfffffffc,
  bit_and_step (n / 2) 0x7ffffffe,
  bit_and_ones 30 (n / 2 / 2) (omega arith),
)

-- n & ~15
pub clear-fifteen : (n : ℕ) → n < 2 ^ 32 → clear n 15 ≡ n - n % 16
clear-fifteen n h = omega (
  arith,
  bit_and_step n 0xfffffff0,
  bit_and_step (n / 2) 0x7ffffff8,
  bit_and_step (n / 2 / 2) 0x3ffffffc,
  bit_and_step (n / 2 / 2 / 2) 0x1ffffffe,
  bit_and_ones 28 (n / 2 / 2 / 2 / 2) (omega arith),
)
