-- ===== src/Word.antt =====
-- uint32_t values are numbers below 2 ^ 32, with the wrap-around of the C operators written out.
pub mod Digits
pub mod Bits
pub mod Align
pub mod Masks
use libstlink.Prelude.{
  ℕ, ◌+◌, ◌-◌, ◌*◌, ◌/◌, ◌%◌, ◌^◌, Bool, not, ◌==◌, bit_and, ℤ, pos, negsuc, ltb, if◌then◌else◌,
}

abbrev pub u32_mod : ℕ
u32_mod = 2 ^ 32

abbrev pub uint32_max : ℕ
uint32_max = 0xffffffff

-- a + b, a - b and n << k at uint32_t.
abbrev pub add32 : ℕ → ℕ → ℕ
add32 a b = (a + b) % u32_mod

abbrev pub sub32 : ℕ → ℕ → ℕ
sub32 a b = (a + u32_mod - b) % u32_mod

abbrev pub shl32 : ℕ → ℕ → ℕ
shl32 n k = n * 2 ^ k % u32_mod

-- n >> k
abbrev pub shr32 : ℕ → ℕ → ℕ
shr32 n k = n / 2 ^ k

-- ~n
abbrev pub not32 : ℕ → ℕ
not32 n = uint32_max - n

-- n & ~mask
abbrev pub clear : ℕ → ℕ → ℕ
clear n mask = bit_and n (not32 mask)

-- A uint32_t converted to int32_t.
abbrev pub as_int32 : ℕ → ℤ
as_int32 n = if ltb n 0x80000000 then pos n else negsuc (uint32_max - n)

-- The truth value of a uint32_t.
abbrev pub is_set : ℕ → Bool
is_set n = not (n == 0)
