-- ===== src/Calculate/Sectors.antt =====
-- calculate.c: the sector computed for an address holds the address, and its size is the page size
-- that `stlink_calculate_pagesize` gives.
use libstlink.Prelude.{
  ℕ, ◌+◌, ◌-◌, ◌*◌, ◌<◌, ◌≤◌, ◌≡◌, ◌⊎◌, inl, inr, true, arith, ltb, if◌then◌else◌,
}
use libstlink.Word.{clear}
use libstlink.Word.Bits.{bit, bit_and_not_pow}
use libstlink.Registers.Chip
use libstlink.Registers.Memory
use libstlink.Calculate.{calculate_f4_sectornum, calculate_f7_sectornum, is_f4_layout, pagesize}
use libstlink.Stlink.{Stlink}

bit_27_below : (n : ℕ) → n < 0x8000000 → bit 27 n ≡ 0
unfolding bit
bit_27_below n h = omega arith

bit_27_flash : (n : ℕ) → n < 0x8000000 → bit 27 (0x8000000 + n) ≡ 1
unfolding bit
bit_27_flash n h = omega arith

-- `flashaddr &= ~STM32_FLASH_BASE` leaves the offset in the flash.
pub clear-flash_base :
    (off : ℕ) → off < 0x8000000 → clear (Memory.flash_base + off) Memory.flash_base ≡ off
clear-flash_base off h =
    let e = bit_and_not_pow 27 (0x8000000 + off) (omega arith) (omega arith) in
    omega (arith, e, rw (bit_27_flash off h) at e)

-- Where the sectors of the F2 and F4 start: four of 16 KiB, one of 64 KiB, and seven of 128 KiB in
-- each of the two banks of 1 MiB.
abbrev pub f4_bank_start : ℕ → ℕ
f4_bank_start s = if ltb s 4 then s * 0x4000 else if ltb s 5 then 0x10000 else (s - 4) * 0x20000

abbrev pub f4_start : ℕ → ℕ
f4_start s = if ltb s 12 then f4_bank_start s else 0x100000 + f4_bank_start (s - 12)

-- Where the sectors of the F7 start: four of 32 KiB, one of 128 KiB, then of 256 KiB.
abbrev pub f7_start : ℕ → ℕ
f7_start s = if ltb s 4 then s * 0x8000 else if ltb s 5 then 0x20000 else (s - 4) * 0x40000

-- Within the 2 MiB of the F4 layout an address lies in the sector that is computed for it: not
-- below its start, and less than a page size above it.
pub calculate_f4_sectornum_holds :
    (sl : Stlink) (off : ℕ)
    → is_f4_layout sl.chip_id ≡ true
    → off < 0x200000
    → let s = calculate_f4_sectornum (Memory.flash_base + off) in
      (f4_start s ≤ off) × (off < f4_start s + pagesize sl (Memory.flash_base + off))
unfolding calculate_f4_sectornum pagesize
calculate_f4_sectornum_holds sl off layout h =
    rw (layout, clear-flash_base off (omega arith)) (ground arith)

-- The same for the F7, at any offset in the flash region.
pub calculate_f7_sectornum_holds :
    (sl : Stlink) (off : ℕ)
    → (sl.chip_id ≡ Chip.f7) ⊎ (sl.chip_id ≡ Chip.f76xxx)
    → off < 0x8000000
    → let s = calculate_f7_sectornum (Memory.flash_base + off) in
      (f7_start s ≤ off) × (off < f7_start s + pagesize sl (Memory.flash_base + off))
unfolding calculate_f7_sectornum pagesize
calculate_f7_sectornum_holds sl off (inl e) h =
    rw (clear-flash_base off h) (rw (e, pagesize) (ground arith))
calculate_f7_sectornum_holds sl off (inr e) h =
    rw (clear-flash_base off h) (rw (e, pagesize) (ground arith))
