-- ===== src/Flash/Range/Bounds.antt =====
-- common_flash.c: which addresses and sizes pass the checks of the flash and of the OTP area.
use libstlink.Prelude.{ℕ, ◌+◌, ◌^◌, ◌≤◌, ◌<◌, ◌≡◌, ◌↔◌, success, arith}
use libstlink.Stlink.{Stlink}
use libstlink.Flash.Range.{
  stlink_check_address_range_validity, stlink_check_address_range_validity_otp,
}

-- Where neither the end of the flash nor the end of the range leaves 32 bits, the check passes just for
-- the ranges that start at a byte of the flash and end in it.
pub stlink_check_address_range_validity_iff :
    (sl : Stlink) (addr size : ℕ)
    → sl.flash_base + sl.flash_size < 2 ^ 32
    → addr + size < 2 ^ 32
    → (stlink_check_address_range_validity sl addr size ≡ success) ↔ (
        (sl.flash_base ≤ addr)
        × (addr < sl.flash_base + sl.flash_size)
        × (addr + size ≤ sl.flash_base + sl.flash_size))
unfolding stlink_check_address_range_validity
stlink_check_address_range_validity_iff sl addr size fits ends = ground arith

-- A size that carries the end of the range over 32 bits passes the check from every address of the
-- flash, though the range leaves the flash.
pub stlink_check_address_range_validity_wraps :
    (sl : Stlink) (addr size : ℕ)
    → sl.flash_base + sl.flash_size < 2 ^ 32
    → sl.flash_base ≤ addr
    → addr < sl.flash_base + sl.flash_size
    → size < 2 ^ 32
    → 2 ^ 32 ≤ addr + size
    → (stlink_check_address_range_validity sl addr size ≡ success)
      × (sl.flash_base + sl.flash_size < addr + size)
unfolding stlink_check_address_range_validity
stlink_check_address_range_validity_wraps sl addr size fits low high small over = ground arith

-- Where neither the end of the OTP area nor the end of the range reaches 2^32, the check of the OTP area passes just for the ranges that start in the area and end before its last
-- byte: a range that ends with that byte is refused.
pub stlink_check_address_range_validity_otp_iff :
    (sl : Stlink) (addr size : ℕ)
    → sl.otp_base + sl.otp_size < 2 ^ 32
    → addr + size < 2 ^ 32
    → (stlink_check_address_range_validity_otp sl addr size ≡ success)
      ↔ ((sl.otp_base ≤ addr) × (addr + size < sl.otp_base + sl.otp_size))
unfolding stlink_check_address_range_validity_otp
stlink_check_address_range_validity_otp_iff sl addr size fits ends = ground arith
