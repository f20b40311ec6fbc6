-- ===== src/Flash/ErasePage/Eeprom.antt =====
-- common_flash.c: the erase of a page of the L0 and L1, which goes through the lock of the PECR
-- register and that of the program memory.
use libstlink.Prelude.{
  ℕ, ◌+◌, ◌^◌, ◌||◌, Option, none, some, ℤ, failure, bit_and, bit_or, if◌then◌else◌,
}
use libstlink.Word.{is_set}
use libstlink.Registers.Fpec
use libstlink.Registers.L0
use libstlink.Stlink.{M, pure, get, ◌>>=◌, ◌>>◌}
use libstlink.Stlink.ReadWrite.{stlink_read_debug32, stlink_write_debug32}
use libstlink.Flash.Control.{get_stm32l0_flash_base}
use libstlink.Flash.Status.{wait_flash_busy}

-- Opens the locks where one is set, and returns PECR; `none` where a lock stays.
open_locks : ℕ → ℕ → M (Option ℕ)
unfolding stlink_read_debug32 stlink_write_debug32
open_locks base val =
    if is_set (bit_and val (2 ^ 0)) || is_set (bit_and val (2 ^ 1))
    then (do
      stlink_write_debug32 (base + Fpec.pekeyr_off) L0.pekey1
      stlink_write_debug32 (base + Fpec.pekeyr_off) L0.pekey2
      (ret₁, val₁) ← stlink_read_debug32 (base + Fpec.pecr_off)
      if is_set (bit_and val₁ (2 ^ 0)) then pure none else (do
        stlink_write_debug32 (base + Fpec.prgkeyr_off) L0.prgkey1
        stlink_write_debug32 (base + Fpec.prgkeyr_off) L0.prgkey2
        (ret₂, val₂) ← stlink_read_debug32 (base + Fpec.pecr_off)
        pure (if is_set (bit_and val₂ (2 ^ 1)) then none else some val₂)))
    else pure (some val)

erase_opened : ℕ → ℕ → ℕ → Option ℕ → M (Option ℤ)
unfolding wait_flash_busy stlink_read_debug32 stlink_write_debug32
erase_opened fuel flashaddr base none = pure (some failure)
erase_opened fuel flashaddr base (some val) = do
  stlink_write_debug32 (base + Fpec.pecr_off) (bit_or val (bit_or (2 ^ 9) (2 ^ 3)))
  stlink_write_debug32 flashaddr 0
  wait_flash_busy fuel
  (ret, last) ← stlink_read_debug32 (base + Fpec.pecr_off)
  stlink_write_debug32 (base + Fpec.pecr_off)
      (bit_or last (bit_or (bit_or (2 ^ 0) (2 ^ 1)) (2 ^ 2)))
  pure none

unfoldable pub erase_l0_l1 : ℕ → ℕ → M (Option ℤ)
unfolding open_locks erase_opened get_stm32l0_flash_base stlink_read_debug32
erase_l0_l1 fuel flashaddr = do
  sl ← get
  let base = get_stm32l0_flash_base sl
  (ret, val) ← stlink_read_debug32 (base + Fpec.pecr_off)
  opened ← open_locks base val
  erase_opened fuel flashaddr base opened
