-- ===== src/Flash/ErasePage.antt =====
-- common_flash.c: `stlink_erase_flash_page`. Each family of controllers has a function of its own;
-- `fuel` bounds the polls of each wait. A family that fails early returns `some` of its result.
mod Sector
mod Eeprom
mod Page
mod Bank
pub mod Unknown
use libstlink.Prelude.{ℕ, Option, none, some, ℤ, failure}
use libstlink.Stlink.{
  FlashType, c0, f0_f1_f3, f1_xl, f2_f4, f7, g0, g4, h7, l0_l1, l4, l5_u5, wb_wl, wb0, h5, c5, M,
  pure, get, ◌>>=◌, ◌>>◌,
}
use libstlink.Flash.Control.{clear_flash_error}
use libstlink.Flash.Status.{wait_flash_busy, check_flash_error}
use libstlink.Flash.ErasePage.Sector.{erase_sector, erase_h7}
use libstlink.Flash.ErasePage.Eeprom.{erase_l0_l1}
use libstlink.Flash.ErasePage.Page.{erase_paged, erase_wb0, erase_fpec}
use libstlink.Flash.ErasePage.Bank.{erase_h5}

-- The ladder of the families; an unknown type fails.
unfoldable pub erase_family : ℕ → ℕ → FlashType → M (Option ℤ)
unfolding erase_sector erase_l0_l1 erase_paged erase_h5 erase_wb0 erase_fpec erase_h7
erase_family fuel flashaddr f2_f4 = erase_sector fuel flashaddr
erase_family fuel flashaddr f7 = erase_sector fuel flashaddr
erase_family fuel flashaddr l4 = erase_sector fuel flashaddr
erase_family fuel flashaddr l0_l1 = erase_l0_l1 fuel flashaddr
erase_family fuel flashaddr g0 = erase_paged fuel flashaddr
erase_family fuel flashaddr g4 = erase_paged fuel flashaddr
erase_family fuel flashaddr l5_u5 = erase_paged fuel flashaddr
erase_family fuel flashaddr wb_wl = erase_paged fuel flashaddr
erase_family fuel flashaddr c5 = erase_paged fuel flashaddr
erase_family fuel flashaddr c0 = erase_paged fuel flashaddr
erase_family fuel flashaddr h5 = erase_h5 fuel flashaddr
erase_family fuel flashaddr wb0 = erase_wb0 fuel flashaddr
erase_family fuel flashaddr f0_f1_f3 = erase_fpec fuel flashaddr
erase_family fuel flashaddr f1_xl = erase_fpec fuel flashaddr
erase_family fuel flashaddr h7 = erase_h7 fuel flashaddr
erase_family fuel flashaddr _ = pure (some failure)

finish : Option ℤ → M ℤ
unfolding check_flash_error
finish none = check_flash_error
finish (some ret) = pure ret

unfoldable pub stlink_erase_flash_page : ℕ → ℕ → M ℤ
unfolding wait_flash_busy clear_flash_error erase_family finish
stlink_erase_flash_page fuel flashaddr = do
  wait_flash_busy fuel
  clear_flash_error
  sl ← get
  early ← erase_family fuel flashaddr sl.flash_type
  finish early
