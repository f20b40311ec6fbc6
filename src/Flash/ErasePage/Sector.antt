-- ===== src/Flash/ErasePage/Sector.antt =====
-- common_flash.c: the erase of a sector of the F2, F4, F7, L4 and H7.
use libstlink.Prelude.{
  ℕ, ◌+◌, Bool, true, false, ◌||◌, Option, none, ℤ, leb, ltb, ◌==◌, if◌then◌else◌,
}
use libstlink.Registers.Chip
use libstlink.Registers.Memory
use libstlink.Calculate.{
  bank_1, bank_2, calculate_f4_sectornum, calculate_f7_sectornum, calculate_h7_sectornum,
  calculate_l4_page, stlink_calculate_pagesize,
}
use libstlink.Stlink.{FlashType, l4, Stlink, M, pure, get, ◌>>=◌, ◌>>◌}
use libstlink.Flash.Control.{lock_flash}
use libstlink.Flash.Status.{wait_flash_busy}
use libstlink.Flash.Unlock.{unlock_flash_if}
use libstlink.Flash.CrBits.{write_flash_cr_snb, write_flash_cr_bker_pnb, set_flash_cr_strt}

select_l4 : ℕ → M (Unit {0})
unfolding calculate_l4_page stlink_calculate_pagesize write_flash_cr_bker_pnb
select_l4 flashaddr = do
  page ← calculate_l4_page flashaddr
  stlink_calculate_pagesize flashaddr
  write_flash_cr_bker_pnb page

select_f7 : ℕ → M (Unit {0})
unfolding calculate_f7_sectornum stlink_calculate_pagesize write_flash_cr_snb
select_f7 flashaddr = do
  stlink_calculate_pagesize flashaddr
  write_flash_cr_snb (calculate_f7_sectornum flashaddr) bank_1

-- The sector numbers of the second bank of a device of 2 MiB do not follow on those of the first.
snb_of_sector : ℕ → ℕ
snb_of_sector sector = if leb 12 sector then sector + 4 else sector

select_f4 : ℕ → M (Unit {0})
unfolding calculate_f4_sectornum stlink_calculate_pagesize snb_of_sector write_flash_cr_snb
select_f4 flashaddr = do
  stlink_calculate_pagesize flashaddr
  write_flash_cr_snb (snb_of_sector (calculate_f4_sectornum flashaddr)) bank_1

is_l4 : FlashType → Bool
is_l4 l4 = true
is_l4 _ = false

select : Stlink → ℕ → M (Unit {0})
unfolding is_l4 select_l4 select_f7 select_f4
select sl flashaddr =
    if is_l4 sl.flash_type
    then select_l4 flashaddr
    else if sl.chip_id == Chip.f7 || sl.chip_id == Chip.f76xxx
    then select_f7 flashaddr
    else select_f4 flashaddr

unfoldable pub erase_sector : ℕ → ℕ → M (Option ℤ)
unfolding select set_flash_cr_strt wait_flash_busy lock_flash unlock_flash_if
erase_sector fuel flashaddr = do
  unlock_flash_if
  sl ← get
  select sl flashaddr
  set_flash_cr_strt bank_1
  wait_flash_busy fuel
  lock_flash
  pure none

unfoldable pub erase_h7 : ℕ → ℕ → M (Option ℤ)
unfolding calculate_h7_sectornum write_flash_cr_snb set_flash_cr_strt wait_flash_busy lock_flash
    unlock_flash_if
erase_h7 fuel flashaddr = do
  let bank = if ltb flashaddr Memory.h7_flash_bank2_base then bank_1 else bank_2
  unlock_flash_if
  sl ← get
  write_flash_cr_snb (calculate_h7_sectornum sl flashaddr bank) bank
  set_flash_cr_strt bank
  wait_flash_busy fuel
  lock_flash
  pure none
