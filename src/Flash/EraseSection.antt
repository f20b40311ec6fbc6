-- ===== src/Flash/EraseSection.antt =====
-- common_flash.c: `stlink_erase_flash_section` and `stlink_erase_flash_mass`. `fuel` bounds the rounds
-- of each loop.
pub mod Refuses
use libstlink.Prelude.{
  ℕ, zero, suc, ◌&&◌, ◌||◌, Bool, true, false, not, none, ℤ, success, failure, is_nonzero,
  is_negative, ltb, ◌==◌, if◌then◌else◌,
}
use libstlink.Word.{add32}
use libstlink.Registers.Chip
use libstlink.Registers.Wb0
use libstlink.Calculate.{bank_1, bank_2, stlink_calculate_pagesize}
use libstlink.Stlink.{FlashType, f1_xl, h7, l0_l1, wb_wl, wb0, Stlink, M, pure, get, ◌>>=◌, ◌>>◌}
use libstlink.Stlink.ReadWrite.{stlink_write_debug32}
use libstlink.Flash.Control.{has_dual_bank, clear_flash_error, lock_flash}
use libstlink.Flash.Status.{polls_bank_2, wait_flash_busy, check_flash_error}
use libstlink.Flash.Unlock.{unlock_flash_if}
use libstlink.Flash.CrBits.{
  write_flash_cr_psiz, wait_flash_busy_progress, set_flash_cr_strt, set_flash_cr_mer,
}
use libstlink.Flash.ErasePage.{stlink_erase_flash_page}
use libstlink.Flash.Range.{stlink_check_address_range_validity, stlink_check_address_alignment}

-- The do-while loop over the pages; `stop` is base_addr + size. The first number bounds the pages.
unfoldable pub erase_pages : ℕ → ℕ → ℕ → Bool → ℕ → M ℤ
unfolding stlink_calculate_pagesize
erase_pages zero fuel stop align_size addr = λ sl. none
erase_pages (suc rounds) fuel stop align_size addr = do
  page_size ← stlink_calculate_pagesize addr
  elim (ltb stop (add32 addr page_size) && not align_size) [
    | true ↦ pure failure
    | false ↦ (do
      ret ← stlink_erase_flash_page fuel addr
      elim (is_nonzero ret) [
        | true ↦ pure failure
        | false ↦ elim (ltb (add32 addr page_size) stop) [
          | true ↦ erase_pages rounds fuel stop align_size (add32 addr page_size)
          | false ↦ pure success
        ]
      ])
  ]

unfoldable pub stlink_erase_flash_section : ℕ → ℕ → ℕ → Bool → M ℤ
unfolding erase_pages stlink_check_address_alignment
stlink_erase_flash_section fuel base_addr size align_size = do
  sl ← get
  if is_negative (stlink_check_address_range_validity sl base_addr size) then pure failure else (do
    aligned ← stlink_check_address_alignment fuel base_addr
    if is_negative aligned
        then pure failure
        else erase_pages fuel fuel (add32 base_addr size) align_size base_addr)

-- H7 but the H7Ax: the parallelism of the banks.
set_parallelism : Stlink → FlashType → M (Unit {0})
unfolding write_flash_cr_psiz
set_parallelism sl h7 = if sl.chip_id == Chip.h7ax then pure tt else (do
  write_flash_cr_psiz 3 bank_1
  if has_dual_bank sl then write_flash_cr_psiz 3 bank_2 else pure tt)
set_parallelism sl _ = pure tt

-- The controllers with a mass erase bit.
unfoldable pub erase_by_mer : ℕ → M ℤ
unfolding set_parallelism wait_flash_busy clear_flash_error unlock_flash_if set_flash_cr_mer
    set_flash_cr_strt wait_flash_busy_progress lock_flash check_flash_error
erase_by_mer fuel = do
  wait_flash_busy fuel
  clear_flash_error
  unlock_flash_if
  sl ← get
  set_parallelism sl sl.flash_type
  set_flash_cr_mer true bank_1
  set_flash_cr_strt bank_1
  if polls_bank_2 sl then (do set_flash_cr_mer true bank_2; set_flash_cr_strt bank_2) else pure tt
  wait_flash_busy_progress fuel
  lock_flash
  set_flash_cr_mer false bank_1
  if polls_bank_2 sl then set_flash_cr_mer false bank_2 else pure tt
  check_flash_error

erase_whole : ℕ → M ℤ
unfolding stlink_erase_flash_section
erase_whole fuel = do sl ← get; stlink_erase_flash_section fuel sl.flash_base sl.flash_size false

-- The WB05 and the WL3x have no mass erase.
erase_mass_wb0 : ℕ → M ℤ
unfolding erase_whole stlink_write_debug32 wait_flash_busy_progress
erase_mass_wb0 fuel = do
  sl ← get
  if sl.chip_id == Chip.wb06_wb07 || sl.chip_id == Chip.wb09
      then (do
        stlink_write_debug32 Wb0.irqraw Wb0.irq_all
        stlink_write_debug32 Wb0.command Wb0.cmd_mass_erase
        wait_flash_busy_progress fuel
        pure success)
      else erase_whole fuel

erase_mass_of : ℕ → FlashType → M ℤ
unfolding erase_whole erase_mass_wb0 erase_by_mer
erase_mass_of fuel l0_l1 = erase_whole fuel
erase_mass_of fuel wb_wl = erase_whole fuel
erase_mass_of fuel wb0 = erase_mass_wb0 fuel
erase_mass_of fuel _ = erase_by_mer fuel

unfoldable pub stlink_erase_flash_mass : ℕ → M ℤ
unfolding erase_mass_of
stlink_erase_flash_mass fuel = do sl ← get; erase_mass_of fuel sl.flash_type
