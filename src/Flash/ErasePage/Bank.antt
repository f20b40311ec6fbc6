-- ===== src/Flash/ErasePage/Bank.antt =====
-- common_flash.c: the erase of a sector of the H5, where the bank is selected by its physical number.
use libstlink.Prelude.{
  ℕ, ◌*◌, ◌/◌, ◌^◌, Bool, true, false, not, Option, none, ℤ, bit_and, bit_or, leb, if◌then◌else◌,
}
use libstlink.Word.{sub32, clear}
use libstlink.Registers.H5
use libstlink.Registers.Memory
use libstlink.Calculate.{bank_1}
use libstlink.Stlink.{Stlink, M, pure, get, ◌>>=◌, ◌>>◌}
use libstlink.Stlink.ReadWrite.{stlink_read_debug32, stlink_write_debug32}
use libstlink.Flash.Control.{clear_flash_error, lock_flash}
use libstlink.Flash.Status.{wait_flash_busy}
use libstlink.Flash.Unlock.{unlock_flash_if}
use libstlink.Flash.CrBits.{set_flash_cr_strt, stlink_h5_bank_swapped}

abbrev neq : Bool → Bool → Bool
neq true b = not b
neq false b = b

-- NSCR with the sector, its bank and the sector erase bit.
select_h5 : Stlink → ℕ → Bool → ℕ → ℕ
select_h5 sl flashaddr swap_bank val =
    let offset = sub32 flashaddr Memory.flash_base in
    let upper_half = leb (sl.flash_size / 2) offset in
    let page =
      if upper_half
      then sub32 offset (sl.flash_size / 2) / sl.flash_pgsz
      else offset / sl.flash_pgsz in
    let fields =
      bit_or (bit_or (bit_or H5.nscr_snb_mask (2 ^ H5.nscr_bksel)) (2 ^ H5.nscr_mer))
        (2 ^ H5.nscr_pg) in
    let v₁ = clear val fields in
    let v₂ = if neq upper_half swap_bank then bit_or v₁ (2 ^ H5.nscr_bksel) else v₁ in
    bit_or v₂ (bit_or (2 ^ H5.nscr_ser) (bit_and page 0x7f * 2 ^ H5.nscr_snb))

unfoldable pub erase_h5 : ℕ → ℕ → M (Option ℤ)
unfolding select_h5 stlink_h5_bank_swapped set_flash_cr_strt wait_flash_busy clear_flash_error
    lock_flash unlock_flash_if stlink_read_debug32 stlink_write_debug32
erase_h5 fuel flashaddr = do
  unlock_flash_if
  clear_flash_error
  swap_bank ← stlink_h5_bank_swapped
  sl ← get
  (ret₁, val) ← stlink_read_debug32 H5.nscr
  stlink_write_debug32 H5.nscr (select_h5 sl flashaddr swap_bank val)
  set_flash_cr_strt bank_1
  wait_flash_busy fuel
  (ret₂, val₂) ← stlink_read_debug32 H5.nscr
  stlink_write_debug32 H5.nscr (clear val₂ (2 ^ H5.nscr_ser))
  lock_flash
  pure none
