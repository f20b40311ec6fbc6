-- ===== src/Flash/ErasePage/Page.antt =====
-- common_flash.c: the erase of a page of the G0, G4, L5, U5, WB, WL, STM32C0, STM32C5, WB0, F0, F1 and F3.
use libstlink.Prelude.{
  ℕ, ◌*◌, ◌/◌, ◌^◌, Bool, true, false, not, ◌&&◌, ◌||◌, Option, none, ℤ, bit_and, bit_or, leb, ltb,
  ◌==◌, if◌then◌else◌,
}
use libstlink.Word.{sub32, shr32, clear, is_set}
use libstlink.Registers.C0
use libstlink.Registers.C5
use libstlink.Registers.Fpec
use libstlink.Registers.Gx
use libstlink.Registers.L5
use libstlink.Registers.Memory
use libstlink.Registers.Wb
use libstlink.Registers.Wb0
use libstlink.Calculate.{bank_1, bank_2}
use libstlink.Stlink.{FlashType, g0, g4, l5_u5, wb_wl, c0, c5, Stlink, M, pure, get, ◌>>=◌, ◌>>◌}
use libstlink.Stlink.ReadWrite.{stlink_read_debug32, stlink_write_debug32}
use libstlink.Flash.Control.{lock_flash}
use libstlink.Flash.Status.{wait_flash_busy}
use libstlink.Flash.Unlock.{unlock_flash_if}
use libstlink.Flash.CrBits.{
  clear_flash_cr_pg, set_flash_cr_per, clear_flash_cr_per, write_flash_ar, set_flash_cr_strt,
}

-- The offset in the flash, and the number of the page in it.
abbrev offset_of : ℕ → ℕ
offset_of flashaddr = sub32 flashaddr Memory.flash_base

abbrev page_of : Stlink → ℕ → ℕ
page_of sl flashaddr = offset_of flashaddr / sl.flash_pgsz

select_g0 : Stlink → ℕ → ℕ → ℕ
select_g0 sl flashaddr val =
    bit_or (clear val (0x3ff * 2 ^ 3))
      (bit_or (bit_and (page_of sl flashaddr) 0x3ff * 2 ^ 3) (2 ^ Fpec.cr_per))

-- Parts with more than 128 KiB have two banks.
select_g4 : Stlink → ℕ → ℕ → ℕ
select_g4 sl flashaddr val =
    let v₁ = clear val (0x7ff * 2 ^ 3) in
    let v₂ = clear v₁ (bit_or (2 ^ Gx.cr_mer1) (2 ^ Gx.cr_mer2)) in
    let v₃ = clear v₂ (2 ^ Gx.cr_pg) in
    let v₄ =
      if ltb (128 * 1024) sl.flash_size && leb (sl.flash_size / 2) (offset_of flashaddr)
      then bit_or v₃ (2 ^ Gx.g4_cr_bker)
      else clear v₃ (2 ^ Gx.g4_cr_bker) in
    bit_or v₄ (bit_or (bit_and (page_of sl flashaddr) 0x7ff * 2 ^ 3) (2 ^ Fpec.cr_per))

-- Pages of 2 KiB or 8 KiB: two banks; else one.
l5_bank_2 : Stlink → ℕ → Bool
l5_bank_2 sl flashaddr =
    (sl.flash_pgsz == 0x800 || sl.flash_pgsz == 0x2000)
    && leb (sl.flash_size / 2) (offset_of flashaddr)

select_l5 : Stlink → ℕ → ℕ → ℕ
unfolding l5_bank_2
select_l5 sl flashaddr val =
    let page =
      if l5_bank_2 sl flashaddr
      then sub32 (offset_of flashaddr) (sl.flash_size / 2) / sl.flash_pgsz
      else page_of sl flashaddr in
    let v₁ =
      if l5_bank_2 sl flashaddr
      then bit_or val (2 ^ L5.nscr_nsbker)
      else clear val (2 ^ L5.nscr_nsbker) in
    bit_or (clear v₁ (0xff * 2 ^ 3)) (bit_or (bit_and page 0xff * 2 ^ 3) (2 ^ Fpec.cr_per))

select_wb : Stlink → ℕ → ℕ → ℕ
select_wb sl flashaddr val =
    bit_or (clear val (0xff * 2 ^ 3)) (bit_and (page_of sl flashaddr) 0xff * 2 ^ 3)

select_c0 : Stlink → ℕ → ℕ → ℕ
select_c0 sl flashaddr val =
    bit_or (clear val (0xf * 2 ^ C0.cr_pnb)) (bit_and (page_of sl flashaddr) 0xf * 2 ^ C0.cr_pnb)

abbrev neq : Bool → Bool → Bool
neq true b = not b
neq false b = b

select_c5 : Stlink → ℕ → ℕ → ℕ → ℕ
select_c5 sl flashaddr val optsr =
    let upper_half = leb (sl.flash_size / 2) (offset_of flashaddr) in
    let single_bank = is_set (bit_and (shr32 optsr C5.optsr_cur_single_bank) 1) in
    let swap_bank = is_set (bit_and (shr32 optsr C5.optsr_cur_swap_bank) 1) in
    let page =
      if single_bank
      then page_of sl flashaddr
      else (sub32 (offset_of flashaddr) (if upper_half then sl.flash_size / 2 else 0)
          / sl.flash_pgsz) in
    let v₁ =
      if not single_bank && neq upper_half swap_bank
      then bit_or val (2 ^ C5.cr_bksel)
      else clear val (2 ^ C5.cr_bksel) in
    let v₂ = clear (clear v₁ (0x7f * 2 ^ C5.cr_pnb)) (2 ^ C5.cr_pg) in
    let v₃ = clear (clear v₂ (2 ^ C5.cr_ber)) (2 ^ C5.cr_mer) in
    bit_or (bit_or v₃ (bit_and page 0x7f * 2 ^ C5.cr_pnb)) (2 ^ C5.cr_per)

update : ℕ → (ℕ → ℕ) → M (Unit {0})
unfolding stlink_read_debug32 stlink_write_debug32
update reg f = do (ret, val) ← stlink_read_debug32 reg; stlink_write_debug32 reg (f val); pure tt

select_page : Stlink → ℕ → FlashType → M (Unit {0})
unfolding update select_g0 select_g4 select_l5 select_wb select_c0 select_c5 stlink_read_debug32
    stlink_write_debug32
select_page sl flashaddr g0 = update Gx.cr (select_g0 sl flashaddr)
select_page sl flashaddr g4 = update Gx.cr (select_g4 sl flashaddr)
select_page sl flashaddr l5_u5 = update L5.nscr (select_l5 sl flashaddr)
select_page sl flashaddr wb_wl = update Wb.cr (select_wb sl flashaddr)
select_page sl flashaddr c0 = update C0.cr (select_c0 sl flashaddr)
select_page sl flashaddr c5 = do
  (ret₁, val) ← stlink_read_debug32 C5.cr
  (ret₂, optsr) ← stlink_read_debug32 C5.optsr_cur
  stlink_write_debug32 C5.cr (select_c5 sl flashaddr val optsr)
  pure tt
select_page sl flashaddr _ = pure tt

unfoldable pub erase_paged : ℕ → ℕ → M (Option ℤ)
unfolding select_page set_flash_cr_per clear_flash_cr_per set_flash_cr_strt wait_flash_busy
    lock_flash unlock_flash_if
erase_paged fuel flashaddr = do
  unlock_flash_if
  set_flash_cr_per bank_1
  sl ← get
  select_page sl flashaddr sl.flash_type
  set_flash_cr_strt bank_1
  wait_flash_busy fuel
  clear_flash_cr_per bank_1
  lock_flash
  pure none

unfoldable pub erase_wb0 : ℕ → ℕ → M (Option ℤ)
unfolding wait_flash_busy stlink_write_debug32
erase_wb0 fuel flashaddr = do
  sl ← get
  let flash_page = sub32 flashaddr sl.flash_base / sl.flash_pgsz
  stlink_write_debug32 Wb0.irqraw Wb0.irq_all
  stlink_write_debug32 Wb0.address (shr32 (flash_page * sl.flash_pgsz) 2)
  stlink_write_debug32 Wb0.command Wb0.cmd_erase_page
  wait_flash_busy fuel
  pure none

unfoldable pub erase_fpec : ℕ → ℕ → M (Option ℤ)
unfolding clear_flash_cr_pg set_flash_cr_per write_flash_ar set_flash_cr_strt clear_flash_cr_per
    wait_flash_busy lock_flash unlock_flash_if
erase_fpec fuel flashaddr = do
  let bank = if ltb flashaddr Memory.f1_flash_bank2_base then bank_1 else bank_2
  unlock_flash_if
  clear_flash_cr_pg bank
  set_flash_cr_per bank
  write_flash_ar flashaddr bank
  set_flash_cr_strt bank
  wait_flash_busy fuel
  clear_flash_cr_per bank
  lock_flash
  pure none
