-- ===== src/Loader/Start.antt =====
-- flash_loader.c: `set_flash_cr_pg`, `set_dma_state` and `stlink_flashloader_start`.
use libstlink.Prelude.{
  ℕ, ◌+◌, ◌^◌, Bool, true, false, Option, none, some, ℤ, pos, success, failure, is_nonzero, bit_and,
  bit_or, ◌==◌, if◌then◌else◌,
}
use libstlink.Word.{clear, is_set}
use libstlink.Calculate.{bank_1, bank_2}
use libstlink.Registers.C0
use libstlink.Registers.C5
use libstlink.Registers.Chip
use libstlink.Registers.F4
use libstlink.Registers.F7
use libstlink.Registers.Fpec
use libstlink.Registers.Gx
use libstlink.Registers.H5
use libstlink.Registers.H7
use libstlink.Registers.L0
use libstlink.Registers.L4
use libstlink.Registers.L5
use libstlink.Registers.Lx
use libstlink.Registers.Rcc
use libstlink.Registers.Wb
use libstlink.Stlink.{
  FlashType, c0, f0_f1_f3, f1_xl, f2_f4, f7, g0, g4, h7, l0_l1, l4, l5_u5, wb_wl, wb0, h5, c5,
  Stlink, M, pure, get, ◌>>=◌, ◌>>◌,
}
use libstlink.Stlink.ReadWrite.{stlink_read_debug32, stlink_write_debug32}
use libstlink.Flash.Control.{
  get_stm32l0_flash_base, of_bank, has_dual_bank, read_flash_cr, clear_flash_error,
}
use libstlink.Flash.Status.{wait_flash_busy}
use libstlink.Flash.Unlock.{unlock_flash_if}
use libstlink.Flash.CrBits.{write_flash_cr_psiz}
use libstlink.Target.{stlink_target_voltage}
use libstlink.Loader.Buffer.{FlashLoader, is_minus_one}
use libstlink.Loader.Choice.{above, stlink_flash_loader_init}

-- The control register and the value to write, from the value read.
unfoldable pub pg_write : FlashType → ℕ → ℕ → ℕ × ℕ
pg_write c0 bank x = (C0.cr, bit_or x (2 ^ Fpec.cr_pg))
pg_write f2_f4 bank x = (F4.cr, bit_or x (2 ^ Fpec.cr_pg))
pg_write f7 bank x = (F7.cr, bit_or x (2 ^ Fpec.cr_pg))
pg_write l4 bank x = (L4.cr, bit_or (clear x L4.cr_opbits) (2 ^ L4.cr_pg))
pg_write l5_u5 bank x = (L5.nscr, bit_or x (2 ^ Fpec.cr_pg))
pg_write h5 bank x = (H5.nscr, bit_or x (2 ^ H5.nscr_pg))
pg_write g0 bank x = (Gx.cr, bit_or x (2 ^ Fpec.cr_pg))
pg_write g4 bank x = (Gx.cr, bit_or x (2 ^ Fpec.cr_pg))
pg_write wb_wl bank x = (Wb.cr, bit_or x (2 ^ Fpec.cr_pg))
pg_write c5 bank x = (C5.cr, bit_or x (2 ^ C5.cr_pg))
pg_write h7 bank x = (of_bank bank H7.cr1 H7.cr2, bit_or x (2 ^ H7.cr_pg))
pg_write _ bank x = (of_bank bank Fpec.cr Fpec.cr2, 2 ^ Fpec.cr_pg)

unfoldable pub set_flash_cr_pg : ℕ → M (Unit {0})
unfolding pg_write read_flash_cr stlink_write_debug32
set_flash_cr_pg bank = do
  x ← read_flash_cr bank
  sl ← get
  let (cr_reg, val) = pg_write sl.flash_type bank x
  stlink_write_debug32 cr_reg val
  pure tt

-- The register and the bits of the clocks of the DMA.
unfoldable pub rcc_dma : Stlink → FlashType → Option (ℕ × ℕ)
unfolding get_stm32l0_flash_base
rcc_dma sl c0 = some (Rcc.c0_ahbenr, Rcc.c0_dmaen)
rcc_dma sl f0_f1_f3 = some (Rcc.f1_ahbenr, Rcc.f1_dmaen)
rcc_dma sl f1_xl = some (Rcc.f1_ahbenr, Rcc.f1_dmaen)
rcc_dma sl f2_f4 = some (Rcc.f4_ahb1enr, Rcc.f4_dmaen)
rcc_dma sl f7 = some (Rcc.f4_ahb1enr, Rcc.f4_dmaen)
rcc_dma sl g0 = some (Rcc.g0_ahbenr, Rcc.g0_dmaen)
rcc_dma sl g4 = some (Rcc.g4_ahb1enr, Rcc.g4_dmaen)
rcc_dma sl l4 = some (Rcc.g4_ahb1enr, Rcc.g4_dmaen)
rcc_dma sl l0_l1 =
    if get_stm32l0_flash_base sl == Lx.regs_addr
    then some (Rcc.l1_ahbenr, Rcc.l1_dmaen)
    else some (Rcc.l0_ahbenr, Rcc.l0_dmaen)
rcc_dma sl l5_u5 = some (Rcc.l5_ahb1enr, Rcc.l5_dmaen)
rcc_dma sl h7 = some (Rcc.h7_ahb1enr, Rcc.h7_dmaen)
rcc_dma sl wb_wl = some (Rcc.wb_ahb1enr, Rcc.wb_dmaen)
rcc_dma sl wb0 = some (Rcc.wb0_ahbenr, Rcc.wb0_ahb_dmaen)
rcc_dma sl c5 = some (Rcc.c5_ahb1enr, Rcc.c5_dmaen)
rcc_dma sl _ = none

-- The value to write and the loader's record; `restore` is the argument `bckpRstr`.
unfoldable pub dma_value : Bool → ℕ → FlashLoader → ℕ → ℕ × FlashLoader
dma_value true mask fl value = (bit_or (clear value mask) fl.rcc_dma_bkp, fl)
dma_value false mask fl value = (clear value mask, record fl { rcc_dma_bkp = bit_and value mask })

dma_at : Option (ℕ × ℕ) → Bool → FlashLoader → M FlashLoader
unfolding stlink_read_debug32 stlink_write_debug32 dma_value
dma_at none restore fl = pure fl
dma_at (some (rcc, mask)) restore fl = do
  (ret, value) ← stlink_read_debug32 rcc
  if is_nonzero ret then pure fl else (do
    let (value', fl') = dma_value restore mask fl value
    stlink_write_debug32 rcc value'
    pure fl')

unfoldable pub set_dma_state : FlashLoader → Bool → M FlashLoader
unfolding rcc_dma dma_at
set_dma_state fl restore = do sl ← get; dma_at (rcc_dma sl sl.flash_type) restore fl

-- 3200 mV where the probe cannot measure.
read_voltage : M ℤ
unfolding stlink_target_voltage
read_voltage = do sl ← get; if sl.stlink_v == 1 then pure (pos 3200) else stlink_target_voltage

-- The voltage must do for the L4; for the others it sets the width of the writes.
set_width : FlashType → ℤ → M ℤ
unfolding write_flash_cr_psiz
set_width l4 voltage = pure (if above 1709 voltage then success else failure)
set_width _ voltage =
    if above 2700 voltage
    then (do write_flash_cr_psiz 2 bank_1; pure success)
    else (do write_flash_cr_psiz 0 bank_1; pure success)

-- F2, F4, F7 and L4.
start_wide : FlashLoader → M (ℤ × FlashLoader)
unfolding stlink_flash_loader_init unlock_flash_if read_voltage set_width set_flash_cr_pg
start_wide fl = do
  (ret, fl') ← stlink_flash_loader_init fl
  if is_minus_one ret then pure (failure, fl') else (do
    unlock_flash_if
    voltage ← read_voltage
    sl ← get
    if is_minus_one voltage then pure (failure, fl') else (do
      ret' ← set_width sl.flash_type voltage
      if is_nonzero ret'
          then pure (failure, fl')
          else (do set_flash_cr_pg bank_1; pure (success, fl'))))

start_h5 : FlashLoader → M (ℤ × FlashLoader)
unfolding stlink_flash_loader_init unlock_flash_if set_flash_cr_pg
start_h5 fl = do
  (ret, fl') ← stlink_flash_loader_init fl
  if is_minus_one ret
      then pure (failure, fl')
      else (do unlock_flash_if; set_flash_cr_pg bank_1; pure (success, fl'))

-- The controllers that are written word by word or row by row.
start_words : FlashLoader → M (ℤ × FlashLoader)
unfolding unlock_flash_if set_flash_cr_pg
start_words fl = do unlock_flash_if; set_flash_cr_pg bank_1; pure (success, fl)

-- The loader is left out where it cannot be placed.
start_l0_l1 : FlashLoader → M (ℤ × FlashLoader)
unfolding get_stm32l0_flash_base stlink_read_debug32 stlink_write_debug32 stlink_flash_loader_init
start_l0_l1 fl = do
  sl ← get
  let regs_base = get_stm32l0_flash_base sl
  stlink_write_debug32 (regs_base + Fpec.pekeyr_off) L0.pekey1
  stlink_write_debug32 (regs_base + Fpec.pekeyr_off) L0.pekey2
  (ret₀, val₀) ← stlink_read_debug32 (regs_base + Fpec.pecr_off)
  if is_set (bit_and val₀ (2 ^ 0)) then pure (failure, fl) else (do
    stlink_write_debug32 (regs_base + Fpec.prgkeyr_off) L0.prgkey1
    stlink_write_debug32 (regs_base + Fpec.prgkeyr_off) L0.prgkey2
    (ret₁, val₁) ← stlink_read_debug32 (regs_base + Fpec.pecr_off)
    if is_set (bit_and val₁ (2 ^ 1))
        then pure (failure, fl)
        else (do (ret, fl') ← stlink_flash_loader_init fl; pure (success, fl')))

start_wb0 : FlashLoader → M (ℤ × FlashLoader)
unfolding stlink_flash_loader_init
start_wb0 fl = do
  (ret, fl') ← stlink_flash_loader_init fl
  pure (if is_minus_one ret then failure else success, fl')

is_xl : FlashType → Bool
is_xl f1_xl = true
is_xl _ = false

start_fpec : FlashLoader → M (ℤ × FlashLoader)
unfolding stlink_flash_loader_init unlock_flash_if set_flash_cr_pg is_xl
start_fpec fl = do
  (ret, fl') ← stlink_flash_loader_init fl
  if is_minus_one ret then pure (failure, fl') else (do
    unlock_flash_if
    set_flash_cr_pg bank_1
    sl ← get
    if is_xl sl.flash_type then set_flash_cr_pg bank_2 else pure tt
    pure (success, fl'))

start_h7 : FlashLoader → M (ℤ × FlashLoader)
unfolding unlock_flash_if set_flash_cr_pg write_flash_cr_psiz
start_h7 fl = do
  unlock_flash_if
  set_flash_cr_pg bank_1
  sl ← get
  if has_dual_bank sl then set_flash_cr_pg bank_2 else pure tt
  if sl.chip_id == Chip.h7ax then pure tt else (do
    write_flash_cr_psiz 3 bank_1
    if has_dual_bank sl then write_flash_cr_psiz 3 bank_2 else pure tt)
  pure (success, fl)

unfoldable pub start_family : FlashLoader → FlashType → M (ℤ × FlashLoader)
unfolding start_wide start_h5 start_words start_l0_l1 start_wb0 start_fpec start_h7
start_family fl f2_f4 = start_wide fl
start_family fl f7 = start_wide fl
start_family fl l4 = start_wide fl
start_family fl h5 = start_h5 fl
start_family fl wb_wl = start_words fl
start_family fl g0 = start_words fl
start_family fl g4 = start_words fl
start_family fl l5_u5 = start_words fl
start_family fl c5 = start_words fl
start_family fl c0 = start_words fl
start_family fl l0_l1 = start_l0_l1 fl
start_family fl wb0 = start_wb0 fl
start_family fl f0_f1_f3 = start_fpec fl
start_family fl f1_xl = start_fpec fl
start_family fl h7 = start_h7 fl
start_family fl _ = pure (failure, fl)

-- The result, and the loader's record as it is after the call.
unfoldable pub stlink_flashloader_start : ℕ → FlashLoader → M (ℤ × FlashLoader)
unfolding set_dma_state wait_flash_busy clear_flash_error start_family
stlink_flashloader_start fuel fl = do
  fl' ← set_dma_state fl false
  wait_flash_busy fuel
  clear_flash_error
  sl ← get
  start_family fl' sl.flash_type
