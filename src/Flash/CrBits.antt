-- ===== src/Flash/CrBits.antt =====
-- common_flash.c: the bits of the control register that start and select an operation.
use libstlink.Prelude.{
  ℕ, zero, suc, ◌*◌, ◌/◌, ◌^◌, Bool, true, false, none, bit_and, bit_or, if◌then◌else◌,
}
use libstlink.Word.{shl32, clear, is_set, uint32_max}
use libstlink.Calculate.{bank_1}
use libstlink.Registers.C0
use libstlink.Registers.C5
use libstlink.Registers.F4
use libstlink.Registers.F7
use libstlink.Registers.Fpec
use libstlink.Registers.Gx
use libstlink.Registers.H5
use libstlink.Registers.H7
use libstlink.Registers.L4
use libstlink.Registers.L5
use libstlink.Registers.Wb
use libstlink.Stlink.{
  FlashType, c0, f2_f4, f7, g0, g4, h7, l4, l5_u5, wb_wl, h5, c5, Stlink, M, pure, get, ◌>>=◌, ◌>>◌,
}
use libstlink.Stlink.ReadWrite.{stlink_read_debug32, stlink_write_debug32}
use libstlink.Flash.Control.{of_bank, has_dual_bank, read_flash_cr}
use libstlink.Flash.Status.{is_flash_busy}

-- The register and the position of PSIZE.
psize_at : FlashType → ℕ → ℕ × ℕ
psize_at h7 bank = (of_bank bank H7.cr1 H7.cr2, H7.cr_psize)
psize_at _ bank = (F4.cr, 8)

unfoldable pub write_flash_cr_psiz : ℕ → ℕ → M (Unit {0})
unfolding psize_at read_flash_cr stlink_write_debug32
write_flash_cr_psiz n bank = do
  x ← read_flash_cr bank
  sl ← get
  let (cr_reg, psize_shift) = psize_at sl.flash_type bank
  stlink_write_debug32 cr_reg (bit_or (clear x (3 * 2 ^ psize_shift)) (shl32 n psize_shift))
  pure tt

-- The register that `clear_flash_cr_pg` writes, and the bit that it clears.
unfoldable pub pg_at : FlashType → ℕ → ℕ × ℕ
pg_at c0 bank = (C0.cr, Fpec.cr_pg)
pg_at f2_f4 bank = (F4.cr, Fpec.cr_pg)
pg_at f7 bank = (F7.cr, Fpec.cr_pg)
pg_at g0 bank = (Gx.cr, Fpec.cr_pg)
pg_at g4 bank = (Gx.cr, Fpec.cr_pg)
pg_at h7 bank = (of_bank bank H7.cr1 H7.cr2, H7.cr_pg)
pg_at l4 bank = (L4.cr, Fpec.cr_pg)
pg_at l5_u5 bank = (L5.nscr, Fpec.cr_pg)
pg_at h5 bank = (H5.nscr, H5.nscr_pg)
pg_at wb_wl bank = (Wb.cr, Fpec.cr_pg)
pg_at c5 bank = (C5.cr, C5.cr_pg)
pg_at _ bank = (Fpec.cr, Fpec.cr_pg)

unfoldable pub clear_flash_cr_pg : ℕ → M (Unit {0})
unfolding pg_at read_flash_cr stlink_write_debug32
clear_flash_cr_pg bank = do
  sl ← get
  let (cr_reg, shift) = pg_at sl.flash_type bank
  n ← read_flash_cr bank
  stlink_write_debug32 cr_reg (clear n (2 ^ shift))
  pure tt

-- `wait_flash_busy_progress`: the polling loop of `wait_flash_busy`, with delays and dots on stdout.
unfoldable pub wait_flash_busy_progress : ℕ → M (Unit {0})
wait_flash_busy_progress zero = λ sl. none
wait_flash_busy_progress (suc fuel) = do
  busy ← is_flash_busy
  elim (is_set busy) [ true ↦ wait_flash_busy_progress fuel | false ↦ pure tt ]

unfoldable pub write_flash_ar : ℕ → ℕ → M (Unit {0})
unfolding stlink_write_debug32
write_flash_ar n bank = do stlink_write_debug32 (of_bank bank Fpec.ar Fpec.ar2) n; pure tt

-- The control register with the sector number and the sector erase bit.
pub record SnbField : Type 0 where
  pub cr_reg : ℕ
  pub snb_mask : ℕ
  pub snb_shift : ℕ
  pub ser_shift : ℕ

unfoldable pub snb_at : FlashType → ℕ → SnbField
snb_at h7 bank = record {
  cr_reg = of_bank bank H7.cr1 H7.cr2;
  snb_mask = H7.cr_snb_mask;
  snb_shift = H7.cr_snb;
  ser_shift = H7.cr_ser;
}
snb_at _ bank = record {
  cr_reg = F4.cr;
  snb_mask = F4.cr_snb_mask;
  snb_shift = F4.cr_snb;
  ser_shift = F4.cr_ser;
}

unfoldable pub write_flash_cr_snb : ℕ → ℕ → M (Unit {0})
unfolding snb_at read_flash_cr stlink_write_debug32
write_flash_cr_snb n bank = do
  x ← read_flash_cr bank
  sl ← get
  let field = snb_at sl.flash_type bank
  let x₁ = clear x field.snb_mask
  let x₂ = bit_or x₁ (shl32 n field.snb_shift)
  stlink_write_debug32 field.cr_reg (bit_or x₂ (2 ^ field.ser_shift))
  pure tt

-- The register and the position of the page erase bit, in `set_flash_cr_per` and
-- `clear_flash_cr_per`.
unfoldable pub per_at : FlashType → ℕ → ℕ × ℕ
per_at c0 bank = (C0.cr, Fpec.cr_per)
per_at g0 bank = (Gx.cr, Fpec.cr_per)
per_at g4 bank = (Gx.cr, Fpec.cr_per)
per_at l5_u5 bank = (L5.nscr, Fpec.cr_per)
per_at wb_wl bank = (Wb.cr, Fpec.cr_per)
per_at c5 bank = (C5.cr, C5.cr_per)
per_at _ bank = (of_bank bank Fpec.cr Fpec.cr2, Fpec.cr_per)

unfoldable pub set_flash_cr_per : ℕ → M (Unit {0})
unfolding per_at stlink_read_debug32 stlink_write_debug32
set_flash_cr_per bank = do
  sl ← get
  let (cr_reg, per_shift) = per_at sl.flash_type bank
  (ret, val) ← stlink_read_debug32 cr_reg
  stlink_write_debug32 cr_reg (bit_or val (2 ^ per_shift))
  pure tt

unfoldable pub clear_flash_cr_per : ℕ → M (Unit {0})
unfolding per_at read_flash_cr stlink_write_debug32
clear_flash_cr_per bank = do
  sl ← get
  let (cr_reg, per_shift) = per_at sl.flash_type bank
  n ← read_flash_cr bank
  stlink_write_debug32 cr_reg (clear n (2 ^ per_shift))
  pure tt

unfoldable pub write_flash_cr_bker_pnb : ℕ → M (Unit {0})
unfolding read_flash_cr stlink_write_debug32
write_flash_cr_bker_pnb n = do
  stlink_write_debug32 L4.sr (clear uint32_max (2 ^ L4.sr_bsy))
  x ← read_flash_cr bank_1
  let x₁ = clear (clear x L4.cr_opbits) L4.cr_pagemask
  let x₂ = clear (clear x₁ (2 ^ L4.cr_mer1)) (2 ^ L4.cr_mer2)
  stlink_write_debug32 L4.cr (bit_or (bit_or x₂ (shl32 n L4.cr_pnb)) (2 ^ L4.cr_per))
  pure tt

-- The register and the position of the start bit.
unfoldable pub strt_at : Stlink → FlashType → ℕ → ℕ × ℕ
strt_at sl c0 bank = (C0.cr, C0.cr_strt)
strt_at sl f2_f4 bank = (F4.cr, F4.cr_strt)
strt_at sl f7 bank = (F7.cr, F7.cr_strt)
strt_at sl g0 bank = (Gx.cr, Gx.cr_strt)
strt_at sl g4 bank = (Gx.cr, Gx.cr_strt)
strt_at sl h7 bank = (of_bank bank H7.cr1 H7.cr2, H7.cr_start sl.chip_id)
strt_at sl l4 bank = (L4.cr, L4.cr_strt)
strt_at sl l5_u5 bank = (L5.nscr, L5.nscr_nsstrt)
strt_at sl h5 bank = (H5.nscr, H5.nscr_strt)
strt_at sl wb_wl bank = (Wb.cr, Wb.cr_strt)
strt_at sl c5 bank = (C5.cr, C5.cr_strt)
strt_at sl _ bank = (of_bank bank Fpec.cr Fpec.cr2, Fpec.cr_strt)

unfoldable pub set_flash_cr_strt : ℕ → M (Unit {0})
unfolding strt_at stlink_read_debug32 stlink_write_debug32
set_flash_cr_strt bank = do
  sl ← get
  let (cr_reg, strt) = strt_at sl sl.flash_type bank
  (ret, val) ← stlink_read_debug32 cr_reg
  stlink_write_debug32 cr_reg (bit_or val (2 ^ strt))
  pure tt

-- The register, the mass erase bits and the program bit.
pub record MerField : Type 0 where
  pub cr_reg : ℕ
  pub cr_mer : ℕ
  pub cr_pg : ℕ

abbrev mer : ℕ → ℕ → ℕ → MerField
mer cr_reg cr_mer cr_pg = record { cr_reg = cr_reg; cr_mer = cr_mer; cr_pg = cr_pg }

gx_mer : Stlink → ℕ
gx_mer sl = if has_dual_bank sl then bit_or (2 ^ Gx.cr_mer1) (2 ^ Gx.cr_mer2) else 2 ^ Gx.cr_mer1

unfoldable pub mer_at : Stlink → FlashType → ℕ → MerField
unfolding gx_mer
mer_at sl c0 bank = mer C0.cr (2 ^ Fpec.cr_mer) (2 ^ Fpec.cr_pg)
mer_at sl f2_f4 bank = mer F4.cr (2 ^ Fpec.cr_mer) (2 ^ Fpec.cr_pg)
mer_at sl f7 bank = mer F7.cr (2 ^ Fpec.cr_mer) (2 ^ Fpec.cr_pg)
mer_at sl g0 bank = mer Gx.cr (gx_mer sl) (2 ^ Fpec.cr_pg)
mer_at sl g4 bank = mer Gx.cr (gx_mer sl) (2 ^ Fpec.cr_pg)
mer_at sl h7 bank = mer (of_bank bank H7.cr1 H7.cr2) (2 ^ H7.cr_ber) (2 ^ H7.cr_pg)
mer_at sl l4 bank = mer L4.cr (bit_or (2 ^ L4.cr_mer1) (2 ^ L4.cr_mer2)) (2 ^ L4.cr_pg)
mer_at sl l5_u5 bank =
    mer L5.nscr (bit_or (2 ^ L5.nscr_nsmer1) (2 ^ L5.nscr_nsmer2)) (2 ^ L5.nscr_nspg)
mer_at sl h5 bank = mer H5.nscr (2 ^ H5.nscr_mer) (2 ^ H5.nscr_pg)
mer_at sl wb_wl bank = mer Wb.cr (2 ^ Fpec.cr_mer) (2 ^ Fpec.cr_pg)
mer_at sl c5 bank = mer C5.cr (2 ^ C5.cr_mer) (2 ^ C5.cr_pg)
mer_at sl _ bank = mer (of_bank bank Fpec.cr Fpec.cr2) (2 ^ Fpec.cr_mer) (2 ^ Fpec.cr_pg)

-- The program bit is cleared by a write of its own, since the STM32F030 drops MER with it.
drop_pg : MerField → ℕ → M ℕ
unfolding stlink_write_debug32
drop_pg field val =
    if is_set (bit_and val field.cr_pg)
    then (do
      stlink_write_debug32 field.cr_reg (clear val field.cr_pg)
      pure (clear val field.cr_pg))
    else pure val

unfoldable pub set_flash_cr_mer : Bool → ℕ → M (Unit {0})
unfolding mer_at drop_pg stlink_read_debug32 stlink_write_debug32
set_flash_cr_mer v bank = do
  sl ← get
  let field = mer_at sl sl.flash_type bank
  (ret, val) ← stlink_read_debug32 field.cr_reg
  val₁ ← drop_pg field val
  stlink_write_debug32 field.cr_reg
      (if v then bit_or val₁ field.cr_mer else clear val₁ field.cr_mer)
  pure tt

unfoldable pub stlink_h5_bank_swapped : M Bool
unfolding stlink_read_debug32
stlink_h5_bank_swapped = do
  (ret, optsr) ← stlink_read_debug32 H5.optsr_cur
  pure (is_set (bit_and (optsr / 2 ^ H5.optsr_swap_bank) 1))
