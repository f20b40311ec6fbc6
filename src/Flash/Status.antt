-- ===== src/Flash/Status.antt =====
-- common_flash.c: `read_flash_sr`, `is_flash_busy`, `wait_flash_busy`, `check_flash_error`.
pub mod Wait
pub mod Quiet
use libstlink.Prelude.{
  ℕ, zero, suc, ◌+◌, ◌^◌, Bool, true, false, not, ◌&&◌, ◌||◌, Option, none, some, ℤ, success,
  failure, bit_and, bit_or, ◌==◌, if◌then◌else◌,
}
use libstlink.Word.{not32, clear, is_set, uint32_max}
use libstlink.Calculate.{bank_1, bank_2}
use libstlink.Registers.C0
use libstlink.Registers.C5
use libstlink.Registers.F4
use libstlink.Registers.F7
use libstlink.Registers.Fpec
use libstlink.Registers.Gx
use libstlink.Registers.H5
use libstlink.Registers.H7
use libstlink.Registers.L0
use libstlink.Registers.L4
use libstlink.Registers.L5
use libstlink.Registers.Lx
use libstlink.Registers.Wb
use libstlink.Registers.Wb0
use libstlink.Stlink.{
  FlashType, c0, f0_f1_f3, f1_xl, f2_f4, f7, g0, g4, h7, l0_l1, l4, l5_u5, wb_wl, wb0, h5, c5,
  Stlink, M, pure, get, ◌>>=◌, ◌>>◌,
}
use libstlink.Stlink.ReadWrite.{stlink_read_debug32}
use libstlink.Flash.Control.{get_stm32l0_flash_base, of_bank, has_dual_bank}

unfoldable pub read_sr_reg : Stlink → ℕ → FlashType → Option ℕ
unfolding get_stm32l0_flash_base
read_sr_reg sl bank c0 = some C0.sr
read_sr_reg sl bank f0_f1_f3 = some (of_bank bank Fpec.sr Fpec.sr2)
read_sr_reg sl bank f1_xl = some (of_bank bank Fpec.sr Fpec.sr2)
read_sr_reg sl bank f2_f4 = some F4.sr
read_sr_reg sl bank f7 = some F7.sr
read_sr_reg sl bank g0 = some Gx.sr
read_sr_reg sl bank g4 = some Gx.sr
read_sr_reg sl bank h7 = some (of_bank bank H7.sr1 H7.sr2)
read_sr_reg sl bank l0_l1 = some (get_stm32l0_flash_base sl + Fpec.sr_off)
read_sr_reg sl bank l4 = some L4.sr
read_sr_reg sl bank l5_u5 = some L5.nssr
read_sr_reg sl bank h5 = some H5.nssr
read_sr_reg sl bank wb_wl = some Wb.sr
read_sr_reg sl bank wb0 = some Wb0.irqraw
read_sr_reg sl bank c5 = some C5.sr
read_sr_reg sl bank _ = none

unfoldable pub read_sr_at : Option ℕ → M ℕ
unfolding stlink_read_debug32
read_sr_at none = pure uint32_max
read_sr_at (some sr_reg) = do (ret, res) ← stlink_read_debug32 sr_reg; pure res

-- (-1) as uint32_t where the flash type is unknown.
unfoldable pub read_flash_sr : ℕ → M ℕ
unfolding read_sr_reg read_sr_at
read_flash_sr bank = do sl ← get; read_sr_at (read_sr_reg sl bank sl.flash_type)

-- The position of the busy bit, for the types that have one.
unfoldable pub sr_busy_shift : FlashType → Option ℕ
sr_busy_shift c0 = some C0.sr_bsy
sr_busy_shift f0_f1_f3 = some Fpec.sr_bsy
sr_busy_shift f1_xl = some Fpec.sr_bsy
sr_busy_shift l0_l1 = some Fpec.sr_bsy
sr_busy_shift f2_f4 = some F4.sr_bsy
sr_busy_shift f7 = some F7.sr_bsy
sr_busy_shift g0 = some Gx.sr_bsy
sr_busy_shift g4 = some Gx.sr_bsy
sr_busy_shift h7 = some H7.sr_qw
sr_busy_shift l4 = some L4.sr_bsy
sr_busy_shift l5_u5 = some L5.nssr_bsy
sr_busy_shift h5 = some H5.nssr_bsy
sr_busy_shift wb_wl = some Wb.sr_bsy
sr_busy_shift _ = none

abbrev is_f1_xl : FlashType → Bool
is_f1_xl f1_xl = true
is_f1_xl _ = false

abbrev is_h7 : FlashType → Bool
is_h7 h7 = true
is_h7 _ = false

-- The types whose two banks are erased and polled together.
abbrev pub polls_bank_2 : Stlink → Bool
polls_bank_2 sl = is_f1_xl sl.flash_type || is_h7 sl.flash_type && has_dual_bank sl

unfoldable pub busy_by_shift : Option ℕ → M ℕ
unfolding read_flash_sr
busy_by_shift none = pure uint32_max
busy_by_shift (some shift) = do
  sr ← read_flash_sr bank_1
  sl ← get
  if polls_bank_2 sl
      then (do
        sr2 ← read_flash_sr bank_2
        pure (bit_or (bit_and sr (2 ^ shift)) (bit_and sr2 (2 ^ shift))))
      else pure (bit_and sr (2 ^ shift))

-- !has_errors && ((~res) & CMDDONE), as 0 or 1.
wb0_busy : ℕ → ℕ
wb0_busy res =
    if not (is_set (bit_and res Wb0.irq_err_mask)) && is_set (bit_and (not32 res) Wb0.irq_cmddone)
    then 1
    else 0

unfoldable pub busy_of : FlashType → M ℕ
unfolding busy_by_shift sr_busy_shift wb0_busy read_flash_sr
busy_of c5 = do
  sr ← read_flash_sr bank_1
  pure (bit_and sr (bit_or (bit_or (2 ^ C5.sr_bsy) (2 ^ C5.sr_wbne)) (2 ^ C5.sr_dbne)))
busy_of wb0 = do res ← read_flash_sr bank_1; pure (wb0_busy res)
busy_of t = busy_by_shift (sr_busy_shift t)

unfoldable pub is_flash_busy : M ℕ
unfolding busy_of
is_flash_busy = do sl ← get; busy_of sl.flash_type

-- while(is_flash_busy(sl)); with a bound on the polls.
unfoldable pub wait_flash_busy : ℕ → M (Unit {0})
wait_flash_busy zero = λ sl. none
wait_flash_busy (suc fuel) = do
  busy ← is_flash_busy
  elim (is_set busy) [ true ↦ wait_flash_busy fuel | false ↦ pure tt ]

-- The status words of one or two banks, under a mask.
unfoldable pub error_sr_dual : Stlink → ℕ → M ℕ
unfolding read_flash_sr
error_sr_dual sl mask = do
  sr ← read_flash_sr bank_1
  if has_dual_bank sl
      then (do sr2 ← read_flash_sr bank_2; pure (bit_or (bit_and sr mask) (bit_and sr2 mask)))
      else pure (bit_and sr mask)

-- The status word under its error mask.
unfoldable pub error_sr : Stlink → FlashType → M ℕ
unfolding read_flash_sr get_stm32l0_flash_base error_sr_dual
error_sr sl c0 = do sr ← read_flash_sr bank_1; pure (bit_and sr C0.sr_error_mask)
error_sr sl f0_f1_f3 = do sr ← read_flash_sr bank_1; pure (bit_and sr Fpec.sr_error_mask)
error_sr sl f1_xl = do
  sr ← read_flash_sr bank_1
  sr2 ← read_flash_sr bank_2
  pure (bit_or (bit_and sr Fpec.sr_error_mask) (bit_and sr2 Fpec.sr_error_mask))
error_sr sl f2_f4 = do sr ← read_flash_sr bank_1; pure (bit_and sr F4.sr_error_mask)
error_sr sl f7 = do sr ← read_flash_sr bank_1; pure (bit_and sr F7.sr_error_mask)
error_sr sl g0 = error_sr_dual sl Gx.sr_error_mask
error_sr sl g4 = error_sr_dual sl Gx.sr_error_mask
error_sr sl h7 = error_sr_dual sl H7.sr_error_mask
error_sr sl l0_l1 = do
  sr ← read_flash_sr bank_1
  pure (
      bit_and sr (
        if get_stm32l0_flash_base sl == Lx.regs_addr
        then L0.l1_sr_error_mask
        else L0.sr_error_mask))
error_sr sl l4 = do sr ← read_flash_sr bank_1; pure (bit_and sr L4.sr_error_mask)
error_sr sl l5_u5 = do sr ← read_flash_sr bank_1; pure (bit_and sr L5.nssr_error_mask)
error_sr sl h5 = do sr ← read_flash_sr bank_1; pure (bit_and sr H5.nssr_error_mask)
error_sr sl wb_wl = do sr ← read_flash_sr bank_1; pure (bit_and sr Wb.sr_error_mask)
error_sr sl c5 = do sr ← read_flash_sr bank_1; pure (bit_and sr C5.sr_error_mask)
error_sr sl wb0 = do sr ← read_flash_sr bank_1; pure (bit_and sr Wb0.irq_err_mask)
error_sr sl _ = pure 0

-- The rest of the function takes the flag that is reported out of the word, for the log alone: the
-- result is -1 for every word that is not 0.
unfoldable pub check_flash_error : M ℤ
unfolding error_sr
check_flash_error = do
  sl ← get
  res ← error_sr sl sl.flash_type
  pure (if is_set res then failure else success)
