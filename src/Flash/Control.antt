-- ===== src/Flash/Control.antt =====
-- common_flash.c: the base of the L0 and L1 registers, `read_flash_cr`, `lock_flash`,
-- `write_flash_sr` and `clear_flash_error`. A ladder of tests on `flash_type` is a function by
-- clauses on it; its last `else` is the last clause.
use libstlink.Prelude.{
  ℕ, ◌+◌, ◌^◌, Bool, ◌||◌, Option, none, some, ℤ, failure, bit_and, bit_or, ◌==◌, if◌then◌else◌,
}
use libstlink.Word.{not32, is_set, uint32_max}
use libstlink.Calculate.{bank_1, bank_2}
use libstlink.Registers.C0
use libstlink.Registers.C5
use libstlink.Registers.Chip
use libstlink.Registers.F4
use libstlink.Registers.F7
use libstlink.Registers.Fpec
use libstlink.Registers.Gx
use libstlink.Registers.H5
use libstlink.Registers.H7
use libstlink.Registers.L0
use libstlink.Registers.L4
use libstlink.Registers.L5
use libstlink.Registers.Lx
use libstlink.Registers.Memory
use libstlink.Registers.Wb
use libstlink.Registers.Wb0
use libstlink.Stlink.{
  FlashType, c0, f0_f1_f3, f1_xl, f2_f4, f7, g0, g4, h7, l0_l1, l4, l5_u5, wb_wl, wb0, h5, c5,
  Stlink, M, pure, get, ◌>>=◌, ◌>>◌,
}
use libstlink.Stlink.ReadWrite.{stlink_read_debug32, stlink_write_debug32}

is_l1 : ℕ → Bool
is_l1 chip_id =
    chip_id == Chip.l1_cat2
    || chip_id == Chip.l1_md
    || chip_id == Chip.l1_md_plus
    || chip_id == Chip.l1_md_plus_hd
    || chip_id == Chip.l152_re

-- The cases of the L0 and `default` give the same address.
unfoldable pub get_stm32l0_flash_base : Stlink → ℕ
unfolding is_l1
get_stm32l0_flash_base sl = if is_l1 sl.chip_id then Lx.regs_addr else L0.regs_addr

-- (bank == BANK_1) ? r₁ : r₂
abbrev pub of_bank : ℕ → ℕ → ℕ → ℕ
of_bank bank r₁ r₂ = if bank == bank_1 then r₁ else r₂

-- sl->chip_flags & CHIP_F_HAS_DUAL_BANK
abbrev pub has_dual_bank : Stlink → Bool
has_dual_bank sl = is_set (bit_and sl.chip_flags Memory.chip_has_dual_bank)

unfoldable pub flash_cr_reg : FlashType → ℕ → ℕ
flash_cr_reg c0 bank = C0.cr
flash_cr_reg f2_f4 bank = F4.cr
flash_cr_reg f7 bank = F7.cr
flash_cr_reg g0 bank = Gx.cr
flash_cr_reg g4 bank = Gx.cr
flash_cr_reg h7 bank = of_bank bank H7.cr1 H7.cr2
flash_cr_reg l4 bank = L4.cr
flash_cr_reg l5_u5 bank = L5.nscr
flash_cr_reg h5 bank = H5.nscr
flash_cr_reg wb_wl bank = Wb.cr
flash_cr_reg c5 bank = C5.cr
flash_cr_reg _ bank = of_bank bank Fpec.cr Fpec.cr2

unfoldable pub read_flash_cr : ℕ → M ℕ
unfolding flash_cr_reg stlink_read_debug32
read_flash_cr bank = do
  sl ← get
  (ret, res) ← stlink_read_debug32 (flash_cr_reg sl.flash_type bank)
  pure res

-- The registers that `lock_flash` writes; `cr2_reg` is 0 where there is one control register.
pub record LockRegs : Type 0 where
  pub cr_reg : ℕ
  pub cr2_reg : ℕ
  pub cr_lock_shift : ℕ
  pub cr_mask : ℕ

abbrev lock_in : ℕ → ℕ → Option LockRegs
lock_in cr_reg cr_lock_shift =
    some
      (record { cr_reg = cr_reg; cr2_reg = 0; cr_lock_shift = cr_lock_shift; cr_mask = uint32_max })

unfoldable pub lock_regs : Stlink → FlashType → Option LockRegs
unfolding get_stm32l0_flash_base
lock_regs sl c0 = lock_in C0.cr C0.cr_lock
lock_regs sl f0_f1_f3 = lock_in Fpec.cr Fpec.cr_lock
lock_regs sl f1_xl = some (record {
  cr_reg = Fpec.cr;
  cr2_reg = Fpec.cr2;
  cr_lock_shift = Fpec.cr_lock;
  cr_mask = uint32_max;
})
lock_regs sl f2_f4 = lock_in F4.cr F4.cr_lock
lock_regs sl f7 = lock_in F7.cr F7.cr_lock
lock_regs sl g0 = lock_in Gx.cr Gx.cr_lock
lock_regs sl g4 = lock_in Gx.cr Gx.cr_lock
lock_regs sl h7 = some (record {
  cr_reg = H7.cr1;
  cr2_reg = if has_dual_bank sl then H7.cr2 else 0;
  cr_lock_shift = H7.cr_lock;
  cr_mask = not32 (2 ^ H7.cr_ser);
})
lock_regs sl l0_l1 = lock_in (get_stm32l0_flash_base sl + Fpec.pecr_off) L0.pelock
lock_regs sl l4 = lock_in L4.cr L4.cr_lock
lock_regs sl l5_u5 = lock_in L5.nscr L5.nscr_nslock
lock_regs sl h5 = lock_in H5.nscr H5.nscr_lock
lock_regs sl wb_wl = lock_in Wb.cr Wb.cr_lock
lock_regs sl c5 = lock_in C5.cr C5.cr_lock
lock_regs sl _ = none

unfoldable pub lock_second : LockRegs → M (Unit {0})
unfolding read_flash_cr stlink_write_debug32
lock_second regs =
    if is_set regs.cr2_reg
    then (do
      n ← read_flash_cr bank_2
      stlink_write_debug32 regs.cr2_reg (bit_or n (2 ^ regs.cr_lock_shift))
      pure tt)
    else pure tt

unfoldable pub lock_with : Option LockRegs → M (Unit {0})
unfolding lock_second stlink_read_debug32 stlink_write_debug32
lock_with none = pure tt
lock_with (some regs) = do
  (ret, n) ← stlink_read_debug32 regs.cr_reg
  stlink_write_debug32 regs.cr_reg (bit_or (bit_and n regs.cr_mask) (2 ^ regs.cr_lock_shift))
  lock_second regs

unfoldable pub lock_flash : M (Unit {0})
unfolding lock_regs lock_with
lock_flash = do sl ← get; lock_with (lock_regs sl sl.flash_type)

unfoldable pub write_sr_reg : Stlink → ℕ → FlashType → Option ℕ
unfolding get_stm32l0_flash_base
write_sr_reg sl bank c0 = some C0.sr
write_sr_reg sl bank f0_f1_f3 = some (of_bank bank Fpec.sr Fpec.sr2)
write_sr_reg sl bank f1_xl = some (of_bank bank Fpec.sr Fpec.sr2)
write_sr_reg sl bank f2_f4 = some F4.sr
write_sr_reg sl bank f7 = some F7.sr
write_sr_reg sl bank g0 = some Gx.sr
write_sr_reg sl bank g4 = some Gx.sr
write_sr_reg sl bank h7 = some (of_bank bank H7.sr1 H7.sr2)
write_sr_reg sl bank l0_l1 = some (get_stm32l0_flash_base sl + Fpec.sr_off)
write_sr_reg sl bank l4 = some L4.sr
write_sr_reg sl bank l5_u5 = some L5.nssr
write_sr_reg sl bank h5 = some H5.nssr
write_sr_reg sl bank wb_wl = some Wb.sr
write_sr_reg sl bank wb0 = some Wb0.irqraw
write_sr_reg sl bank c5 = some C5.ccr
write_sr_reg sl bank _ = none

write_reg_or_fail : Option ℕ → ℕ → M ℤ
unfolding stlink_write_debug32
write_reg_or_fail none val = pure failure
write_reg_or_fail (some sr_reg) val = stlink_write_debug32 sr_reg val

unfoldable pub write_flash_sr : ℕ → ℕ → M ℤ
unfolding write_sr_reg write_reg_or_fail
write_flash_sr bank val = do sl ← get; write_reg_or_fail (write_sr_reg sl bank sl.flash_type) val

clear_error_of : Stlink → FlashType → M (Unit {0})
unfolding write_flash_sr stlink_write_debug32 get_stm32l0_flash_base
clear_error_of sl c0 = do write_flash_sr bank_1 C0.sr_error_mask; pure tt
clear_error_of sl f0_f1_f3 = do write_flash_sr bank_1 Fpec.sr_error_mask; pure tt
clear_error_of sl f2_f4 = do write_flash_sr bank_1 F4.sr_error_mask; pure tt
clear_error_of sl f7 = do write_flash_sr bank_1 F7.sr_error_mask; pure tt
clear_error_of sl g0 = do write_flash_sr bank_1 Gx.sr_error_mask; pure tt
clear_error_of sl g4 = do write_flash_sr bank_1 Gx.sr_error_mask; pure tt
clear_error_of sl h7 =
    if has_dual_bank sl
    then (do
      write_flash_sr bank_1 H7.sr_error_mask
      write_flash_sr bank_2 H7.sr_error_mask
      pure tt)
    else (do write_flash_sr bank_1 H7.sr_error_mask; pure tt)
clear_error_of sl l0_l1 =
    if get_stm32l0_flash_base sl == Lx.regs_addr
    then (do write_flash_sr bank_1 L0.l1_sr_error_mask; pure tt)
    else (do write_flash_sr bank_1 L0.sr_error_mask; pure tt)
clear_error_of sl l4 = do write_flash_sr bank_1 L4.sr_error_mask; pure tt
clear_error_of sl l5_u5 = do write_flash_sr bank_1 L5.nssr_error_mask; pure tt
clear_error_of sl h5 = do stlink_write_debug32 H5.nsccr H5.nsccr_clear_all; pure tt
clear_error_of sl wb_wl = do write_flash_sr bank_1 Wb.sr_error_mask; pure tt
clear_error_of sl wb0 = do write_flash_sr bank_1 Wb0.irq_err_mask; pure tt
clear_error_of sl c5 = do write_flash_sr bank_1 C5.sr_error_mask; pure tt
clear_error_of sl _ = pure tt

unfoldable pub clear_flash_error : M (Unit {0})
unfolding clear_error_of
clear_flash_error = do sl ← get; clear_error_of sl sl.flash_type
