-- ===== src/Flash/OptionLock.antt =====
-- common_flash.c: the lock of the option bytes.
pub mod Opens
pub mod Closes
use libstlink.Prelude.{
  ℕ, ◌+◌, ◌^◌, Bool, true, false, not, Option, none, some, ℤ, success, failure, is_nonzero, bit_and,
  bit_or, if◌then◌else◌,
}
use libstlink.Word.{clear, is_set}
use libstlink.Registers.C0
use libstlink.Registers.F4
use libstlink.Registers.F7
use libstlink.Registers.Fpec
use libstlink.Registers.Gx
use libstlink.Registers.H7
use libstlink.Registers.L0
use libstlink.Registers.L4
use libstlink.Registers.L5
use libstlink.Registers.Wb
use libstlink.Stlink.{
  FlashType, c0, f0_f1_f3, f1_xl, f2_f4, f7, g0, g4, h7, l0_l1, l4, l5_u5, wb_wl, Stlink, M, pure,
  get, ◌>>=◌, ◌>>◌,
}
use libstlink.Stlink.ReadWrite.{stlink_read_debug32, stlink_write_debug32}
use libstlink.Flash.Control.{get_stm32l0_flash_base, has_dual_bank}

-- The register and the bit of the lock; `active_high` is false where the bit is a write enable.
-- `optcr2_reg` is 0 where there is one register.
pub record OptLock : Type 0 where
  pub optcr_reg : ℕ
  pub optlock_shift : ℕ
  pub active_high : Bool
  pub optcr2_reg : ℕ

abbrev opt_lock : ℕ → ℕ → Option OptLock
opt_lock reg shift =
    some (record { optcr_reg = reg; optlock_shift = shift; active_high = true; optcr2_reg = 0 })

abbrev fpec_opt_lock : Option OptLock
fpec_opt_lock = some (record {
  optcr_reg = Fpec.cr;
  optlock_shift = Fpec.cr_optwre;
  active_high = false;
  optcr2_reg = 0;
})

-- The switch of `lock_flash_option`, and of `is_flash_option_locked` but for the second register.
unfoldable pub opt_lock_regs : Stlink → FlashType → Option OptLock
unfolding get_stm32l0_flash_base
opt_lock_regs sl c0 = opt_lock C0.cr C0.cr_optlock
opt_lock_regs sl f0_f1_f3 = fpec_opt_lock
opt_lock_regs sl f1_xl = fpec_opt_lock
opt_lock_regs sl f2_f4 = opt_lock F4.optcr F4.optcr_lock
opt_lock_regs sl f7 = opt_lock F7.optcr F7.optcr_lock
opt_lock_regs sl g0 = opt_lock Gx.cr Gx.cr_optlock
opt_lock_regs sl g4 = opt_lock Gx.cr Gx.cr_optlock
opt_lock_regs sl h7 = some (record {
  optcr_reg = H7.optcr;
  optlock_shift = H7.optcr_optlock;
  active_high = true;
  optcr2_reg = if has_dual_bank sl then H7.optcr2 else 0;
})
opt_lock_regs sl l0_l1 = opt_lock (get_stm32l0_flash_base sl + Fpec.pecr_off) L0.optlock
opt_lock_regs sl l4 = opt_lock L4.cr L4.cr_optlock
opt_lock_regs sl l5_u5 = opt_lock L5.nscr L5.nscr_optlock
opt_lock_regs sl wb_wl = opt_lock Wb.cr Wb.cr_optlock
opt_lock_regs sl _ = none

-- The value with the lock put on.
unfoldable pub locked_value : OptLock → ℕ → ℕ
locked_value lock n =
    if lock.active_high then bit_or n (2 ^ lock.optlock_shift) else clear n (2 ^ lock.optlock_shift)

unfoldable pub lock_option_second : OptLock → M ℤ
unfolding locked_value stlink_read_debug32 stlink_write_debug32
lock_option_second lock =
    if is_set lock.optcr2_reg
    then (do
      (ret, n) ← stlink_read_debug32 lock.optcr2_reg
      stlink_write_debug32 lock.optcr2_reg (locked_value lock n)
      pure success)
    else pure success

unfoldable pub lock_option_with : Option OptLock → M ℤ
unfolding lock_option_second
lock_option_with none = pure failure
lock_option_with (some lock) = do
  (ret, n) ← stlink_read_debug32 lock.optcr_reg
  stlink_write_debug32 lock.optcr_reg (locked_value lock n)
  lock_option_second lock

unfoldable pub lock_flash_option : M ℤ
unfolding opt_lock_regs lock_option_with
lock_flash_option = do sl ← get; lock_option_with (opt_lock_regs sl sl.flash_type)

-- A bool: `return -1` for an unsupported type is true.
unfoldable pub option_locked_with : Option OptLock → M Bool
unfolding stlink_read_debug32
option_locked_with none = pure true
option_locked_with (some lock) = do
  (ret, n) ← stlink_read_debug32 lock.optcr_reg
  let on = is_set (bit_and n (2 ^ lock.optlock_shift))
  pure (if lock.active_high then on else not on)

unfoldable pub is_flash_option_locked : M Bool
is_flash_option_locked = do sl ← get; option_locked_with (opt_lock_regs sl sl.flash_type)

pub record OptKeys : Type 0 where
  pub optkey_reg : ℕ
  pub optkey1 : ℕ
  pub optkey2 : ℕ

abbrev opt_keys_at : ℕ → Option OptKeys
opt_keys_at reg = some (record { optkey_reg = reg; optkey1 = Fpec.optkey1; optkey2 = Fpec.optkey2 })

abbrev fpec_opt_keys : Option OptKeys
fpec_opt_keys =
    some
      (record { optkey_reg = Fpec.optkeyr; optkey1 = Fpec.f0_optkey1; optkey2 = Fpec.f0_optkey2 })

-- `optkey2_reg` of the source stays 0 on every path, and is left out.
unfoldable pub opt_keys : Stlink → FlashType → Option OptKeys
unfolding get_stm32l0_flash_base
opt_keys sl c0 = opt_keys_at C0.opt_keyr
opt_keys sl f0_f1_f3 = fpec_opt_keys
opt_keys sl f1_xl = fpec_opt_keys
opt_keys sl f2_f4 = opt_keys_at F4.opt_keyr
opt_keys sl f7 = opt_keys_at F7.opt_keyr
opt_keys sl g0 = opt_keys_at Gx.optkeyr
opt_keys sl g4 = opt_keys_at Gx.optkeyr
opt_keys sl h7 = opt_keys_at H7.opt_keyr
opt_keys sl l0_l1 = some (record {
  optkey_reg = get_stm32l0_flash_base sl + Fpec.optkeyr_off;
  optkey1 = L0.optkey1;
  optkey2 = L0.optkey2;
})
opt_keys sl l4 = opt_keys_at L4.optkeyr
opt_keys sl l5_u5 = opt_keys_at L5.optkeyr
opt_keys sl wb_wl = opt_keys_at Wb.opt_keyr
opt_keys sl _ = none

unfoldable pub write_opt_keys : Option OptKeys → M ℤ
unfolding stlink_write_debug32
write_opt_keys none = pure failure
write_opt_keys (some keys) = do
  stlink_write_debug32 keys.optkey_reg keys.optkey1
  stlink_write_debug32 keys.optkey_reg keys.optkey2
  pure success

unfoldable pub unlock_flash_option : M ℤ
unlock_flash_option = do sl ← get; write_opt_keys (opt_keys sl sl.flash_type)

unfoldable pub unlock_flash_option_if : M ℤ
unlock_flash_option_if = do
  locked ← is_flash_option_locked
  if locked
      then (do
        ret ← unlock_flash_option
        if is_nonzero ret
            then pure failure
            else (do still ← is_flash_option_locked; pure (if still then failure else success)))
      else pure success
