-- ===== src/Tests/Options.antt =====
-- The lock of the option bytes of an F4.
use libstlink.Prelude.{
  ℕ, ◌^◌, ◌≡◌, inl, refl, true, some, [], ◌∷◌, pos, success, bit_and, ◌==◌, if◌then◌else◌,
}
use libstlink.Word.{is_set}
use libstlink.Registers.F4
use libstlink.Registers.Fpec
use libstlink.Stlink.{f2_f4, Stlink, Backend, History, write_debug32}
use libstlink.Flash.OptionLock.{
  OptLock, opt_lock_regs, OptKeys, opt_keys, lock_flash_option, unlock_flash_option_if,
}
use libstlink.Flash.OptionLock.Opens.{option_controller, unlock_flash_option_if_opens}
use libstlink.Flash.OptionLock.Closes.{lock_flash_option_closes}
use libstlink.Flash.LockState.{
  LockState, shut, half, opened, dead, Controller, lock_state, is_locked, Obeys,
}
use libstlink.Tests.Device.{device, board}

abbrev f4_opt_lock : OptLock
f4_opt_lock = record {
  optcr_reg = F4.optcr;
  optlock_shift = F4.optcr_lock;
  active_high = true;
  optcr2_reg = 0;
}

abbrev f4_opt_keys : OptKeys
f4_opt_keys = record { optkey_reg = F4.opt_keyr; optkey1 = Fpec.optkey1; optkey2 = Fpec.optkey2 }

abbrev f4_options : Controller
f4_options = option_controller f4_opt_lock f4_opt_keys

abbrev optcr_of : LockState → ℕ
optcr_of s = if is_locked s then 2 ^ F4.optcr_lock else 0

abbrev option_device : Backend
option_device = record device {
  read_debug32 =
      λ h addr. (pos 0, if addr == F4.optcr then optcr_of (lock_state f4_options h) else 0);
}

abbrev option_board : Stlink
option_board = record board { backend = option_device }

optcr_of-is_set : (s : LockState) → is_set (bit_and (optcr_of s) (2 ^ F4.optcr_lock)) ≡ is_locked s
optcr_of-is_set shut = refl
optcr_of-is_set half = refl
optcr_of-is_set opened = refl
optcr_of-is_set dead = refl

option_device-Obeys : Obeys f4_options option_device
option_device-Obeys h = optcr_of-is_set (lock_state f4_options h)

at_lock : opt_lock_regs option_board f2_f4 ≡ some f4_opt_lock
unfolding opt_lock_regs
at_lock = refl

at_keys : opt_keys option_board f2_f4 ≡ some f4_opt_keys
unfolding opt_keys
at_keys = refl

unlock_flash_option_if_opens_example :
    (h : History) × (unlock_flash_option_if option_board
      ≡ some (success, record option_board { history = h }))
    × (lock_state f4_options h ≡ opened)
unlock_flash_option_if_opens_example =
    unlock_flash_option_if_opens option_board f4_opt_lock f4_opt_keys at_lock refl at_keys
      option_device-Obeys (inl refl)

abbrev unlocked_board : Stlink
unlocked_board = record option_board {
  history = write_debug32 F4.opt_keyr Fpec.optkey2 ∷ write_debug32 F4.opt_keyr Fpec.optkey1 ∷ [];
}

still_at_lock : opt_lock_regs unlocked_board f2_f4 ≡ some f4_opt_lock
unfolding opt_lock_regs
still_at_lock = refl

still_at_keys : opt_keys unlocked_board f2_f4 ≡ some f4_opt_keys
unfolding opt_keys
still_at_keys = refl

lock_flash_option_closes_example :
    (h : History) × (lock_flash_option unlocked_board
      ≡ some (success, record unlocked_board { history = h }))
    × (lock_state f4_options h ≡ shut)
lock_flash_option_closes_example =
    lock_flash_option_closes unlocked_board f4_opt_lock f4_opt_keys still_at_lock refl still_at_keys
      refl
