-- ===== src/Flash/OptionLock/Opens.antt =====
-- common_flash.c: `unlock_flash_option_if` opens the lock of the option bytes.
use libstlink.Prelude.{◌≡◌, ◌⊎◌, inl, inr, refl, ◌∙◌, ap, true, some, ◌∷◌, success, arith}
use libstlink.Stlink.{FlashType, c0, Stlink, History, read_debug32, write_debug32, bind_run}
use libstlink.Flash.OptionLock.{
  OptLock, opt_lock_regs, option_locked_with, is_flash_option_locked, OptKeys, opt_keys,
  write_opt_keys, unlock_flash_option, unlock_flash_option_if,
}
use libstlink.Flash.LockState.{shut, opened, Controller, lock_state, is_locked, Obeys}

-- The lock of the option bytes, which opens and closes as that of the flash does.
abbrev pub option_controller : OptLock → OptKeys → Controller
option_controller lock keys = record {
  cr_reg = lock.optcr_reg;
  lock_shift = lock.optlock_shift;
  key_reg = keys.optkey_reg;
  key1 = keys.optkey1;
  key2 = keys.optkey2;
}

-- The registers do not depend on the calls made.
opt_lock_regs_history :
    (sl : Stlink) (t : FlashType) (h : History)
    → opt_lock_regs (record sl { history = h }) t ≡ opt_lock_regs sl t
unfolding opt_lock_regs
opt_lock_regs_history sl c0 h = refl
opt_lock_regs_history sl _ h = refl

opt_keys_history :
    (sl : Stlink) (t : FlashType) (h : History)
    → opt_keys (record sl { history = h }) t ≡ opt_keys sl t
unfolding opt_keys
opt_keys_history sl c0 h = refl
opt_keys_history sl _ h = refl

-- A poll of the lock reads its state.
is_flash_option_locked-Obeys :
    (sl : Stlink) (lock : OptLock) (keys : OptKeys)
    → opt_lock_regs sl sl.flash_type ≡ some lock
    → lock.active_high ≡ true
    → Obeys (option_controller lock keys) sl.backend
    → is_flash_option_locked sl
      ≡ some (
        is_locked (lock_state (option_controller lock keys) sl.history),
        record sl { history = read_debug32 lock.optcr_reg ∷ sl.history },
      )
unfolding is_flash_option_locked option_locked_with
is_flash_option_locked-Obeys sl lock keys at_lock high obeys =
    ap (λ l. option_locked_with l sl) at_lock ∙ rw (option_locked_with, high, obeys sl.history) refl

unlock_flash_option_opens :
    (sl : Stlink) (lock : OptLock) (keys : OptKeys)
    → opt_keys sl sl.flash_type ≡ some keys
    → lock_state (option_controller lock keys) sl.history ≡ shut
    → (h : History) × (unlock_flash_option sl ≡ some (success, record sl { history = h }))
      × (lock_state (option_controller lock keys) h ≡ opened)
unfolding unlock_flash_option write_opt_keys
unlock_flash_option_opens sl lock keys at_keys shut_now = (
  write_debug32 keys.optkey_reg keys.optkey2
      ∷ write_debug32 keys.optkey_reg keys.optkey1
      ∷ sl.history,
  ap (λ k. write_opt_keys k sl) at_keys,
  ground arith,
)

-- On every flash type whose option bytes have a lock bit, a controller that obeys its option keys and
-- whose option lock is shut or open is open after `unlock_flash_option_if`, and the result is 0.
pub unlock_flash_option_if_opens :
    (sl : Stlink) (lock : OptLock) (keys : OptKeys)
    → opt_lock_regs sl sl.flash_type ≡ some lock
    → lock.active_high ≡ true
    → opt_keys sl sl.flash_type ≡ some keys
    → Obeys (option_controller lock keys) sl.backend
    → (lock_state (option_controller lock keys) sl.history ≡ shut)
      ⊎ (lock_state (option_controller lock keys) sl.history ≡ opened)
    → (h : History) × (unlock_flash_option_if sl ≡ some (success, record sl { history = h }))
      × (lock_state (option_controller lock keys) h ≡ opened)
unfolding unlock_flash_option_if
unlock_flash_option_if_opens sl lock keys at_lock high at_keys obeys (inr open_now) = (
  read_debug32 lock.optcr_reg ∷ sl.history,
  bind_run is_flash_option_locked (is_flash_option_locked-Obeys sl lock keys at_lock high obeys) _
      ∙ rw open_now refl,
  open_now,
)
unlock_flash_option_if_opens sl lock keys at_lock high at_keys obeys (inl shut_now) =
    let h₁ = read_debug32 lock.optcr_reg ∷ sl.history in
    let (h, opens, open_now) =
      unlock_flash_option_opens (record sl { history = h₁ }) lock keys
        (opt_keys_history sl sl.flash_type h₁ ∙ at_keys) shut_now in
    let still =
      is_flash_option_locked-Obeys (record sl { history = h }) lock keys
        (opt_lock_regs_history sl sl.flash_type h ∙ at_lock) high obeys in
    (
      read_debug32 lock.optcr_reg ∷ h,
      bind_run is_flash_option_locked (is_flash_option_locked-Obeys sl lock keys at_lock high obeys)
            _
          ∙ rw shut_now (
              bind_run unlock_flash_option opens _
              ∙ bind_run is_flash_option_locked still _
              ∙ rw open_now refl),
      open_now,
    )
