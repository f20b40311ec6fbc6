-- ===== src/Flash/OptionLock/Closes.antt =====
-- common_flash.c: `lock_flash_option` closes the lock of the option bytes.
use libstlink.Prelude.{
  ◌≡◌, ◌≢◌, inl, inr, refl, ◌∙◌, ap, true, some, ◌∷◌, success, arith, Bool-cases,
}
use libstlink.Word.{is_set}
use libstlink.Word.Bits.{set_bit_is_set}
use libstlink.Stlink.{FlashType, unknown, wb0, h5, c5, Stlink, History, read_debug32, write_debug32}
use libstlink.Flash.OptionLock.{
  OptLock, opt_lock_regs, locked_value, lock_option_second, lock_option_with, lock_flash_option,
  OptKeys, opt_keys,
}
use libstlink.Flash.OptionLock.Opens.{option_controller}
use libstlink.Flash.LockState.{shut, opened, lock_state}

-- The registers that are written to lock the option bytes are apart.
record Locks (lock : OptLock) (keys : OptKeys) : Type 0 where
  cr_ne_key : lock.optcr_reg ≢ keys.optkey_reg
  cr2_ne_cr : lock.optcr2_reg ≢ lock.optcr_reg
  cr2_ne_key : lock.optcr2_reg ≢ keys.optkey_reg

opt_lock_regs-Locks :
    (sl : Stlink) (t : FlashType) {lock : OptLock} {keys : OptKeys}
    → opt_lock_regs sl t ≡ some lock
    → opt_keys sl t ≡ some keys
    → Locks lock keys
unfolding opt_lock_regs opt_keys
opt_lock_regs-Locks sl unknown e f = cc e
opt_lock_regs-Locks sl wb0 e f = cc e
opt_lock_regs-Locks sl h5 e f = cc e
opt_lock_regs-Locks sl c5 e f = cc e
opt_lock_regs-Locks sl _ e f = ground arith

-- The second register leaves the lock as it is.
lock_option_second_keeps :
    (sl : Stlink) (lock : OptLock) (keys : OptKeys)
    → Locks lock keys
    → (h : History) × (lock_option_second lock sl ≡ some (success, record sl { history = h }))
      × (lock_state (option_controller lock keys) h
          ≡ lock_state (option_controller lock keys) sl.history)
unfolding lock_option_second
lock_option_second_keeps sl lock keys locks = elim (Bool-cases (is_set lock.optcr2_reg)) [
  | inl two ↦
      let n = (sl.backend.read_debug32 sl.history lock.optcr2_reg).1 in
      (
        write_debug32 lock.optcr2_reg (locked_value lock n)
            ∷ read_debug32 lock.optcr2_reg
            ∷ sl.history,
        rw two refl,
        ground (arith, locks),
      )
  | inr one ↦ (sl.history, rw one refl, refl)
]

lock_option_with_closes :
    (sl : Stlink) (lock : OptLock) (keys : OptKeys)
    → Locks lock keys
    → lock.active_high ≡ true
    → lock_state (option_controller lock keys) sl.history ≡ opened
    → (h : History) × (lock_option_with (some lock) sl ≡ some (success, record sl { history = h }))
      × (lock_state (option_controller lock keys) h ≡ shut)
unfolding lock_option_with locked_value
lock_option_with_closes sl lock keys locks high open_now =
    let n = (sl.backend.read_debug32 sl.history lock.optcr_reg).1 in
    let h' =
      write_debug32 lock.optcr_reg (locked_value lock n)
      ∷ read_debug32 lock.optcr_reg
      ∷ sl.history in
    let shut_now : lock_state (option_controller lock keys) h' ≡ shut =
      ground (arith, locks, set_bit_is_set lock.optlock_shift n) in
    let (h, ran, kept) = lock_option_second_keeps (record sl { history = h' }) lock keys locks in
    (h, ran, kept ∙ shut_now)

-- On every flash type whose option bytes have a lock bit, `lock_flash_option` gives 0 and closes the
-- lock of the option bytes of an open controller.
pub lock_flash_option_closes :
    (sl : Stlink) (lock : OptLock) (keys : OptKeys)
    → opt_lock_regs sl sl.flash_type ≡ some lock
    → lock.active_high ≡ true
    → opt_keys sl sl.flash_type ≡ some keys
    → lock_state (option_controller lock keys) sl.history ≡ opened
    → (h : History) × (lock_flash_option sl ≡ some (success, record sl { history = h }))
      × (lock_state (option_controller lock keys) h ≡ shut)
unfolding lock_flash_option
lock_flash_option_closes sl lock keys at_lock high at_keys open_now =
    let locks = opt_lock_regs-Locks sl sl.flash_type at_lock at_keys in
    let (h, ran, shut_now) = lock_option_with_closes sl lock keys locks high open_now in
    (h, ap (λ l. lock_option_with l sl) at_lock ∙ ran, shut_now)
