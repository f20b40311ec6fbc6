-- ===== src/Flash/Unlock/Closes.antt =====
-- common_flash.c: `lock_flash` closes the lock that `unlock_flash_if` opens.
use libstlink.Prelude.{
  ℕ, ◌^◌, ◌≡◌, ◌≢◌, inl, inr, refl, ap, ◌∙◌, some, ◌∷◌, bit_and, bit_or, arith, Bool-cases,
}
use libstlink.Word.{is_set}
use libstlink.Word.Bits.{set_bit_is_set}
use libstlink.Calculate.{bank_2}
use libstlink.Stlink.{FlashType, unknown, wb0, Stlink, History, read_debug32, write_debug32}
use libstlink.Flash.Control.{
  flash_cr_reg, read_flash_cr, LockRegs, lock_regs, lock_second, lock_with, lock_flash,
}
use libstlink.Flash.Unlock.{at, lock_bit, Keys, flash_keys}
use libstlink.Flash.Unlock.Opens.{controller}
use libstlink.Flash.LockState.{opened, shut, lock_state}

-- The registers that are written to lock a controller are those of the controller and of its second
-- bank.
record Locks (cr_reg shift : ℕ) (keys : Keys) (regs : LockRegs) : Type 0 where
  same_reg : regs.cr_reg ≡ cr_reg
  same_shift : regs.cr_lock_shift ≡ shift
  cr_ne_key : cr_reg ≢ keys.key_reg
  cr2_ne_cr : regs.cr2_reg ≢ cr_reg
  cr2_ne_key : regs.cr2_reg ≢ keys.key_reg

lock_regs-Locks :
    (sl : Stlink) (t : FlashType) {cr_reg shift : ℕ} {keys : Keys}
    → lock_bit sl t ≡ at cr_reg shift
    → flash_keys sl t ≡ some keys
    → (regs : LockRegs) × (lock_regs sl t ≡ some regs) × Locks cr_reg shift keys regs
unfolding lock_bit flash_keys lock_regs
lock_regs-Locks sl unknown e f = cc e
lock_regs-Locks sl wb0 e f = cc e
lock_regs-Locks sl _ e f = (_, refl, ground arith)

module _ (sl : Stlink) (cr_reg shift : ℕ) (keys : Keys) (regs : LockRegs)
    (locks : Locks cr_reg shift keys regs) where
  -- The second bank leaves the lock of the first as it is.
  lock_second_keeps :
      (h : History) × (lock_second regs sl ≡ some (tt, record sl { history = h }))
      × (lock_state (controller cr_reg shift keys) h
          ≡ lock_state (controller cr_reg shift keys) sl.history)
  unfolding lock_second read_flash_cr
  lock_second_keeps = elim (Bool-cases (is_set regs.cr2_reg)) [
    | inl two ↦
        let cr = flash_cr_reg sl.flash_type bank_2 in
        let n = (sl.backend.read_debug32 sl.history cr).1 in
        (
          write_debug32 regs.cr2_reg (bit_or n (2 ^ regs.cr_lock_shift))
              ∷ read_debug32 cr
              ∷ sl.history,
          rw two refl,
          ground (arith, locks),
        )
    | inr one ↦ (sl.history, rw one refl, refl)
  ]

lock_with_closes :
    (sl : Stlink) (cr_reg shift : ℕ) (keys : Keys) (regs : LockRegs)
    → Locks cr_reg shift keys regs
    → lock_state (controller cr_reg shift keys) sl.history ≡ opened
    → (h : History) × (lock_with (some regs) sl ≡ some (tt, record sl { history = h }))
      × (lock_state (controller cr_reg shift keys) h ≡ shut)
unfolding lock_with
lock_with_closes sl cr_reg shift keys regs locks open_now =
    let n = bit_and (sl.backend.read_debug32 sl.history regs.cr_reg).1 regs.cr_mask in
    let wrote = write_debug32 regs.cr_reg (bit_or n (2 ^ regs.cr_lock_shift)) in
    let h' = wrote ∷ read_debug32 regs.cr_reg ∷ sl.history in
    let shut_now : lock_state (controller cr_reg shift keys) h' ≡ shut =
      ground (arith, locks, set_bit_is_set regs.cr_lock_shift n) in
    let (h, ran, kept) =
      lock_second_keeps (record sl { history = h' }) cr_reg shift keys regs locks in
    (h, ran, kept ∙ shut_now)

-- On every flash type with a lock, `lock_flash` closes the lock of an open controller: after the write
-- of the lock bit, and of that of a second bank, the controller is shut, and not dead.
pub lock_flash_closes :
    (sl : Stlink) (cr_reg shift : ℕ) (keys : Keys)
    → lock_bit sl sl.flash_type ≡ at cr_reg shift
    → flash_keys sl sl.flash_type ≡ some keys
    → lock_state (controller cr_reg shift keys) sl.history ≡ opened
    → (h : History) × (lock_flash sl ≡ some (tt, record sl { history = h }))
      × (lock_state (controller cr_reg shift keys) h ≡ shut)
unfolding lock_flash
lock_flash_closes sl cr_reg shift keys bit_at keys_at open_now =
    let (regs, found, locks) = lock_regs-Locks sl sl.flash_type bit_at keys_at in
    let (h, ran, shut_now) = lock_with_closes sl cr_reg shift keys regs locks open_now in
    (h, ap (λ r. lock_with r sl) found ∙ ran, shut_now)
