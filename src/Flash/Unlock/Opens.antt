-- ===== src/Flash/Unlock/Opens.antt =====
-- common_flash.c: `unlock_flash_if` opens the lock of a controller, and `lock_flash` closes it.
use libstlink.Prelude.{
  ℕ, ◌^◌, ◌≡◌, ◌≢◌, ◌⊎◌, ◌∙◌, inl, inr, refl, true, some, ◌∷◌, success, bit_and, arith, Bool-cases,
  not, ◌&&◌, is_nonzero, ltb,
}
use libstlink.Registers.Memory
use libstlink.Word.{is_set, clear}
use libstlink.Stlink.{
  FlashType, c0, l5_u5, Stlink, write_debug32, read_debug32, History, bind_run, then_run,
}
use libstlink.Flash.Unlock.{
  at, lock_bit, Keys, flash_keys, read_lock_bit, before_keys, write_keys, is_flash_locked,
  unlock_flash, unlock_flash_if,
}
use libstlink.Flash.LockState.{shut, opened, Controller, lock_state, Obeys}

abbrev pub controller : ℕ → ℕ → Keys → Controller
controller cr_reg lock_shift keys = record {
  cr_reg = cr_reg;
  lock_shift = lock_shift;
  key_reg = keys.key_reg;
  key1 = keys.flash_key1;
  key2 = keys.flash_key2;
}

-- The registers of a controller are apart.
record Apart (cr_reg : ℕ) (keys : Keys) : Type 0 where
  cr_ne_key : cr_reg ≢ keys.key_reg
  key2_apart :
      (is_set keys.key2_reg ≡ true) → (keys.key2_reg ≢ cr_reg) × (keys.key2_reg ≢ keys.key_reg)

keys-Apart :
    (sl : Stlink) (t : FlashType) {cr_reg shift : ℕ} {keys : Keys}
    → lock_bit sl t ≡ at cr_reg shift
    → flash_keys sl t ≡ some keys
    → Apart cr_reg keys
unfolding lock_bit flash_keys
keys-Apart sl c0 e f = ground arith
keys-Apart sl _ e f = ground arith

-- The power register of the L5 and U5 is none of the controller's.
record PwrApart (cr_reg : ℕ) (keys : Keys) : Type 0 where
  cr_apart : cr_reg ≢ Memory.l5_pwr_cr1
  key_apart : keys.key_reg ≢ Memory.l5_pwr_cr1

pwr_apart :
    (sl : Stlink) (t : FlashType) {cr_reg shift : ℕ} {keys : Keys}
    → lock_bit sl t ≡ at cr_reg shift
    → flash_keys sl t ≡ some keys
    → PwrApart cr_reg keys
unfolding lock_bit flash_keys
pwr_apart sl c0 e f = ground arith
pwr_apart sl _ e f = ground arith

module _ (sl : Stlink) (cr_reg shift : ℕ) (keys : Keys) where
  write_keys_opens :
      Apart cr_reg keys
      → lock_state (controller cr_reg shift keys) sl.history ≡ shut
      → (h : History) × (write_keys (some keys) sl ≡ some (tt, record sl { history = h }))
        × (lock_state (controller cr_reg shift keys) h ≡ opened)
  unfolding write_keys
  write_keys_opens apart s = elim (Bool-cases (is_set keys.key2_reg)) [
    | inl two ↦ (
      write_debug32 keys.key2_reg keys.flash_key2
          ∷ write_debug32 keys.key2_reg keys.flash_key1
          ∷ write_debug32 keys.key_reg keys.flash_key2
          ∷ write_debug32 keys.key_reg keys.flash_key1
          ∷ sl.history,
      rw two refl,
      ground (arith, apart.key2_apart two),
    )
    | inr one ↦ (
      write_debug32 keys.key_reg keys.flash_key2
          ∷ write_debug32 keys.key_reg keys.flash_key1
          ∷ sl.history,
      rw one refl,
      ground arith,
    )
  ]

  before_keys_keeps :
      (t : FlashType)
      → PwrApart cr_reg keys
      → (h : History) × (before_keys t sl ≡ some (tt, record sl { history = h }))
        × (lock_state (controller cr_reg shift keys) h
            ≡ lock_state (controller cr_reg shift keys) sl.history)
  unfolding before_keys
  before_keys_keeps l5_u5 apart =
      let r = sl.backend.read_debug32 sl.history Memory.l5_pwr_cr1 in
      elim (Bool-cases (not (is_nonzero r.0) && ltb 512 (bit_and r.1 1536))) [
        | inl slow ↦ (
          write_debug32 Memory.l5_pwr_cr1 (clear r.1 1536)
              ∷ read_debug32 Memory.l5_pwr_cr1
              ∷ sl.history,
          rw slow refl,
          ground arith,
        )
        | inr fast ↦ (read_debug32 Memory.l5_pwr_cr1 ∷ sl.history, rw fast refl, refl)
      ]
  before_keys_keeps _ apart = (sl.history, refl, refl)

-- The registers do not depend on the calls made.
lock_bit_history :
    (sl : Stlink) (t : FlashType) (h : History)
    → lock_bit (record sl { history = h }) t ≡ lock_bit sl t
unfolding lock_bit
lock_bit_history sl c0 h = refl
lock_bit_history sl _ h = refl

flash_keys_history :
    (sl : Stlink) (t : FlashType) (h : History)
    → flash_keys (record sl { history = h }) t ≡ flash_keys sl t
unfolding flash_keys
flash_keys_history sl c0 h = refl
flash_keys_history sl _ h = refl

is_flash_locked_at :
    (sl : Stlink) (cr_reg shift : ℕ)
    → lock_bit sl sl.flash_type ≡ at cr_reg shift
    → is_flash_locked sl
      ≡ some (
        bit_and (sl.backend.read_debug32 sl.history cr_reg).1 (2 ^ shift),
        record sl { history = read_debug32 cr_reg ∷ sl.history },
      )
unfolding is_flash_locked read_lock_bit
is_flash_locked_at sl cr_reg shift e = rw (e, read_lock_bit) refl

unlock_flash_opens :
    (sl : Stlink) (cr_reg shift : ℕ) (keys : Keys)
    → lock_bit sl sl.flash_type ≡ at cr_reg shift
    → flash_keys sl sl.flash_type ≡ some keys
    → lock_state (controller cr_reg shift keys) sl.history ≡ shut
    → (h : History) × (unlock_flash sl ≡ some (tt, record sl { history = h }))
      × (lock_state (controller cr_reg shift keys) h ≡ opened)
unfolding unlock_flash
unlock_flash_opens sl cr_reg shift keys bit_at keys_at shut_now =
    let (h₁, scaled, same) =
      before_keys_keeps sl cr_reg shift keys sl.flash_type
        (pwr_apart sl sl.flash_type bit_at keys_at) in
    let (h₂, wrote, open_now) =
      write_keys_opens (record sl { history = h₁ }) cr_reg shift keys
        (keys-Apart sl sl.flash_type bit_at keys_at) (same ∙ shut_now) in
    (
      h₂,
      then_run (before_keys sl.flash_type) scaled (write_keys (flash_keys sl sl.flash_type))
          ∙ rw keys_at wrote,
      open_now,
    )

-- On every flash type with a lock, a controller that obeys its keys and whose lock is shut or open is
-- open after `unlock_flash_if`, and the result is 0.
pub unlock_flash_if_opens :
    (sl : Stlink) (cr_reg shift : ℕ) (keys : Keys)
    → lock_bit sl sl.flash_type ≡ at cr_reg shift
    → flash_keys sl sl.flash_type ≡ some keys
    → Obeys (controller cr_reg shift keys) sl.backend
    → (lock_state (controller cr_reg shift keys) sl.history ≡ shut)
      ⊎ (lock_state (controller cr_reg shift keys) sl.history ≡ opened)
    → (h : History) × (unlock_flash_if sl ≡ some (success, record sl { history = h }))
      × (lock_state (controller cr_reg shift keys) h ≡ opened)
unfolding unlock_flash_if
unlock_flash_if_opens sl cr_reg shift keys bit_at keys_at obeys (inr open_now) = (
  read_debug32 cr_reg ∷ sl.history,
  bind_run is_flash_locked (is_flash_locked_at sl cr_reg shift bit_at) _
      ∙ rw (obeys sl.history) (rw open_now refl),
  open_now,
)
unlock_flash_if_opens sl cr_reg shift keys bit_at keys_at obeys (inl shut_now) =
    let (h, opens, open_now) = unlock_flash_opens sl' cr_reg shift keys bit' keys' shut_now in
    let still =
      is_flash_locked_at (record sl { history = h }) cr_reg shift
        (lock_bit_history sl sl.flash_type h ∙ bit_at) in
    (
      read_debug32 cr_reg ∷ h,
      bind_run is_flash_locked (is_flash_locked_at sl cr_reg shift bit_at) _
          ∙ rw (obeys sl.history) (
              rw shut_now (
                then_run unlock_flash opens _
                ∙ bind_run is_flash_locked still _
                ∙ rw (obeys h) (rw open_now refl))),
      open_now,
    )
  where
    sl' : Stlink
    sl' = record sl { history = read_debug32 cr_reg ∷ sl.history }

    bit' : lock_bit sl' sl.flash_type ≡ at cr_reg shift
    bit' = lock_bit_history sl sl.flash_type sl'.history ∙ bit_at

    keys' : flash_keys sl' sl.flash_type ≡ some keys
    keys' = flash_keys_history sl sl.flash_type sl'.history ∙ keys_at
