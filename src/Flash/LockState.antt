-- ===== src/Flash/LockState.antt =====
-- What the comments of common_flash.c say of the lock of a flash controller: two keys written to the
-- key register one after the other open it, a write of the lock bit closes it, and an invalid sequence
-- of keys locks it for good. The state follows from the calls of the backend.
use libstlink.Prelude.{ℕ, ◌^◌, ◌≡◌, Bool, true, false, [], ◌∷◌, bit_and, ◌==◌, if◌then◌else◌}
use libstlink.Word.{is_set}
use libstlink.Stlink.{Call, write_debug32, History, Backend}

pub data LockState : Type 0 where
  shut half opened dead : LockState

pub record Controller : Type 0 where
  pub cr_reg : ℕ
  pub lock_shift : ℕ
  pub key_reg : ℕ
  pub key1 : ℕ
  pub key2 : ℕ

abbrev key_step : Controller → ℕ → LockState → LockState
key_step c key shut = if key == c.key1 then half else dead
key_step c key half = if key == c.key2 then opened else dead
key_step c key _ = dead

abbrev close : LockState → LockState
close opened = shut
close s = s

abbrev lock_step : Controller → Call → LockState → LockState
lock_step c (write_debug32 addr val) s =
    if addr == c.key_reg
    then key_step c val s
    else if addr == c.cr_reg
    then (if is_set (bit_and val (2 ^ c.lock_shift)) then close s else s)
    else s
lock_step c _ s = s

-- The state after a reset and the calls made since.
abbrev pub lock_state : Controller → History → LockState
lock_state c [] = shut
lock_state c (call ∷ h) = lock_step c call (lock_state c h)

abbrev pub is_locked : LockState → Bool
is_locked opened = false
is_locked _ = true

-- The lock bit that is read shows the state.
abbrev pub Obeys : Controller → Backend → Type 0
Obeys c backend =
    (h : History)
    → is_set (bit_and (backend.read_debug32 h c.cr_reg).1 (2 ^ c.lock_shift))
      ≡ is_locked (lock_state c h)
