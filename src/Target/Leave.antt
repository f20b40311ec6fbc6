-- ===== src/Target/Leave.antt =====
-- common_legacy.c: `stlink_current_mode` and `stlink_exit_debug_mode`.
use libstlink.Prelude.{
  ℕ, Bool, true, false, ◌&&◌, ◌||◌, not, some, ◌∷◌, ℤ, pos, negsuc, success, failure, is_nonzero,
  bit_and, bit_or, ◌==◌, if◌then◌else◌,
}
use libstlink.Word.{clear, is_set}
use libstlink.Registers.Debug
use libstlink.Stlink.{FlashType, unknown, Call, M, pure, get, ◌>>=◌, ◌>>◌}
use libstlink.Stlink.ReadWrite.{stlink_read_debug32, stlink_write_debug32}

-- The modes of the probe that are known, and STLINK_DEV_UNKNOWN_MODE = -1 for the others.
known_mode : ℤ → ℤ
known_mode (pos mode) = if mode == 0 || mode == 2 || mode == 1 then pos mode else failure
known_mode (negsuc n) = failure

unfoldable pub stlink_current_mode : M ℤ
unfolding known_mode
stlink_current_mode sl = some (
  known_mode (sl.backend.current_mode sl.history),
  record sl { history = Call.current_mode ∷ sl.history },
)

-- STLINK_DEV_DEBUG_MODE = 2
is_debug : ℤ → Bool
is_debug (pos mode) = mode == 2
is_debug (negsuc n) = false

is_unknown : FlashType → Bool
is_unknown unknown = true
is_unknown _ = false

abbrev pub vector_catches : ℕ
vector_catches =
    bit_or (bit_or Debug.demcr_vc_corereset Debug.demcr_vc_harderr) Debug.demcr_vc_buserr

-- The vector catches outlive the session, unless they are cleared.
unfoldable pub disarm : M (Unit {0})
unfolding stlink_read_debug32 stlink_write_debug32
disarm = do
  stlink_write_debug32 Debug.dhcsr Debug.dhcsr_dbgkey
  (ret, demcr) ← stlink_read_debug32 Debug.demcr
  if not (is_nonzero ret) && is_set (bit_and demcr vector_catches)
      then (do
        stlink_write_debug32 Debug.demcr (clear demcr vector_catches)
        stlink_write_debug32 Debug.dfsr Debug.dfsr_vcatch
        pure tt)
      else pure tt

backend_exit : M ℤ
backend_exit sl = some (
  sl.backend.exit_debug_mode sl.history,
  record sl { history = Call.exit_debug_mode ∷ sl.history },
)

unfoldable pub stlink_exit_debug_mode : M ℤ
unfolding stlink_current_mode is_debug is_unknown disarm backend_exit
stlink_exit_debug_mode = do
  mode ← stlink_current_mode
  sl ← get
  if not (is_debug mode)
      then pure success
      else if is_unknown sl.flash_type
      then backend_exit
      else (do disarm; backend_exit)
