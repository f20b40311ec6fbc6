-- ===== src/Target/Reset.antt =====
-- common_legacy.c: the resets of the target.
use libstlink.Prelude.{
  ℕ, zero, suc, Bool, true, false, not, ◌&&◌, some, ◌∷◌, ℤ, pos, success, failure, is_nonzero,
  bit_and, bit_or, ltb, if◌then◌else◌,
}
use libstlink.Word.{is_set}
use libstlink.Registers.Debug
use libstlink.Stlink.{
  target_reset, ResetType, reset_auto, reset_hard, reset_soft, reset_soft_and_halt, Call, M, pure,
  get, ◌>>=◌, ◌>>◌,
}
use libstlink.Stlink.ReadWrite.{stlink_read_debug32, stlink_write_debug32}

unfoldable pub stlink_jtag_reset : ℤ → M ℤ
stlink_jtag_reset value sl = some (
  sl.backend.jtag_reset sl.history value,
  record sl { history = Call.jtag_reset value ∷ sl.history },
)

-- One round of the wait: S_RESET_ST is clear, and VCATCH is set where the core is to halt.
unfoldable pub reset_seen : Bool → M Bool
unfolding stlink_read_debug32
reset_seen halt_on_reset = do
  (ret, dhcsr) ← stlink_read_debug32 Debug.dhcsr
  if is_set (bit_and dhcsr Debug.dhcsr_s_reset_st)
      then pure false
      else if halt_on_reset
      then (do
        (ret', dfsr) ← stlink_read_debug32 Debug.dfsr
        pure (is_set (bit_and dfsr Debug.dfsr_vcatch)))
      else pure true

-- while(time_ms() < timeout): whether a round ends it before the time is over.
unfoldable pub wait_reset : ℕ → Bool → M Bool
unfolding reset_seen
wait_reset zero halt_on_reset = pure false
wait_reset (suc polls) halt_on_reset = do
  seen ← reset_seen halt_on_reset
  elim seen [ true ↦ pure true | false ↦ wait_reset polls halt_on_reset ]

abbrev pub demcr_faults : ℕ
demcr_faults = bit_or (bit_or Debug.demcr_trcena Debug.demcr_vc_harderr) Debug.demcr_vc_buserr

-- The traps that the reset runs into.
unfoldable pub arm_catches : Bool → M ℤ
unfolding stlink_write_debug32
arm_catches true = do
  stlink_write_debug32 Debug.demcr (bit_or demcr_faults Debug.demcr_vc_corereset)
  stlink_write_debug32 Debug.dfsr Debug.dfsr_vcatch
arm_catches false = stlink_write_debug32 Debug.demcr demcr_faults

unfoldable pub stlink_soft_reset : Bool → M ℤ
unfolding arm_catches stlink_read_debug32 stlink_write_debug32 wait_reset
stlink_soft_reset halt_on_reset = do
  stlink_write_debug32 Debug.dhcsr
      (bit_or (bit_or Debug.dhcsr_dbgkey Debug.dhcsr_c_halt) Debug.dhcsr_c_debugen)
  arm_catches halt_on_reset
  stlink_read_debug32 Debug.dhcsr
  ret ← stlink_write_debug32 Debug.aircr (bit_or Debug.aircr_vectkey Debug.aircr_sysresetreq)
  if is_nonzero ret then pure ret else (do
    sl ← get
    seen ← wait_reset (sl.backend.polls_in_500ms sl.history) halt_on_reset
    stlink_write_debug32 Debug.dfsr Debug.dfsr_clear
    pure (if seen then success else failure))

-- STLINK_DEBUG_APIV2_DRIVE_NRST_LOW and _HIGH
abbrev drive_nrst_low : ℤ
drive_nrst_low = pos 0

abbrev drive_nrst_high : ℤ
drive_nrst_high = pos 1

backend_reset : M ℤ
backend_reset sl =
    some (sl.backend.reset sl.history, record sl { history = Call.reset ∷ sl.history })

hard_reset : M ℤ
unfolding stlink_jtag_reset backend_reset
hard_reset = do
  sl ← get
  if ltb 1 sl.stlink_v
      then (do stlink_jtag_reset drive_nrst_low; stlink_jtag_reset drive_nrst_high; backend_reset)
      else backend_reset

-- Whether the hardware reset took place; where it did not, the core is reset by software.
after_auto : M ℤ
unfolding stlink_read_debug32 stlink_soft_reset wait_reset
after_auto = do
  (res, dhcsr) ← stlink_read_debug32 Debug.dhcsr
  if not (is_set (bit_and dhcsr Debug.dhcsr_s_reset_st)) && not (is_nonzero res)
      then stlink_soft_reset false
      else (do
        sl ← get
        seen ← wait_reset (sl.backend.polls_in_500ms sl.history) false
        pure (if seen then success else failure))

reset_of : ResetType → M ℤ
unfolding hard_reset after_auto stlink_read_debug32 stlink_soft_reset
reset_of reset_auto = do stlink_read_debug32 Debug.dhcsr; hard_reset; after_auto
reset_of reset_hard = do hard_reset; pure success
reset_of reset_soft = stlink_soft_reset false
reset_of reset_soft_and_halt = stlink_soft_reset true

unfoldable pub stlink_reset : ResetType → M ℤ
unfolding reset_of
stlink_reset type sl = reset_of type (record sl { core_stat = target_reset })
