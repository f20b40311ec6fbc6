-- ===== src/Target.antt =====
-- .deprecated/src/stlink-lib/common_legacy.c: the control of the core of the target. The waits of 500 ms
-- are loops of as many rounds as the clock of the host leaves them.
pub mod Reset
pub mod Leave
pub mod Identify
use libstlink.Prelude.{
  ℕ, zero, suc, ◌+◌, ◌^◌, Bool, true, false, Option, none, some, ◌∷◌, ℤ, pos, success, failure,
  is_nonzero, bit_and, bit_or, ◌==◌, if◌then◌else◌,
}
use libstlink.Word.{clear, is_set}
use libstlink.Registers.Lx
use libstlink.Registers.Rcc
use libstlink.Stlink.{
  FlashType, f0_f1_f3, f1_xl, f2_f4, f7, g0, g4, h7, l0_l1, l4, wb_wl, wb0, TargetState,
  target_halted, RunType, Call, Stlink, M, pure, get, ◌>>=◌, ◌>>◌,
}
use libstlink.Stlink.ReadWrite.{
  stlink_read_debug32, stlink_write_debug32, stlink_read_reg, stlink_write_reg,
}
use libstlink.Flash.Control.{get_stm32l0_flash_base}

abbrev two_bits : ℕ → ℕ → ℕ
two_bits i j = bit_or (2 ^ i) (2 ^ j)

-- The register that freezes the watchdogs of a halted core, and its bits.
unfoldable pub wdg_freeze : Stlink → FlashType → Option (ℕ × ℕ)
unfolding get_stm32l0_flash_base
wdg_freeze sl f0_f1_f3 =
    some (Rcc.f0_dbgmcu_cr, two_bits Rcc.f0_dbgmcu_cr_iwdg_stop Rcc.f0_dbgmcu_cr_wwdg_stop)
wdg_freeze sl f1_xl =
    some (Rcc.f0_dbgmcu_cr, two_bits Rcc.f0_dbgmcu_cr_iwdg_stop Rcc.f0_dbgmcu_cr_wwdg_stop)
wdg_freeze sl g4 =
    some (Rcc.f0_dbgmcu_cr, two_bits Rcc.f0_dbgmcu_cr_iwdg_stop Rcc.f0_dbgmcu_cr_wwdg_stop)
wdg_freeze sl f2_f4 = some (
  Rcc.f4_dbgmcu_apb1fzr1,
  two_bits Rcc.f4_dbgmcu_apb1fzr1_iwdg_stop Rcc.f4_dbgmcu_apb1fzr1_wwdg_stop,
)
wdg_freeze sl f7 = some (
  Rcc.f4_dbgmcu_apb1fzr1,
  two_bits Rcc.f4_dbgmcu_apb1fzr1_iwdg_stop Rcc.f4_dbgmcu_apb1fzr1_wwdg_stop,
)
wdg_freeze sl l4 = some (
  Rcc.f4_dbgmcu_apb1fzr1,
  two_bits Rcc.f4_dbgmcu_apb1fzr1_iwdg_stop Rcc.f4_dbgmcu_apb1fzr1_wwdg_stop,
)
wdg_freeze sl l0_l1 =
    if get_stm32l0_flash_base sl == Lx.regs_addr
    then some (
      Rcc.l1_dbgmcu_apb1_fz,
      two_bits Rcc.l1_dbgmcu_apb1_fz_iwdg_stop Rcc.l1_dbgmcu_apb1_fz_wwdg_stop,
    )
    else some (
      Rcc.l0_dbgmcu_apb1_fz,
      two_bits Rcc.l0_dbgmcu_apb1_fz_iwdg_stop Rcc.l0_dbgmcu_apb1_fz_wwdg_stop,
    )
wdg_freeze sl g0 =
    if get_stm32l0_flash_base sl == Lx.regs_addr
    then some (
      Rcc.l1_dbgmcu_apb1_fz,
      two_bits Rcc.l1_dbgmcu_apb1_fz_iwdg_stop Rcc.l1_dbgmcu_apb1_fz_wwdg_stop,
    )
    else some (
      Rcc.l0_dbgmcu_apb1_fz,
      two_bits Rcc.l0_dbgmcu_apb1_fz_iwdg_stop Rcc.l0_dbgmcu_apb1_fz_wwdg_stop,
    )
wdg_freeze sl h7 = some (Rcc.h7_dbgmcu_apb1hfz, 2 ^ Rcc.h7_dbgmcu_apb1hfz_iwdg_stop)
wdg_freeze sl wb_wl = some (
  Rcc.wb_dbgmcu_apb1fzr1,
  two_bits Rcc.wb_dbgmcu_apb1fzr1_iwdg_stop Rcc.wb_dbgmcu_apb1fzr1_wwdg_stop,
)
wdg_freeze sl _ = none

-- if(!read(reg, &value)) write(reg, f value);
unfoldable pub update_if_read : ℕ → (ℕ → ℕ) → M (Unit {0})
unfolding stlink_read_debug32 stlink_write_debug32
update_if_read reg f = do
  (ret, value) ← stlink_read_debug32 reg
  if is_nonzero ret then pure tt else (do stlink_write_debug32 reg (f value); pure tt)

unfoldable pub freeze_at : Option (ℕ × ℕ) → M (Unit {0})
unfolding update_if_read
freeze_at none = pure tt
freeze_at (some (dbgmcu_cr, bits)) = update_if_read dbgmcu_cr (λ value. bit_or value bits)

-- The WB0 has no DBGMCU: its watchdog is turned off.
unfoldable pub stop_wdg_of : Stlink → FlashType → M (Unit {0})
unfolding update_if_read freeze_at wdg_freeze
stop_wdg_of sl wb0 = update_if_read Rcc.wb0_apb0enr (λ value. clear value Rcc.wb0_apb0_wdgen)
stop_wdg_of sl t = freeze_at (wdg_freeze sl t)

unfoldable pub stop_wdg_in_debug : M (Unit {0})
unfolding stop_wdg_of
stop_wdg_in_debug = do sl ← get; stop_wdg_of sl sl.flash_type

unfoldable pub backend_force_debug : M ℤ
backend_force_debug sl =
    some (sl.backend.force_debug sl.history, record sl { history = Call.force_debug ∷ sl.history })

unfoldable pub stlink_force_debug : M ℤ
unfolding backend_force_debug stop_wdg_in_debug
stlink_force_debug = do
  res ← backend_force_debug
  if is_nonzero res then pure res else (do stop_wdg_in_debug; pure success)

-- The backend sets `core_stat`.
unfoldable pub stlink_status : M ℤ
stlink_status sl =
    let (ret, core_stat) = sl.backend.status sl.history in
    some (ret, record sl { core_stat = core_stat; history = Call.status ∷ sl.history })

unfoldable pub is_halted : TargetState → Bool
is_halted target_halted = true
is_halted _ = false

unfoldable pub stlink_is_core_halted : M Bool
unfolding stlink_status is_halted
stlink_is_core_halted = do stlink_status; sl ← get; pure (is_halted sl.core_stat)

-- The backend sets `core_id`.
unfoldable pub stlink_core_id : M ℤ
stlink_core_id sl =
    let (ret, core_id) = sl.backend.core_id sl.history in
    some (ret, record sl { core_id = core_id; history = Call.core_id ∷ sl.history })

unfoldable pub stlink_target_voltage : M ℤ
stlink_target_voltage sl = elim sl.backend.target_voltage [
  | none ↦ some (failure, sl)
  | some target_voltage ↦
      some (target_voltage sl.history, record sl { history = Call.target_voltage ∷ sl.history })
]

unfoldable pub backend_run : RunType → M ℤ
backend_run type sl =
    some (sl.backend.run sl.history type, record sl { history = Call.run type ∷ sl.history })

-- The Thumb bit of xPSR is set before the core runs.
unfoldable pub stlink_run : RunType → M ℤ
unfolding stlink_read_reg stlink_write_reg backend_run
stlink_run type = do
  sl ← get
  (ret, rr) ← stlink_read_reg (pos 16) sl.uninit_reg
  if is_set (bit_and rr.xpsr (2 ^ 24))
      then backend_run type
      else (do stlink_write_reg (bit_or rr.xpsr (2 ^ 24)) (pos 16); backend_run type)
