-- ===== src/Gdb/Server/Break/Runs.antt =====
-- gdb-server.c: sequences of calls on the code breakpoints.
use libstlink.Prelude.{
  inl, inr, ℕ, zero, suc, ◌<◌, ◌≡◌, ◌∙◌, refl, Bool, Bool-cases, some, List, [], ◌∷◌, take, ◌==◌,
  arith, bit_and,
}
use libstlink.Word.{shr32}
use libstlink.Stlink.{Stlink, Call, M, pure, ◌>>=◌, bind_run, then_run}
use libstlink.Stlink.Registers.{SlotsFrom}
use libstlink.Stlink.ReadWrite.{stlink_read_debug32, stlink_write_debug32}
use libstlink.Registers.Debug
use libstlink.Gdb.Server.Break.{
  Break, Breaks, comp_value, clear_breaks, clear_four, open_fpb, init_code_breakpoints,
  update_code_breakpoint,
}
use libstlink.Gdb.Server.Break.Agrees.{
  Agrees, CompAgrees, comp_other, comp_self, update_code_breakpoint-Agrees,
}

clear_breaks-some :
    (left i : ℕ) (bs : List Break) (sl : Stlink)
    → (bs' : List Break) × (sl' : Stlink) × (clear_breaks left i bs sl ≡ some (bs', sl'))
      × SlotsFrom CompAgrees sl'.history i (take left bs')
      × ((k : ℕ) (b : Break) → k < i → CompAgrees sl.history k b → CompAgrees sl'.history k b)
unfolding clear_breaks stlink_write_debug32 comp_value
clear_breaks-some zero i bs sl = (bs, sl, refl, tt, λ k b lt agrees. agrees)
clear_breaks-some (suc left) i [] sl = ([], sl, refl, tt, λ k b lt agrees. agrees)
clear_breaks-some (suc left) i (b ∷ bs) sl =
    let h = Call.write_debug32 (Debug.fp_comp i) 0 ∷ sl.history in
    let (bs', sl', run, agrees, kept) =
      clear_breaks-some left (suc i) bs (record sl { history = h }) in
    (
      record b { type = 0 } ∷ bs',
      sl',
      bind_run (clear_breaks left (suc i) bs) run _,
      (kept i _ (omega arith) (comp_self sl.history i (record b { type = 0 })), agrees),
      λ k x lt a.
          kept k x (omega arith) (comp_other sl.history i 0 k x (λ e. absurd (omega arith)) a),
    )

open_fpb-some : (val : ℕ) (sl : Stlink) → (sl' : Stlink) × (open_fpb val sl ≡ some (tt, sl'))
unfolding open_fpb stlink_write_debug32
open_fpb-some val sl = elim (Bool-cases (bit_and (shr32 val 4) 0xfff == 0xc27)) [
  | inl locked ↦ (
    record sl { history = Call.write_debug32 Debug.fp_lar Debug.fp_lar_key ∷ sl.history },
    rw locked refl,
  )
  | inr unlocked ↦ (sl, rw unlocked refl)
]

init_code_breakpoints-Agrees :
    (bs : List Break) (sl : Stlink)
    → (s : Breaks) × (sl' : Stlink) × (init_code_breakpoints bs sl ≡ some (s, sl'))
      × Agrees sl'.history s
unfolding init_code_breakpoints stlink_read_debug32 stlink_write_debug32
init_code_breakpoints-Agrees bs sl =
    let h₁ = Call.write_debug32 Debug.fp_ctrl 0x03 ∷ sl.history in
    let val = (sl.backend.read_debug32 h₁ Debug.fp_ctrl).1 in
    let h₂ = Call.read_debug32 Debug.fp_ctrl ∷ h₁ in
    let id = (sl.backend.read_debug32 h₂ Debug.cpuid).1 in
    let (sl₁, opened) =
      open_fpb-some id
        (record sl { q_buf = clear_four sl.q_buf; history = Call.read_debug32 Debug.cpuid ∷ h₂ }) in
    let (bs', sl', run, agrees, kept) = clear_breaks-some (bit_and (shr32 val 4) 0xf) 0 bs sl₁ in
    (
      _,
      sl',
      then_run (open_fpb id) opened _
          ∙ bind_run (clear_breaks (bit_and (shr32 val 4) 0xf) 0 bs) run _,
      agrees,
    )

-- The calls that the server makes on the packets Z0 or Z1 (true), and z0 or z1 (false).
unfoldable pub run_updates : List (ℕ × Bool) → Breaks → M Breaks
unfolding update_code_breakpoint
run_updates [] s = pure s
run_updates ((addr, to_set) ∷ ops) s = do
  (ret, s') ← update_code_breakpoint s addr to_set
  run_updates ops s'

run_updates-Agrees :
    (ops : List (ℕ × Bool)) (s : Breaks) (sl : Stlink)
    → Agrees sl.history s
    → (s' : Breaks) × (sl' : Stlink) × (run_updates ops s sl ≡ some (s', sl'))
      × Agrees sl'.history s'
unfolding run_updates
run_updates-Agrees [] s sl agrees = (s, sl, refl, agrees)
run_updates-Agrees ((addr, to_set) ∷ ops) s sl agrees =
    let (ret, s₁, sl₁, run₁, agrees₁, updated) =
      update_code_breakpoint-Agrees s addr to_set sl agrees in
    let (s', sl', run, agrees') = run_updates-Agrees ops s₁ sl₁ agrees₁ in
    (s', sl', bind_run (update_code_breakpoint s addr to_set) run₁ _ ∙ run, agrees')

-- After `init_code_breakpoints`, any sequence of calls of `update_code_breakpoint` returns, and leaves
-- in each comparator in use the word that its entry of the table stands for.
pub run_updates-init_code_breakpoints :
    (ops : List (ℕ × Bool)) (bs : List Break) (sl : Stlink)
    → (s' : Breaks) × (sl' : Stlink) × ((init_code_breakpoints bs >>= run_updates ops) sl
        ≡ some (s', sl'))
      × Agrees sl'.history s'
run_updates-init_code_breakpoints ops bs sl =
    let (s₁, sl₁, run₁, agrees₁) = init_code_breakpoints-Agrees bs sl in
    let (s', sl', run, agrees) = run_updates-Agrees ops s₁ sl₁ agrees₁ in
    (s', sl', bind_run (init_code_breakpoints bs) run₁ (run_updates ops) ∙ run, agrees)
