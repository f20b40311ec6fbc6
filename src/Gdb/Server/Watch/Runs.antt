-- ===== src/Gdb/Server/Watch/Runs.antt =====
-- gdb-server.c: sequences of calls on the data watchpoints.
use libstlink.Prelude.{
  ℕ, suc, ◌<◌, ◌^◌, ◌≡◌, ◌∙◌, refl, ap, some, List, [], ◌∷◌, arith, true, ℤ, All, length,
}
use libstlink.Stlink.{Stlink, M, pure, ◌>>=◌, Call, bind_run}
use libstlink.Stlink.ReadWrite.{stlink_read_debug32, stlink_write_debug32}
use libstlink.Registers.Debug
use libstlink.Stlink.Registers.{SlotsFrom}
use libstlink.Gdb.Server.Watch.{
  Watch, WatchFun, is_disabled, delete_data_watchpoint, add_data_watchpoint, clear_watches,
  init_data_watchpoints,
}
use libstlink.Gdb.Server.Watch.Agrees.{
  Agrees, Same, Same-refl, Same-trans, slot-Same, SlotAgrees, cleared_slot, fun_written,
}
use libstlink.Gdb.Server.Watch.Steps.{add_data_watchpoint-Agrees, delete_data_watchpoint-Agrees}

clear_watches-some :
    (i : ℕ) (ws : List Watch) (sl : Stlink)
    → (ws' : List Watch) × (sl' : Stlink) × (clear_watches i ws sl ≡ some (ws', sl'))
      × SlotsFrom SlotAgrees sl'.history i ws'
      × ((k : ℕ) → k < i → Same sl.history sl'.history k)
      × (length ws' ≡ length ws)
      × All (λ w. is_disabled w.fun ≡ true) ws'
unfolding clear_watches stlink_write_debug32
clear_watches-some i [] sl = ([], sl, refl, tt, λ k lt. Same-refl sl.history k, refl, tt)
clear_watches-some i (w ∷ ws) sl =
    let h = Call.write_debug32 (Debug.dwt_fun i) 0 ∷ sl.history in
    let (ws', sl', run, agrees, same, len, off) =
      clear_watches-some (suc i) ws (record sl { history = h }) in
    (
      record w { fun = WatchFun.disabled } ∷ ws',
      sl',
      bind_run (clear_watches (suc i) ws) run _,
      (slot-Same h sl'.history i _ (same i (omega arith)) (cleared_slot sl.history i w), agrees),
      (λ k lt.
          Same-trans sl.history h sl'.history k
            (fun_written i 0 sl.history k (λ e. absurd (omega arith))) (same k (omega arith))),
      ap suc len,
      (refl, off),
    )

-- `init_data_watchpoints` returns with no watchpoint in use, and every comparator of the table off.
init_data_watchpoints-Agrees :
    (ws : List Watch) (sl : Stlink)
    → (ws' : List Watch) × (sl' : Stlink) × (init_data_watchpoints ws sl ≡ some (ws', sl'))
      × Agrees sl'.history ws'
      × (length ws' ≡ length ws)
      × All (λ w. is_disabled w.fun ≡ true) ws'
unfolding init_data_watchpoints stlink_read_debug32 stlink_write_debug32
init_data_watchpoints-Agrees ws sl =
    let (ws', sl', run, agrees, same, len, off) = clear_watches-some 0 ws _ in
    (ws', sl', run, agrees, len, off)

-- The calls that the server makes on the packets Z2, Z3, Z4 and z2, z3, z4.
pub data WatchOp : Type 0 where
  add : WatchFun → ℕ → ℕ → WatchOp
  delete : ℕ → WatchOp

abbrev pub IsShort : WatchOp → Type 0
IsShort (WatchOp.add wf addr len) = len < 2 ^ 31
IsShort (WatchOp.delete addr) = Unit

unfoldable pub run_op : WatchOp → List Watch → M (ℤ × List Watch)
unfolding add_data_watchpoint delete_data_watchpoint
run_op (WatchOp.add wf addr len) ws = add_data_watchpoint 33 wf addr len ws
run_op (WatchOp.delete addr) ws = delete_data_watchpoint addr ws

unfoldable pub run_ops : List WatchOp → List Watch → M (List Watch)
unfolding run_op
run_ops [] ws = pure ws
run_ops (op ∷ ops) ws = do (ret, ws') ← run_op op ws; run_ops ops ws'

run_op-Agrees :
    (op : WatchOp) (ws : List Watch) (sl : Stlink)
    → IsShort op
    → Agrees sl.history ws
    → (ret : ℤ) × (ws' : List Watch) × (sl' : Stlink) × (run_op op ws sl ≡ some ((ret, ws'), sl'))
      × Agrees sl'.history ws'
unfolding run_op
run_op-Agrees (WatchOp.add wf addr len) ws sl short agrees =
    let (mask, e, ret, ws', sl', run, agrees', added) =
      add_data_watchpoint-Agrees wf addr len ws sl short agrees in
    (ret, ws', sl', run, agrees')
run_op-Agrees (WatchOp.delete addr) ws sl short agrees =
    let (ret, ws', sl', run, agrees', deleted) = delete_data_watchpoint-Agrees addr ws sl agrees in
    (ret, ws', sl', run, agrees')

run_ops-Agrees :
    (ops : List WatchOp) (ws : List Watch) (sl : Stlink)
    → All IsShort ops
    → Agrees sl.history ws
    → (ws' : List Watch) × (sl' : Stlink) × (run_ops ops ws sl ≡ some (ws', sl'))
      × Agrees sl'.history ws'
unfolding run_ops
run_ops-Agrees [] ws sl short agrees = (ws, sl, refl, agrees)
run_ops-Agrees (op ∷ ops) ws sl (short, shorts) agrees =
    let (ret, ws₁, sl₁, run₁, agrees₁) = run_op-Agrees op ws sl short agrees in
    let (ws', sl', run, agrees') = run_ops-Agrees ops ws₁ sl₁ shorts agrees₁ in
    (ws', sl', bind_run (run_op op ws) run₁ _ ∙ run, agrees')

-- After `init_data_watchpoints`, any sequence of calls that set and clear watchpoints returns, where
-- each length is below 2^31, and leaves each comparator of the table with the function that the
-- table says and, where it is in use, with the address and the mask of the table.
pub run_ops-init_data_watchpoints :
    (ops : List WatchOp) (ws : List Watch) (sl : Stlink)
    → All IsShort ops
    → (ws' : List Watch) × (sl' : Stlink) × ((init_data_watchpoints ws >>= run_ops ops) sl
        ≡ some (ws', sl'))
      × Agrees sl'.history ws'
run_ops-init_data_watchpoints ops ws sl short =
    let (ws₁, sl₁, run₁, agrees₁, len, off) = init_data_watchpoints-Agrees ws sl in
    let (ws', sl', run, agrees) = run_ops-Agrees ops ws₁ sl₁ short agrees₁ in
    (ws', sl', bind_run (init_data_watchpoints ws) run₁ (run_ops ops) ∙ run, agrees)
