-- ===== src/Gdb/Server/Watch/Steps.antt =====
-- gdb-server.c: setting and clearing data watchpoints keeps the table and the comparators in step.
use native.Mathlib.Nat.{zero-add}
use libstlink.Prelude.{
  ℕ, ◌+◌, ◌≤◌, ◌<◌, ◌^◌, ◌≡◌, ◌⊎◌, inl, inr, ◌∙◌, refl, some, List, ◌∷◌, arith, ltb, ◌==◌, true,
  false, success, failure, ℤ, All, length, get_or, set, Bool-cases, not, ◌&&◌,
}
use libstlink.Word.{uint32_max}
use libstlink.Stlink.{Stlink, Call}
use libstlink.Stlink.ReadWrite.{stlink_read_debug32, stlink_write_debug32}
use libstlink.Registers.Debug
use libstlink.Stlink.Registers.{slots_set}
use libstlink.Gdb.Server.Watch.{
  Watch, WatchFun, no_watch, fun_code, is_disabled, insert_watch, insert_masked, remove_watch,
  delete_data_watchpoint, add_data_watchpoint,
}
use libstlink.Gdb.Server.Watch.Mask.{MaskOf, mask_loop_ends}
use libstlink.Gdb.Server.Watch.Agrees.{
  Agrees, slot-Same, SlotAgrees, inserted, inserted_other, inserted_slot, cleared_slot, fun_written,
  first_free-cases, find_watch-cases,
}

-- Where `add_data_watchpoint` may end with this result, table and context.
pub Added : WatchFun → ℕ → ℕ → List Watch → Stlink → ℤ → List Watch → Stlink → Type 0
Added wf addr mask ws sl ret ws' sl' =
    ((ret ≡ success)
      × (mask < 16)
      × ((i : ℕ) × (i < length ws)
          × (is_disabled (get_or ws i no_watch).fun ≡ true)
          × (ws' ≡ set ws i (record { addr = addr; mask = mask; fun = wf }))))
    ⊎ ((ret ≡ failure)
        × (ws' ≡ ws)
        × (sl' ≡ sl)
        × ((16 ≤ mask) ⊎ All (λ w. is_disabled w.fun ≡ false) ws))

insert_watch-some :
    (wf : WatchFun) (addr mask : ℕ) (ws : List Watch) (i : ℕ) (sl : Stlink)
    → insert_watch wf addr mask ws (some i) sl
      ≡ some (
        (success, set ws i (record { addr = addr; mask = mask; fun = wf })),
        record sl { history = inserted sl.history i addr mask (fun_code wf) },
      )
unfolding insert_watch stlink_read_debug32 stlink_write_debug32
insert_watch-some wf addr mask ws i sl = refl

insert_masked-Agrees :
    (wf : WatchFun) (addr mask : ℕ) (ws : List Watch) (sl : Stlink)
    → Agrees sl.history ws
    → (ret : ℤ) × (ws' : List Watch) × (sl' : Stlink) × (insert_masked wf addr ws (some mask) sl
        ≡ some ((ret, ws'), sl'))
      × Agrees sl'.history ws'
      × Added wf addr mask ws sl ret ws' sl'
unfolding insert_masked insert_watch Added
insert_masked-Agrees wf addr mask ws sl agrees =
    elim (Bool-cases (not (mask == uint32_max) && ltb mask 16)) [
      | inr large ↦
          (failure, ws, sl, rw large refl, agrees, inr (refl, refl, refl, inl (ground arith)))
      | inl small ↦ elim (first_free-cases 0 ws) [
        | inl (e, used) ↦
            (failure, ws, sl, rw small (rw e refl), agrees, inr (refl, refl, refl, inr used))
        | inr (i, e, lt, off) ↦ (
          success,
          set ws i (record { addr = addr; mask = mask; fun = wf }),
          record sl { history = inserted sl.history (0 + i) addr mask (fun_code wf) },
          rw small (rw e (insert_watch-some wf addr mask ws (0 + i) sl ∙ rw (zero-add i) refl)),
          slots_set SlotAgrees sl.history _ 0 i ws _
              (λ k w ne.
                slot-Same sl.history _ k w
                  (inserted_other sl.history (0 + i) addr mask (fun_code wf) k ne))
              (inserted_slot sl.history (0 + i) addr mask (fun_code wf) wf refl) agrees,
          inl (refl, ground arith, (i, lt, off, refl)),
        )
      ]
    ]

-- For a length below 2^31, where the table agrees with the comparators before the call,
-- `add_data_watchpoint` returns and they agree after it. Either it has filled a comparator that was
-- not in use, with the position of the highest binary digit of the length as its mask, which is below
-- 16; or it fails, nothing has changed, and this mask is too large, the length is 0, or every
-- comparator is in use.
pub add_data_watchpoint-Agrees :
    (wf : WatchFun) (addr len : ℕ) (ws : List Watch) (sl : Stlink)
    → len < 2 ^ 31
    → Agrees sl.history ws
    → (mask : ℕ) × MaskOf len mask
      × (ret : ℤ) × (ws' : List Watch) × (sl' : Stlink) × (add_data_watchpoint 33 wf addr len ws sl
          ≡ some ((ret, ws'), sl'))
      × Agrees sl'.history ws'
      × Added wf addr mask ws sl ret ws' sl'
unfolding add_data_watchpoint
add_data_watchpoint-Agrees wf addr len ws sl short agrees =
    let (mask, e, is_mask) = mask_loop_ends len short in
    let (ret, ws', sl', run, agrees', added) = insert_masked-Agrees wf addr mask ws sl agrees in
    (mask, is_mask, ret, ws', sl', rw e run, agrees', added)

remove_watch-some :
    (ws : List Watch) (i : ℕ) (sl : Stlink)
    → remove_watch ws (some i) sl
      ≡ some (
        (success, set ws i (record (get_or ws i no_watch) { fun = WatchFun.disabled })),
        record sl { history = Call.write_debug32 (Debug.dwt_fun i) 0 ∷ sl.history },
      )
unfolding remove_watch stlink_write_debug32
remove_watch-some ws i sl = refl

-- Where `delete_data_watchpoint` may end with this result, table and context.
pub Deleted : ℕ → List Watch → Stlink → ℤ → List Watch → Stlink → Type 0
Deleted addr ws sl ret ws' sl' =
    ((ret ≡ success)
      × ((i : ℕ) × (i < length ws)
          × (((get_or ws i no_watch).addr == addr) && not (is_disabled (get_or ws i no_watch).fun)
              ≡ true)
          × (ws' ≡ set ws i (record (get_or ws i no_watch) { fun = WatchFun.disabled }))))
    ⊎ ((ret ≡ failure)
        × (ws' ≡ ws)
        × (sl' ≡ sl)
        × All (λ w. ((w.addr == addr) && not (is_disabled w.fun)) ≡ false) ws)

-- Where the table agrees with the comparators before the call, `delete_data_watchpoint` returns and
-- they agree after it. Either it has freed a comparator in use at the address, or it fails, nothing
-- has changed, and no comparator in use is at the address.
pub delete_data_watchpoint-Agrees :
    (addr : ℕ) (ws : List Watch) (sl : Stlink)
    → Agrees sl.history ws
    → (ret : ℤ) × (ws' : List Watch) × (sl' : Stlink) × (delete_data_watchpoint addr ws sl
        ≡ some ((ret, ws'), sl'))
      × Agrees sl'.history ws'
      × Deleted addr ws sl ret ws' sl'
unfolding delete_data_watchpoint remove_watch Deleted
delete_data_watchpoint-Agrees addr ws sl agrees = elim (find_watch-cases addr 0 ws) [
  | inl (e, others) ↦ (failure, ws, sl, rw e refl, agrees, inr (refl, refl, refl, others))
  | inr (i, e, lt, hit) ↦ (
    success,
    set ws i (record (get_or ws i no_watch) { fun = WatchFun.disabled }),
    record sl { history = Call.write_debug32 (Debug.dwt_fun (0 + i)) 0 ∷ sl.history },
    rw e (remove_watch-some ws (0 + i) sl ∙ rw (zero-add i) refl),
    slots_set SlotAgrees sl.history _ 0 i ws _
        (λ k w ne. slot-Same sl.history _ k w (fun_written (0 + i) 0 sl.history k ne))
        (cleared_slot sl.history (0 + i) (get_or ws i no_watch)) agrees,
    inl (refl, (i, lt, hit, refl)),
  )
]
