-- ===== src/Tests/Server.antt =====
-- The breakpoints, watchpoints, flash blocks and caches of the gdb server.
use libstlink.Prelude.{
  ℕ, ◌+◌, ◌-◌, ◌<◌, ◌≡◌, ◌⊎◌, refl, true, false, some, none, ℤ, success, failure, max, List, [],
  ◌∷◌, length, get_or, take, ltb, leb, ◌&&◌, if◌then◌else◌, All, arith,
}
use libstlink.Registers.Debug
use libstlink.Stlink.{Stlink, ◌>>=◌}
use libstlink.Stlink.Registers.{last_write}
use libstlink.Gdb.Server.Watch.{
  Watch, WatchFun, no_watch, init_data_watchpoints, add_data_watchpoint, delete_data_watchpoint,
}
use libstlink.Gdb.Server.Watch.Agrees as WatchAgrees
use libstlink.Gdb.Server.Watch.Agrees.{no_watch-SlotAgrees}
use libstlink.Gdb.Server.Watch.Mask.{MaskOf, add_data_watchpoint_negative}
use libstlink.Gdb.Server.Watch.Steps.{
  Added, Deleted, add_data_watchpoint-Agrees, delete_data_watchpoint-Agrees,
}
use libstlink.Gdb.Server.Watch.Runs.{WatchOp, run_ops, run_ops-init_data_watchpoints}
use libstlink.Gdb.Server.Break.{
  Breaks, no_break, update_code_breakpoint, init_code_breakpoints, fpb_addr, find_break,
}
use libstlink.Gdb.Server.Break.Agrees as BreakAgrees
use libstlink.Gdb.Server.Break.Agrees.{is_hit}
use libstlink.Gdb.Server.Break.Runs.{run_updates, run_updates-init_code_breakpoints}
use libstlink.Gdb.Server.Break.Halves.{BreaksAt}
use libstlink.Gdb.Server.Break.Stops.{
  update_code_breakpoint-BreaksAt, update_code_breakpoint-not-BreaksAt,
}
use libstlink.Gdb.Server.Break.Stale.{two, run_updates-BreaksAt}
use libstlink.Gdb.Server.Load.{FlashBlock, flash_populate}
use libstlink.Gdb.Server.Load.Fill.{flash_populate-get_or}
use libstlink.Tests.Device.{board}

abbrev two_watches : List Watch
two_watches = no_watch ∷ no_watch ∷ []

no_watch-Agrees : WatchAgrees.Agrees board.history two_watches
no_watch-Agrees = (no_watch-SlotAgrees [] 0 refl, (no_watch-SlotAgrees [] 1 refl, tt))

abbrev ops : List WatchOp
ops =
    WatchOp.add WatchFun.write 0x20000000 4
    ∷ WatchOp.add WatchFun.read 0x20000010 1
    ∷ WatchOp.delete 0x20000000
    ∷ []

run_ops-init_data_watchpoints_example :
    (ws' : List Watch) × (sl' : Stlink) × ((init_data_watchpoints two_watches >>= run_ops ops) board
      ≡ some (ws', sl'))
    × WatchAgrees.Agrees sl'.history ws'
run_ops-init_data_watchpoints_example =
    run_ops-init_data_watchpoints ops two_watches board (omega arith, (omega arith, (tt, tt)))

add_data_watchpoint-Agrees_example :
    (mask : ℕ) × MaskOf 4 mask
    × (ret : ℤ) × (ws' : List Watch) × (sl' : Stlink) × (add_data_watchpoint 33 WatchFun.write
          0x20000000 4 two_watches board
        ≡ some ((ret, ws'), sl'))
    × WatchAgrees.Agrees sl'.history ws'
    × Added WatchFun.write 0x20000000 mask two_watches board ret ws' sl'
add_data_watchpoint-Agrees_example =
    add_data_watchpoint-Agrees WatchFun.write 0x20000000 4 two_watches board (omega arith)
      no_watch-Agrees

delete_data_watchpoint-Agrees_example :
    (ret : ℤ) × (ws' : List Watch) × (sl' : Stlink) × (delete_data_watchpoint 0x20000000 two_watches
        board
      ≡ some ((ret, ws'), sl'))
    × WatchAgrees.Agrees sl'.history ws'
    × Deleted 0x20000000 two_watches board ret ws' sl'
delete_data_watchpoint-Agrees_example =
    delete_data_watchpoint-Agrees 0x20000000 two_watches board no_watch-Agrees

add_data_watchpoint_negative_example :
    add_data_watchpoint 100 WatchFun.access 0x20000000 0x80000000 two_watches board ≡ none
add_data_watchpoint_negative_example =
    add_data_watchpoint_negative 100 WatchFun.access 0x20000000 0x80000000 two_watches board
      (omega arith)

abbrev free : Breaks
free = record {
  code_break_num = 2;
  code_lit_num = 1;
  code_break_rev = 0;
  code_breaks = no_break ∷ no_break ∷ [];
}

run_updates-init_code_breakpoints_example :
    (s' : Breaks) × (sl' : Stlink) × ((init_code_breakpoints free.code_breaks
          >>= run_updates ((0x08000100, true) ∷ (0x08000100, false) ∷ []))
        board
      ≡ some (s', sl'))
    × BreakAgrees.Agrees sl'.history s'
run_updates-init_code_breakpoints_example =
    run_updates-init_code_breakpoints ((0x08000100, true) ∷ (0x08000100, false) ∷ [])
      free.code_breaks board

update_code_breakpoint-BreaksAt_example :
    ((i : ℕ) × (s' : Breaks) × (sl' : Stlink) × (update_code_breakpoint free 0x08000102 true board
        ≡ some ((success, s'), sl'))
      × (i < length (take free.code_break_num free.code_breaks))
      × BreaksAt (last_write (Debug.fp_comp i) sl'.history) 0x08000102)
    ⊎ ((update_code_breakpoint free 0x08000102 true board ≡ some ((failure, free), board))
        × All
            (λ b. is_hit true (fpb_addr free.code_break_rev 0x08000102) b ≡ false)
            (take free.code_break_num free.code_breaks))
update_code_breakpoint-BreaksAt_example =
    update_code_breakpoint-BreaksAt free 0x08000102 board refl refl (omega arith)
      (omega arith, (omega arith, tt))

update_code_breakpoint-not-BreaksAt_example :
    ((i : ℕ) × (s' : Breaks) × (sl' : Stlink) × (update_code_breakpoint free 0x08000102 false board
        ≡ some ((success, s'), sl'))
      × (find_break false
            (fpb_addr free.code_break_rev 0x08000102)
            0
            (take free.code_break_num free.code_breaks)
          ≡ some i)
      × ¬ BreaksAt (last_write (Debug.fp_comp i) sl'.history) 0x08000102)
    ⊎ ((update_code_breakpoint free 0x08000102 false board ≡ some ((success, free), board))
        × All
            (λ b. is_hit false (fpb_addr free.code_break_rev 0x08000102) b ≡ false)
            (take free.code_break_num free.code_breaks))
update_code_breakpoint-not-BreaksAt_example =
    update_code_breakpoint-not-BreaksAt free 0x08000102 board refl refl (omega arith)
      (omega arith, (omega arith, tt))

run_updates-BreaksAt_example :
    (s' : Breaks) × (sl' : Stlink) × (run_updates
        ((0x08000100, true)
          ∷ (0x08000200, true)
          ∷ (0x08000100, false)
          ∷ (0x08000202, true)
          ∷ (0x08000200, false)
          ∷ [])
        (two 4 2 [] no_break no_break)
        board
      ≡ some (s', sl'))
    × BreaksAt (last_write (Debug.fp_comp 1) sl'.history) 0x08000200
run_updates-BreaksAt_example =
    run_updates-BreaksAt 4 2 [] 0x08000100 0x08000200 board refl refl (λ e. absurd (omega arith))
      (omega arith) (omega arith)

abbrev block : FlashBlock
block = record { addr = 0x08000000; length = 4; bytes = 255 ∷ 255 ∷ 255 ∷ 255 ∷ [] }

flash_populate-get_or_example :
    get_or (get_or (flash_populate 0x08000002 (7 ∷ 8 ∷ 9 ∷ []) 3 (block ∷ [])).1 0 block).bytes 3 0
    ≡ (if leb 0x08000002 (0x08000000 + 3) && ltb (0x08000000 + 3) (0x08000002 + 3)
        then get_or (7 ∷ 8 ∷ 9 ∷ []) (0x08000000 + 3 - max 0x08000002 0x08000000) 0
        else get_or block.bytes 3 0)
flash_populate-get_or_example =
    flash_populate-get_or 0x08000002 (7 ∷ 8 ∷ 9 ∷ []) block 3 (omega arith) (omega arith) refl
      (omega arith) (block ∷ []) 0 block (omega arith) refl
