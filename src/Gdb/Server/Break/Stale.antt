-- ===== src/Gdb/Server/Break/Stale.antt =====
-- gdb-server.c: a breakpoint that outlives its removal, since `update_code_breakpoint` takes a free
-- comparator before the one that is already at the word.
use libstlink.Prelude.{
  ℕ, suc, ◌+◌, ◌^◌, ◌%◌, ◌<◌, ◌≡◌, ◌≢◌, ◌∙◌, refl, some, Bool, true, false, success, List, [], ◌∷◌,
  arith,
}
use libstlink.Stlink.{Stlink, Call, bind_run}
use libstlink.Stlink.Registers.{last_write}
use libstlink.Registers.Debug
use libstlink.Gdb.Server.Break.{
  Break, Breaks, no_break, changed, comp_value, update_code_breakpoint, fpb_addr, break_type,
  find_break,
}
use libstlink.Gdb.Server.Break.Agrees.{found_run, is_hit}
use libstlink.Gdb.Server.Break.Runs.{run_updates}
use libstlink.Gdb.Server.Break.Halves.{BreaksAt, entry-BreaksAt, fpb_addr_v1, break_type_v1}
use libstlink.Gdb.Server.Break.Stops.{even}

-- A table of two comparators and more, of the first revision.
module _ (n literals : ℕ) (others : List Break) where
  abbrev pub two : Break → Break → Breaks
  two x y = record {
    code_break_num = suc (suc n);
    code_lit_num = literals;
    code_break_rev = 0;
    code_breaks = x ∷ y ∷ others;
  }

  -- A call for the word w and its half t.
  module _ (addr w t : ℕ) (aligned : addr % 2 ≡ 0) (word : fpb_addr 0 addr ≡ w)
      (half : break_type 0 addr ≡ t) (to_set : Bool) (x y : Break) (sl : Stlink) where
    on_first :
        is_hit to_set w x ≡ true
        → update_code_breakpoint (two x y) addr to_set sl
          ≡ some (
            (success, two (changed to_set w t x) y),
            record sl {
              history =
                  Call.write_debug32 (Debug.fp_comp 0) (comp_value (changed to_set w t x))
                  ∷ sl.history;
            },
          )
    unfolding find_break
    on_first hit =
        found_run (two x y) addr to_set 0 sl (even addr aligned) (rw word (rw hit refl))
        ∙ rw (word, half) refl

    on_second :
        is_hit to_set w x ≡ false
        → is_hit to_set w y ≡ true
        → update_code_breakpoint (two x y) addr to_set sl
          ≡ some (
            (success, two x (changed to_set w t y)),
            record sl {
              history =
                  Call.write_debug32 (Debug.fp_comp 1) (comp_value (changed to_set w t y))
                  ∷ sl.history;
            },
          )
    unfolding find_break
    on_second miss hit =
        found_run (two x y) addr to_set 1 sl (even addr aligned) (rw word (rw (miss, hit) refl))
        ∙ rw (word, half) refl

  -- On a unit of the first revision with two comparators or more, the first two free: where a and b
  -- are different multiples of 4 below 2^29, a breakpoint is set at a and at b, the one at a is
  -- cleared, one is set at b + 2, and the one at b is cleared. All calls return, and the second
  -- comparator still stops at b.
  pub run_updates-BreaksAt :
      (a b : ℕ) (sl : Stlink)
      → a % 4 ≡ 0
      → b % 4 ≡ 0
      → a ≢ b
      → a < 2 ^ 29
      → b < 2 ^ 29
      → (s' : Breaks) × (sl' : Stlink) × (run_updates
            ((a, true) ∷ (b, true) ∷ (a, false) ∷ (b + 2, true) ∷ (b, false) ∷ [])
            (two no_break no_break)
            sl
          ≡ some (s', sl'))
        × BreaksAt (last_write (Debug.fp_comp 1) sl'.history) b
  unfolding run_updates changed comp_value
  run_updates-BreaksAt a b sl a4 b4 ne a_low b_low =
      let word_a : fpb_addr 0 a ≡ a = fpb_addr_v1 a a_low ∙ omega arith in
      let half_a : break_type 0 a ≡ 1 = break_type_v1 a ∙ omega arith in
      let word_b : fpb_addr 0 b ≡ b = fpb_addr_v1 b b_low ∙ omega arith in
      let half_b : break_type 0 b ≡ 1 = break_type_v1 b ∙ omega arith in
      let word_c : fpb_addr 0 (b + 2) ≡ b = fpb_addr_v1 (b + 2) (omega arith) ∙ omega arith in
      let half_c : break_type 0 (b + 2) ≡ 2 = break_type_v1 (b + 2) ∙ omega arith in
      let at_a : ℕ → Break = λ t. record { addr = a; type = t } in
      let at_b : ℕ → Break = λ t. record { addr = b; type = t } in
      (
        _,
        _,
        bind_run (update_code_breakpoint (two no_break no_break) a true)
              (on_first a a 1 (omega arith) word_a half_a true no_break no_break sl (ground arith))
              _
            ∙ bind_run (update_code_breakpoint (two (at_a 1) no_break) b true)
                (on_second b b 1 (omega arith) word_b half_b true (at_a 1) no_break _ (ground arith)
                  (ground arith))
                _
            ∙ bind_run (update_code_breakpoint (two (at_a 1) (at_b 1)) a false)
                (on_first a a 1 (omega arith) word_a half_a false (at_a 1) (at_b 1) _
                  (ground arith))
                _
            ∙ bind_run (update_code_breakpoint (two (at_a 0) (at_b 1)) (b + 2) true)
                (on_first (b + 2) b 2 (omega arith) word_c half_c true (at_a 0) (at_b 1) _
                  (ground arith))
                _
            ∙ bind_run (update_code_breakpoint (two (at_b 2) (at_b 1)) b false)
                (on_first b b 1 (omega arith) word_b half_b false (at_b 2) (at_b 1) _
                  (ground arith))
                _,
        rw (word_b, half_b) at (entry-BreaksAt no_break b (omega arith) b_low),
      )
