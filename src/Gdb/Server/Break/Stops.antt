-- ===== src/Gdb/Server/Break/Stops.antt =====
-- gdb-server.c: what a call of `update_code_breakpoint` does to the word it is for, on an FPB unit of
-- the first revision.
use native.Mathlib.Nat.{zero-add}
use libstlink.Prelude.{
  ℕ, ◌/◌, ◌^◌, ◌%◌, ◌<◌, ◌≡◌, ◌⊎◌, inl, inr, refl, some, Bool, true, false, success, failure, take,
  length, get_or, bit_and, All, List, [], ◌∷◌, zero, suc, arith,
}
use libstlink.Word.{is_set}
use libstlink.Word.Digits.{bit_and_step, bit_and-zero}
use libstlink.Stlink.{Stlink}
use libstlink.Stlink.Registers.{last_write}
use libstlink.Registers.Debug
use libstlink.Gdb.Server.Break.{
  Break, Breaks, no_break, comp_value, code_break_rev_v1, update_code_breakpoint, write_break,
  fpb_addr, find_break,
}
use libstlink.Gdb.Server.Break.Agrees.{find_break-cases, found_run, table, context, is_hit, entry}
use libstlink.Gdb.Server.Break.Halves.{BreaksAt, entry-BreaksAt, entry-not-BreaksAt}

pub even : (addr : ℕ) → addr % 2 ≡ 0 → is_set (bit_and addr 1) ≡ false
even addr h =
    let e : bit_and addr 1 ≡ 0 = omega (arith, bit_and_step addr 1, bit_and-zero (addr / 2)) in
    rw e refl

get_or-All : (bs : List Break) (i : ℕ) → All (λ b. b.type < 4) bs → (get_or bs i no_break).type < 4
get_or-All [] i all = omega arith
get_or-All (b ∷ bs) zero (small, all) = small
get_or-All (b ∷ bs) (suc i) (small, all) = get_or-All bs i all

last_write-comp :
    (s : Breaks) (addr : ℕ) (to_set : Bool) (i : ℕ) (sl : Stlink)
    → last_write (Debug.fp_comp i) (context s addr to_set i sl).history
      ≡ comp_value (entry s addr to_set i sl)
last_write-comp s addr to_set i sl = ground arith

-- On an FPB unit of the first revision (code_break_rev is CODE_BREAK_REV_V1): setting an even address below
-- 2^29, where every entry of the table is of one of the kinds 0 to 3:
-- either the call succeeds, and a comparator in use stops at the address after it, or it fails and
-- changes nothing, and every comparator in use is for another word and not free.
pub update_code_breakpoint-BreaksAt :
    (s : Breaks) (addr : ℕ) (sl : Stlink)
    → s.code_break_rev ≡ code_break_rev_v1
    → addr % 2 ≡ 0
    → addr < 2 ^ 29
    → All (λ b. b.type < 4) s.code_breaks
    → ((i : ℕ) × (s' : Breaks) × (sl' : Stlink) × (update_code_breakpoint s addr true sl
          ≡ some ((success, s'), sl'))
        × (i < length (take s.code_break_num s.code_breaks))
        × BreaksAt (last_write (Debug.fp_comp i) sl'.history) addr)
      ⊎ ((update_code_breakpoint s addr true sl ≡ some ((failure, s), sl))
          × All
              (λ b. is_hit true (fpb_addr s.code_break_rev addr) b ≡ false)
              (take s.code_break_num s.code_breaks))
unfolding update_code_breakpoint write_break
update_code_breakpoint-BreaksAt s addr sl v1 aligned low small =
    elim (find_break-cases true (fpb_addr s.code_break_rev addr) 0
      (take s.code_break_num s.code_breaks)) [
        | inl (e, others) ↦ inr (rw (even addr aligned) (rw e refl), others)
        | inr (i, e, lt, hit) ↦ inl (
          i,
          table s addr true i sl,
          context s addr true i sl,
          found_run s addr true i sl (even addr aligned) (rw (zero-add i) at e),
          lt,
          rw (last_write-comp s addr true i sl) (
              rw v1 (
                entry-BreaksAt (get_or s.code_breaks i no_break) addr
                  (get_or-All s.code_breaks i small) low)),
        )
      ]

-- On an FPB unit of the first revision (code_break_rev is CODE_BREAK_REV_V1): clearing an even address below
-- 2^29, where every entry of the table is of one of the kinds 0 to 3,
-- succeeds: the first comparator in use for the word does not stop at the address after it, or
-- nothing changes, and no comparator in use is for the word.
pub update_code_breakpoint-not-BreaksAt :
    (s : Breaks) (addr : ℕ) (sl : Stlink)
    → s.code_break_rev ≡ code_break_rev_v1
    → addr % 2 ≡ 0
    → addr < 2 ^ 29
    → All (λ b. b.type < 4) s.code_breaks
    → ((i : ℕ) × (s' : Breaks) × (sl' : Stlink) × (update_code_breakpoint s addr false sl
          ≡ some ((success, s'), sl'))
        × (find_break false (fpb_addr s.code_break_rev addr) 0 (take s.code_break_num s.code_breaks)
            ≡ some i)
        × ¬ BreaksAt (last_write (Debug.fp_comp i) sl'.history) addr)
      ⊎ ((update_code_breakpoint s addr false sl ≡ some ((success, s), sl))
          × All
              (λ b. is_hit false (fpb_addr s.code_break_rev addr) b ≡ false)
              (take s.code_break_num s.code_breaks))
unfolding update_code_breakpoint write_break
update_code_breakpoint-not-BreaksAt s addr sl v1 aligned low small =
    elim (find_break-cases false (fpb_addr s.code_break_rev addr) 0
      (take s.code_break_num s.code_breaks)) [
        | inl (e, others) ↦ inr (rw (even addr aligned) (rw e refl), others)
        | inr (i, e, lt, hit) ↦ inl (
          i,
          table s addr false i sl,
          context s addr false i sl,
          found_run s addr false i sl (even addr aligned) (rw (zero-add i) at e),
          rw (zero-add i) at e,
          rw (last_write-comp s addr false i sl) (
              rw v1 (
                entry-not-BreaksAt (get_or s.code_breaks i no_break) addr
                  (get_or-All s.code_breaks i small) low)),
        )
      ]
