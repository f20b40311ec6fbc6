-- ===== src/Gdb/Server/Break/Agrees.antt =====
-- gdb-server.c: the table of the code breakpoints and the comparators of the FPB unit.
use libstlink.Prelude.{
  ℕ, zero, suc, ◌+◌, ◌<◌, ◌≡◌, ◌≢◌, ◌⊎◌, inl, inr, ◌∙◌, refl, sym, ap, ◌&&◌, ◌||◌, Bool, true,
  false, Bool-cases, none, some, List, [], ◌∷◌, ℤ, success, failure, bit_and, get_or, get_or-take,
  set, take, length, All, ◌==◌, if◌then◌else◌, arith,
}
use native.Mathlib.Nat.{zero-add}
use libstlink.Word.{is_set}
use libstlink.Stlink.{Stlink, History, Call}
use libstlink.Stlink.Registers.{last_write, SlotsFrom, slots_set}
use libstlink.Stlink.ReadWrite.{stlink_write_debug32}
use libstlink.Registers.Debug
use libstlink.Gdb.Server.Break.{
  Break, Breaks, no_break, find_break, comp_value, changed, write_break, update_code_breakpoint,
  break_type, fpb_addr,
}

pub CompAgrees : History → ℕ → Break → Type 0
CompAgrees h i b = last_write (Debug.fp_comp i) h ≡ comp_value b

-- The comparators in use hold what the table says.
abbrev pub Agrees : History → Breaks → Type 0
Agrees h s = SlotsFrom CompAgrees h 0 (take s.code_break_num s.code_breaks)

pub comp_other :
    (h : History) (i v k : ℕ) (b : Break)
    → k ≢ i
    → CompAgrees h k b
    → CompAgrees (Call.write_debug32 (Debug.fp_comp i) v ∷ h) k b
unfolding CompAgrees
comp_other h i v k b ne agrees = ground arith

pub comp_self :
    (h : History) (i : ℕ) (b : Break)
    → CompAgrees (Call.write_debug32 (Debug.fp_comp i) (comp_value b) ∷ h) i b
unfolding CompAgrees
comp_self h i b = ground arith

-- Entries of the part of the table that is in use.
pub take-set : (n i : ℕ) (bs : List Break) (b : Break) → take n (set bs i b) ≡ set (take n bs) i b
take-set zero i bs b = refl
take-set (suc n) i [] b = refl
take-set (suc n) zero (x ∷ bs) b = refl
take-set (suc n) (suc i) (x ∷ bs) b = ap (x ∷◌) (take-set n i bs b)

below : (n i : ℕ) (bs : List Break) → i < length (take n bs) → i < n
below zero i bs h = absurd (omega arith)
below (suc n) i [] h = absurd (omega arith)
below (suc n) zero (x ∷ bs) h = omega arith
below (suc n) (suc i) (x ∷ bs) h = omega (arith, below n i bs (omega arith))

abbrev pub is_hit : Bool → ℕ → Break → Bool
is_hit to_set addr b = (addr == b.addr) || (to_set && (b.type == 0))

pub find_break-cases :
    (to_set : Bool) (addr j : ℕ) (bs : List Break)
    → ((find_break to_set addr j bs ≡ none) × All (λ b. is_hit to_set addr b ≡ false) bs)
      ⊎ ((i : ℕ) × (find_break to_set addr j bs ≡ some (j + i))
          × (i < length bs)
          × (is_hit to_set addr (get_or bs i no_break) ≡ true))
unfolding find_break
find_break-cases to_set addr j [] = inl (refl, tt)
find_break-cases to_set addr j (b ∷ bs) = elim (Bool-cases (is_hit to_set addr b)) [
  | inl here ↦ inr (0, rw here (ap some (omega arith)), omega arith, here)
  | inr away ↦ elim (find_break-cases to_set addr (suc j) bs) [
    | inl (missing, others) ↦ inl (rw away missing, (away, others))
    | inr (i, found, lt, hit) ↦
        inr (suc i, rw away (found ∙ ap some (omega arith)), omega arith, hit)
  ]
]

-- The entry, the table and the context after a call that has found comparator i.
module _ (s : Breaks) (addr : ℕ) (to_set : Bool) (i : ℕ) (sl : Stlink) where
  abbrev pub entry : Break
  entry =
      changed to_set (fpb_addr s.code_break_rev addr) (break_type s.code_break_rev addr)
        (get_or s.code_breaks i no_break)

  abbrev pub table : Breaks
  table = record s { code_breaks = set s.code_breaks i entry }

  abbrev pub context : Stlink
  context = record sl {
    history = Call.write_debug32 (Debug.fp_comp i) (comp_value entry) ∷ sl.history;
  }

  pub found_run :
      is_set (bit_and addr 1) ≡ false
      → find_break to_set (fpb_addr s.code_break_rev addr) 0 (take s.code_break_num s.code_breaks)
        ≡ some i
      → update_code_breakpoint s addr to_set sl ≡ some ((success, table), context)
  unfolding update_code_breakpoint write_break stlink_write_debug32
  found_run even found = rw even (rw found refl)

  pub context-Agrees : Agrees sl.history s → Agrees context.history table
  context-Agrees agrees =
      let here : 0 + i ≡ i = zero-add i in
      rw (take-set s.code_break_num i s.code_breaks entry) (
        slots_set CompAgrees sl.history _ 0 i (take s.code_break_num s.code_breaks) entry
          (λ k b ne. comp_other sl.history i (comp_value entry) k b (λ e. ne (e ∙ sym here)))
          (rw here (comp_self sl.history i entry)) agrees)

-- Where `update_code_breakpoint` may end with this result, table and context.
pub Updated : Breaks → ℕ → Bool → Stlink → ℤ → Breaks → Stlink → Type 0
Updated s addr to_set sl ret s' sl' =
    ((is_set (bit_and addr 1) ≡ true) × (ret ≡ failure) × (s' ≡ s) × (sl' ≡ sl))
    ⊎ ((ret ≡ (if to_set then failure else success))
        × (s' ≡ s)
        × (sl' ≡ sl)
        × All (λ b. is_hit to_set (fpb_addr s.code_break_rev addr) b ≡ false)
            (take s.code_break_num s.code_breaks))
    ⊎ ((i : ℕ) × (i < length (take s.code_break_num s.code_breaks))
        × (is_hit to_set (fpb_addr s.code_break_rev addr) (get_or s.code_breaks i no_break) ≡ true)
        × (ret ≡ success)
        × (s' ≡ table s addr to_set i sl)
        × (sl' ≡ context s addr to_set i sl))

-- Where the table agrees with the comparators before the call, `update_code_breakpoint` returns and
-- they agree after it. Either the address is odd, and the call fails and changes nothing; or no
-- comparator is at the word of the address nor, to set, free, and the call changes nothing and fails
-- if it was to set; or one comparator and its entry are written.
pub update_code_breakpoint-Agrees :
    (s : Breaks) (addr : ℕ) (to_set : Bool) (sl : Stlink)
    → Agrees sl.history s
    → (ret : ℤ) × (s' : Breaks) × (sl' : Stlink) × (update_code_breakpoint s addr to_set sl
        ≡ some ((ret, s'), sl'))
      × Agrees sl'.history s'
      × Updated s addr to_set sl ret s' sl'
unfolding Updated update_code_breakpoint write_break
update_code_breakpoint-Agrees s addr to_set sl agrees =
    elim (Bool-cases (is_set (bit_and addr 1))) [
      | inl odd ↦ (failure, s, sl, rw odd refl, agrees, inl (odd, refl, refl, refl))
      | inr even ↦
          elim (find_break-cases to_set (fpb_addr s.code_break_rev addr) 0
            (take s.code_break_num s.code_breaks)) [
              | inl (e, others) ↦ (
                if to_set then failure else success,
                s,
                sl,
                rw even (rw e refl),
                agrees,
                inr (inl (refl, refl, refl, others)),
              )
              | inr (i, e, lt, hit) ↦ (
                success,
                table s addr to_set i sl,
                context s addr to_set i sl,
                found_run s addr to_set i sl even (rw (zero-add i) at e),
                context-Agrees s addr to_set i sl agrees,
                inr (
                    inr (
                      i,
                      lt,
                      rw
                          (get_or-take s.code_break_num s.code_breaks i no_break
                            (below s.code_break_num i s.code_breaks lt))
                          at hit,
                      refl,
                      refl,
                      refl,
                    )),
              )
            ]
    ]
