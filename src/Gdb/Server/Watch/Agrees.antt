-- ===== src/Gdb/Server/Watch/Agrees.antt =====
-- gdb-server.c: the table of the data watchpoints and the comparators of the DWT unit.
use libstlink.Prelude.{
  ℕ, suc, ◌+◌, ◌<◌, ◌≡◌, ◌≢◌, ◌⊎◌, inl, inr, ◌∙◌, refl, ap, none, some, List, [], ◌∷◌, arith, true,
  false, ◌==◌, All, length, get_or, Bool-cases, not, ◌&&◌,
}
use libstlink.Stlink.{History, Call}
use libstlink.Stlink.Registers.{last_write, SlotsFrom}
use libstlink.Registers.Debug
use libstlink.Gdb.Server.Watch.{
  Watch, WatchFun, no_watch, fun_code, is_disabled, first_free, find_watch,
}

-- Comparator i holds what the table says; its address and mask count where it is in use.
pub SlotAgrees : History → ℕ → Watch → Type 0
SlotAgrees h i w =
    (last_write (Debug.dwt_fun i) h ≡ fun_code w.fun)
    × ((w.fun ≡ WatchFun.disabled)
        ⊎ ((last_write (Debug.dwt_comp i) h ≡ w.addr) × (last_write (Debug.dwt_mask i) h ≡ w.mask)))

-- A comparator whose function register is 0.
pub no_watch-SlotAgrees :
    (h : History) (i : ℕ) → last_write (Debug.dwt_fun i) h ≡ 0 → SlotAgrees h i no_watch
unfolding SlotAgrees
no_watch-SlotAgrees h i e = (e, inl refl)

-- Every comparator holds what the table says.
abbrev pub Agrees : History → List Watch → Type 0
Agrees h ws = SlotsFrom SlotAgrees h 0 ws

-- The three registers of a comparator are as they were.
pub Same : History → History → ℕ → Type 0
Same h h' k =
    (last_write (Debug.dwt_fun k) h' ≡ last_write (Debug.dwt_fun k) h)
    × (last_write (Debug.dwt_comp k) h' ≡ last_write (Debug.dwt_comp k) h)
    × (last_write (Debug.dwt_mask k) h' ≡ last_write (Debug.dwt_mask k) h)

pub Same-refl : (h : History) (k : ℕ) → Same h h k
unfolding Same
Same-refl h k = (refl, refl, refl)

pub Same-trans : (h h' h'' : History) (k : ℕ) → Same h h' k → Same h' h'' k → Same h h'' k
unfolding Same
Same-trans h h' h'' k (f, c, m) (f', c', m') = (f' ∙ f, c' ∙ c, m' ∙ m)

module _ (h h' : History) where
  pub slot-Same : (k : ℕ) (w : Watch) → Same h h' k → SlotAgrees h k w → SlotAgrees h' k w
  unfolding SlotAgrees Same
  slot-Same k w (f, c, m) (g, inl off) = (f ∙ g, inl off)
  slot-Same k w (f, c, m) (g, inr (a, b)) = (f ∙ g, inr (c ∙ a, m ∙ b))

pub fun_written :
    (i v : ℕ) (h : History) (k : ℕ) → k ≢ i → Same h (Call.write_debug32 (Debug.dwt_fun i) v ∷ h) k
unfolding Same
fun_written i v h k ne = (ground arith, ground arith, ground arith)

-- What `insert_watch` and `remove_watch` add to the history.
module _ (h : History) (i addr mask code : ℕ) where
  abbrev pub inserted : History
  inserted =
      Call.read_debug32 (Debug.dwt_fun i)
      ∷ Call.write_debug32 (Debug.dwt_fun i) code
      ∷ Call.write_debug32 (Debug.dwt_mask i) mask
      ∷ Call.write_debug32 (Debug.dwt_comp i) addr
      ∷ h

  pub inserted_other : (k : ℕ) → k ≢ i → Same h inserted k
  unfolding Same
  inserted_other k ne = (ground arith, ground arith, ground arith)

  pub inserted_slot :
      (wf : WatchFun)
      → code ≡ fun_code wf
      → SlotAgrees inserted i (record { addr = addr; mask = mask; fun = wf })
  unfolding SlotAgrees
  inserted_slot wf e = (ground arith, inr (ground arith, ground arith))

-- The registers of comparator i after its function is cleared.
pub cleared_slot :
    (h : History) (i : ℕ) (w : Watch)
    → SlotAgrees
        (Call.write_debug32 (Debug.dwt_fun i) 0 ∷ h)
        i
        (record w { fun = WatchFun.disabled })
unfolding SlotAgrees
cleared_slot h i w = (ground arith, inl refl)

-- The comparator that is filled: the first one that is not in use.
pub first_free-cases :
    (j : ℕ) (ws : List Watch)
    → ((first_free j ws ≡ none) × All (λ w. is_disabled w.fun ≡ false) ws)
      ⊎ ((i : ℕ) × (first_free j ws ≡ some (j + i))
          × (i < length ws)
          × (is_disabled (get_or ws i no_watch).fun ≡ true))
unfolding first_free
first_free-cases j [] = inl (refl, tt)
first_free-cases j (w ∷ ws) = elim (Bool-cases (is_disabled w.fun)) [
  | inl off ↦ inr (0, rw off (ap some (omega arith)), omega arith, off)
  | inr on ↦ elim (first_free-cases (suc j) ws) [
    | inl (none_free, used) ↦ inl (rw on none_free, (on, used))
    | inr (i, found, lt, off) ↦ inr (suc i, rw on (found ∙ ap some (omega arith)), omega arith, off)
  ]
]

pub find_watch-cases :
    (addr j : ℕ) (ws : List Watch)
    → ((find_watch addr j ws ≡ none)
        × All (λ w. ((w.addr == addr) && not (is_disabled w.fun)) ≡ false) ws)
      ⊎ ((i : ℕ) × (find_watch addr j ws ≡ some (j + i))
          × (i < length ws)
          × (((get_or ws i no_watch).addr == addr) && not (is_disabled (get_or ws i no_watch).fun)
              ≡ true))
unfolding find_watch
find_watch-cases addr j [] = inl (refl, tt)
find_watch-cases addr j (w ∷ ws) = elim (Bool-cases ((w.addr == addr) && not (is_disabled w.fun))) [
  | inl here ↦ inr (0, rw here (ap some (omega arith)), omega arith, here)
  | inr away ↦ elim (find_watch-cases addr (suc j) ws) [
    | inl (missing, others) ↦ inl (rw away missing, (away, others))
    | inr (i, found, lt, hit) ↦
        inr (suc i, rw away (found ∙ ap some (omega arith)), omega arith, hit)
  ]
]
