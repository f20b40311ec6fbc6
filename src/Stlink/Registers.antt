-- ===== src/Stlink/Registers.antt =====
-- What the calls made so far have left in a register of the target that keeps what is written.
use libstlink.Prelude.{
  ℕ, zero, suc, ◌+◌, ◌≤◌, ◌≢◌, ◌≡◌, ◌∙◌, ◌==◌, if◌then◌else◌, List, [], ◌∷◌, set, arith,
}
use libstlink.Stlink.Types.{History, write_debug32}

-- The last word written at an address, and 0 before any write.
abbrev pub last_write : ℕ → History → ℕ
last_write addr [] = 0
last_write addr (write_debug32 a val ∷ h) = if a == addr then val else last_write addr h
last_write addr (call ∷ h) = last_write addr h

-- A table of slots that stand for registers: `Slot h i x` says that the registers with the index i
-- hold what the table has in x.
module _ {A : Type 0} (Slot : History → ℕ → A → Type 0) where
  -- The slots i, i + 1, …
  abbrev pub SlotsFrom : History → ℕ → List A → Type 0
  SlotsFrom h i [] = Unit
  SlotsFrom h i (x ∷ xs) = Slot h i x × SlotsFrom h (suc i) xs

  -- Calls that leave the registers alone.
  pub slots_same :
      (h h' : History) (j : ℕ) (xs : List A)
      → ((k : ℕ) (x : A) → j ≤ k → Slot h k x → Slot h' k x)
      → SlotsFrom h j xs
      → SlotsFrom h' j xs
  slots_same h h' j [] same slots = tt
  slots_same h h' j (x ∷ xs) same (slot, slots) = (
    same j x (omega arith) slot,
    slots_same h h' (suc j) xs (λ k y le. same k y (omega arith)) slots,
  )

  -- Calls that write the registers of one slot, whose entry changes with them.
  pub slots_set :
      (h h' : History) (j i : ℕ) (xs : List A) (v : A)
      → ((k : ℕ) (x : A) → k ≢ j + i → Slot h k x → Slot h' k x)
      → Slot h' (j + i) v
      → SlotsFrom h j xs
      → SlotsFrom h' j (set xs i v)
  slots_set h h' j i [] v same new slots = tt
  slots_set h h' j zero (x ∷ xs) v same new (slot, slots) =
      let here : j + 0 ≡ j = omega arith in
      (
        rw here at new,
        slots_same h h' (suc j) xs (λ k y le. same k y (λ e. absurd (omega arith))) slots,
      )
  slots_set h h' j (suc i) (x ∷ xs) v same new (slot, slots) =
      let next : j + suc i ≡ suc j + i = omega arith in
      (
        same j x (λ e. absurd (omega arith)) slot,
        slots_set h h' (suc j) i xs v (λ k y ne. same k y (λ e. ne (e ∙ next))) (rw next at new)
            slots,
      )
