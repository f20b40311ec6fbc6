-- ===== src/Word/Digits.antt =====
-- `&` and `|` on the lowest binary digit, from the recursion on digits that they stand for.
use Prim.Native.Nat.{digits, bitwise, bit_and-bitwise, bit_or-bitwise}
use native.Mathlib.Nat.{zero-add}
use libstlink.Prelude.{
  ℕ, zero, suc, ◌+◌, ◌-◌, ◌*◌, ◌/◌, ◌%◌, ◌≤◌, ◌≡◌, refl, ◌∙◌, min, max, bit_and, bit_or, arith,
}

-- An operation on digits, with its value where the first number has no digits left.
module _ (rest : ℕ → ℕ) (op : ℕ → ℕ → ℕ) where
  -- Once every digit is read, one more round adds nothing.
  spare_round :
      (rounds x y : ℕ) → x ≤ rounds → digits rest op (suc rounds) x y ≡ digits rest op rounds x y
  spare_round zero zero y h = refl
  spare_round zero (suc x) y h = absurd (omega arith)
  spare_round (suc rounds) zero y h = refl
  spare_round (suc rounds) (suc x) y h =
      omega (arith, spare_round rounds (suc x / 2) (y / 2) (omega arith))

  spare_rounds :
      (spare rounds x y : ℕ)
      → x ≤ rounds
      → digits rest op (spare + rounds) x y ≡ digits rest op rounds x y
  spare_rounds zero rounds x y h = rw (zero-add rounds) refl
  spare_rounds (suc spare) rounds x y h =
      let one_more : suc spare + rounds ≡ suc (spare + rounds) = omega arith in
      rw one_more (spare_round (spare + rounds) x y (omega arith) ∙ spare_rounds spare rounds x y h)

  lowest_digit :
      (x y : ℕ)
      → bitwise rest op (suc x) y ≡ bitwise rest op (suc x / 2) (y / 2) * 2 + op (suc x % 2) (y % 2)
  lowest_digit x y =
      let half = suc x / 2 in
      let all_of_x : x - half + half ≡ x = omega arith in
      omega (arith, rw all_of_x at (spare_rounds (x - half) half half (y / 2) (omega arith)))

pub zero-bit_or : (n : ℕ) → bit_or zero n ≡ n
zero-bit_or = bit_or-bitwise zero

zero-bit_and : (n : ℕ) → bit_and zero n ≡ zero
zero-bit_and = bit_and-bitwise zero

pub bit_or_step : (x y : ℕ) → bit_or x y ≡ bit_or (x / 2) (y / 2) * 2 + max (x % 2) (y % 2)
bit_or_step zero y = omega (arith, zero-bit_or y, zero-bit_or (y / 2))
bit_or_step (suc x) y =
    rw (bit_or-bitwise (suc x) y, bit_or-bitwise (suc x / 2) (y / 2))
      (lowest_digit (λ d. d) max x y)

pub bit_and_step : (x y : ℕ) → bit_and x y ≡ bit_and (x / 2) (y / 2) * 2 + min (x % 2) (y % 2)
bit_and_step zero y = omega (arith, zero-bit_and y, zero-bit_and (y / 2))
bit_and_step (suc x) y =
    rw (bit_and-bitwise (suc x) y, bit_and-bitwise (suc x / 2) (y / 2))
      (lowest_digit (λ d. zero) min x y)

clear_all : (bound x : ℕ) → x ≤ bound → bit_and x zero ≡ zero
clear_all bound zero h = zero-bit_and zero
clear_all zero (suc x) h = absurd (omega arith)
clear_all (suc bound) (suc x) h =
    let half = clear_all bound (suc x / 2) (omega arith) in
    omega (arith, half, bit_and_step (suc x) zero)

pub bit_and-zero : (x : ℕ) → bit_and x zero ≡ zero
bit_and-zero x = clear_all x x (omega arith)
