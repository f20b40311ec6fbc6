-- ===== src/Gdb/Server/Watch/Mask.antt =====
-- gdb-server.c: the mask that `add_data_watchpoint` computes for a length.
use libstlink.Prelude.{
  ◌⊎◌, ℕ, zero, suc, ◌+◌, ◌-◌, ◌*◌, ◌/◌, ◌^◌, ◌≤◌, ◌<◌, ◌≡◌, ◌∙◌, refl, ap, none, some, pos, negsuc,
  List, arith, ltb, ltb→lt, ltb→le, Bool-cases, inl, inr,
}
use native.Mathlib.Nat.{pow-suc}
use libstlink.Word.Bits.{pow_pos}
use libstlink.Word.{add32, uint32_max, as_int32}
use libstlink.Stlink.{Stlink}
use libstlink.Gdb.Server.Watch.{Watch, WatchFun, mask_loop, add_data_watchpoint, insert_masked}

pow_step : (k : ℕ) → 2 ^ suc k ≡ 2 * 2 ^ k
pow_step k = omega (arith, pow-suc 2 k)

add32_one : (m : ℕ) → m + 1 < 2 ^ 32 → add32 m 1 ≡ suc m
add32_one m h = omega arith

-- A round of the loop on a number that is not 0.
mask_loop_round :
    (fuel n m : ℕ)
    → 0 < n
    → mask_loop (suc fuel) (pos n) m ≡ mask_loop fuel (pos (n / 2)) (add32 m 1)
unfolding mask_loop
mask_loop_round fuel zero m h = absurd (omega arith)
mask_loop_round fuel (suc n) m h = refl

mask_loop_end : (fuel n m : ℕ) → n ≡ 0 → mask_loop (suc fuel) (pos n) m ≡ some m
unfolding mask_loop
mask_loop_end fuel zero m h = refl
mask_loop_end fuel (suc n) m h = absurd (omega arith)

-- From m rounds on, a number of k + 1 binary digits takes k + 1 more.
mask_loop_digits :
    (k fuel n m : ℕ)
    → 2 ^ k ≤ n
    → n < 2 ^ suc k
    → suc k < fuel
    → m + suc k < 2 ^ 32
    → mask_loop fuel (pos n) m ≡ some (m + suc k)
mask_loop_digits k zero n m low high enough small = absurd (omega arith)
mask_loop_digits k (suc zero) n m low high enough small = absurd (omega arith)
mask_loop_digits zero (suc (suc fuel)) n m low high enough small =
    mask_loop_round (suc fuel) n m (omega arith)
    ∙ mask_loop_end fuel (n / 2) (add32 m 1) (omega arith)
    ∙ ap some (omega arith)
mask_loop_digits (suc k) (suc (suc fuel)) n m low high enough small =
    mask_loop_round (suc fuel) n m (omega (arith, pow_pos (suc k)))
    ∙ ap (mask_loop (suc fuel) (pos (n / 2))) (add32_one m (omega arith))
    ∙ mask_loop_digits k (suc fuel) (n / 2) (suc m) (omega (arith, pow_step k))
        (omega (arith, pow_step (suc k))) (omega arith) (omega arith)
    ∙ ap some (omega arith)

-- A negative number does not reach 0.
mask_loop_negative : (fuel n m : ℕ) → mask_loop fuel (negsuc n) m ≡ none
unfolding mask_loop
mask_loop_negative zero n m = refl
mask_loop_negative (suc fuel) n m = mask_loop_negative fuel (n / 2) (add32 m 1)

as_int32_low : (n : ℕ) → n < 2 ^ 31 → as_int32 n ≡ pos n
as_int32_low n h = ground arith

as_int32_high : (n : ℕ) → 2 ^ 31 ≤ n → as_int32 n ≡ negsuc (uint32_max - n)
as_int32_high n h = ground arith

-- The first round takes the mask from -1 to 0, so the loop counts one digit less.
pub mask_loop_lem :
    (k fuel len : ℕ)
    → 2 ^ k ≤ len
    → len < 2 ^ suc k
    → len < 2 ^ 31
    → suc k < fuel
    → k < 2 ^ 31
    → mask_loop fuel (as_int32 len) uint32_max ≡ some k
mask_loop_lem k zero len low high small enough short = absurd (omega arith)
mask_loop_lem zero (suc zero) len low high small enough short = absurd (omega arith)
mask_loop_lem zero (suc (suc fuel)) len low high small enough short =
    ap (λ i. mask_loop (suc (suc fuel)) i uint32_max) (as_int32_low len small)
    ∙ mask_loop_round (suc fuel) len uint32_max (omega arith)
    ∙ mask_loop_end fuel (len / 2) 0 (omega arith)
mask_loop_lem (suc k) (suc fuel) len low high small enough short =
    ap (λ i. mask_loop (suc fuel) i uint32_max) (as_int32_low len small)
    ∙ mask_loop_round fuel len uint32_max (omega (arith, pow_pos (suc k)))
    ∙ mask_loop_digits k fuel (len / 2) 0 (omega (arith, pow_step k))
        (omega (arith, pow_step (suc k))) (omega arith) (omega arith)
    ∙ ap some (omega arith)

-- Every number above 0 has a number of binary digits.
digits_of : (b n : ℕ) → 0 < n → n < 2 ^ b → (k : ℕ) × (k < b) × (2 ^ k ≤ n) × (n < 2 ^ suc k)
digits_of zero n h bound = absurd (omega arith)
digits_of (suc b) n h bound = elim (Bool-cases (ltb n (2 ^ b))) [
  | inl low ↦
      (let (k, lt, le, up) = digits_of b n h (ltb→lt n (2 ^ b) low) in (k, omega arith, le, up))
  | inr high ↦ (b, omega arith, ltb→le n (2 ^ b) high, bound)
]

-- The mask for a length: the position of its highest binary digit, and -1 for 0.
pub MaskOf : ℕ → ℕ → Type 0
MaskOf len mask = ((len ≡ 0) × (mask ≡ uint32_max)) ⊎ ((2 ^ mask ≤ len) × (len < 2 ^ suc mask))

-- The loop ends for every length below 2^31.
pub mask_loop_ends :
    (len : ℕ)
    → len < 2 ^ 31
    → (mask : ℕ) × (mask_loop 33 (as_int32 len) uint32_max ≡ some mask) × MaskOf len mask
unfolding MaskOf
mask_loop_ends zero h = (
  uint32_max,
  ap (λ i. mask_loop 33 i uint32_max) (as_int32_low 0 h) ∙ mask_loop_end 32 0 uint32_max refl,
  inl (refl, refl),
)
mask_loop_ends (suc n) h =
    let (k, lt, le, up) = digits_of 31 (suc n) (omega arith) h in
    (k, mask_loop_lem k 33 (suc n) le up h (omega arith) (omega arith), inr (le, up))

-- A length of 2^31 and more is negative as an int32_t, and the loop that computes its mask does not
-- end, whatever its fuel.
pub add_data_watchpoint_negative :
    (fuel : ℕ) (wf : WatchFun) (addr len : ℕ) (watches : List Watch) (sl : Stlink)
    → 2 ^ 31 ≤ len
    → add_data_watchpoint fuel wf addr len watches sl ≡ none
unfolding add_data_watchpoint insert_masked
add_data_watchpoint_negative fuel wf addr len watches sl h =
    ap (λ mask. insert_masked wf addr watches mask sl)
      (ap (λ i. mask_loop fuel i uint32_max) (as_int32_high len h)
        ∙ mask_loop_negative fuel (uint32_max - len) uint32_max)
