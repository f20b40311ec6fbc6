-- ===== src/Word/Bits.antt =====
-- The bits of a number, and what `&` and `|` do to each of them.
use native.Mathlib.Nat.{pow-suc}
use libstlink.Word.Digits.{zero-bit_or, bit_and_step, bit_or_step, bit_and-zero}
use libstlink.Prelude.{
  ℕ, zero, suc, ◌+◌, ◌-◌, ◌*◌, ◌/◌, ◌%◌, ◌^◌, ◌≤◌, ◌<◌, ◌≡◌, ◌≢◌, refl, ap, min, max, bit_and,
  bit_or, arith,
}

-- Bit k of n, as 0 or 1.
unfoldable pub bit : ℕ → ℕ → ℕ
bit zero n = n % 2
bit (suc k) n = bit k (n / 2)

-- One more bit doubles the power.
pow_step : (k : ℕ) → 2 ^ suc k ≡ 2 * 2 ^ k
pow_step k = omega (arith, pow-suc 2 k)

-- `|` of numbers with no bit in common is their sum: the second has no bit below k.
pub bit_or-eq-add : (k a b : ℕ) → a < 2 ^ k → bit_or a (b * 2 ^ k) ≡ a + b * 2 ^ k
bit_or-eq-add zero a b h =
    let e : a ≡ 0 = omega arith in rw e (omega (arith, zero-bit_or (b * 2 ^ 0)))
bit_or-eq-add (suc k) a b h =
    let p : 2 ^ suc k ≡ 2 * 2 ^ k = pow_step k in
    let d : b * 2 ^ suc k ≡ 2 * (b * 2 ^ k) = rw p (grind arith) in
    let half : 2 * (b * 2 ^ k) / 2 ≡ b * 2 ^ k = omega arith in
    let step = bit_or_step a (2 * (b * 2 ^ k)) in
    let ih = bit_or-eq-add k (a / 2) b (omega arith) in rw d (omega (arith, rw half at step))

pub bit-bit_or : (k a b : ℕ) → bit k (bit_or a b) ≡ max (bit k a) (bit k b)
unfolding bit
bit-bit_or zero a b = omega (arith, bit_or_step a b)
bit-bit_or (suc k) a b =
    let half : bit_or a b / 2 ≡ bit_or (a / 2) (b / 2) = omega (arith, bit_or_step a b) in
    rw half (bit-bit_or k (a / 2) (b / 2))

pub bit-bit_and : (k a b : ℕ) → bit k (bit_and a b) ≡ min (bit k a) (bit k b)
unfolding bit
bit-bit_and zero a b = omega (arith, bit_and_step a b)
bit-bit_and (suc k) a b =
    let half : bit_and a b / 2 ≡ bit_and (a / 2) (b / 2) = omega (arith, bit_and_step a b) in
    rw half (bit-bit_and k (a / 2) (b / 2))

pub bit_le : (k a : ℕ) → bit k a ≤ 1
unfolding bit
bit_le zero a = omega arith
bit_le (suc k) a = bit_le k (a / 2)

-- The complement in w bits flips each of them.
bit_complement : (w k m : ℕ) → k < w → m < 2 ^ w → bit k (2 ^ w - 1 - m) ≡ 1 - bit k m
unfolding bit
bit_complement zero k m h lt = absurd (omega arith)
bit_complement (suc w) zero m h lt = omega (arith, pow_step w)
bit_complement (suc w) (suc k) m h lt =
    let half : (2 ^ suc w - 1 - m) / 2 ≡ 2 ^ w - 1 - m / 2 = omega (arith, pow_step w) in
    rw half (bit_complement w k (m / 2) (omega arith) (omega (arith, pow_step w)))

pub bit-complement32 : (k m : ℕ) → k < 32 → m < 2 ^ 32 → bit k (0xffffffff - m) ≡ 1 - bit k m
bit-complement32 k m h lt = bit_complement 32 k m h lt

-- `n & (1 << k)` is the bit k of n in its place.
pub bit_and_pow : (k n : ℕ) → bit_and n (2 ^ k) ≡ bit k n * 2 ^ k
unfolding bit
bit_and_pow zero n = omega (arith, bit_and_step n 1, bit_and-zero (n / 2))
bit_and_pow (suc k) n =
    let half : 2 ^ suc k / 2 ≡ 2 ^ k = omega (arith, pow_step k) in
    let even : 2 ^ suc k % 2 ≡ 0 = omega (arith, pow_step k) in
    let ih = bit_and_pow k (n / 2) in
    let step = rw half at (bit_and_step n (2 ^ suc k)) in
    let even_min : min (n % 2) (2 ^ suc k % 2) ≡ 0 = omega (arith, even) in
    let scaled : bit k (n / 2) * 2 ^ suc k ≡ bit k (n / 2) * 2 ^ k * 2 =
      rw (pow_step k) (grind arith) in
    omega (arith, step, ih, even_min, scaled)

-- `n & 0xff…f` is n.
pub bit_and_ones : (w n : ℕ) → n < 2 ^ w → bit_and n (2 ^ w - 1) ≡ n
bit_and_ones zero n h = omega (arith, bit_and-zero n)
bit_and_ones (suc w) n h =
    let half : (2 ^ suc w - 1) / 2 ≡ 2 ^ w - 1 = omega (arith, pow_step w) in
    let step = rw half at (bit_and_step n (2 ^ suc w - 1)) in
    omega (arith, step, bit_and_ones w (n / 2) (omega (arith, pow_step w)), pow_step w)

pow_lt : (k w : ℕ) → k < w → 2 ^ k < 2 ^ w
pow_lt k zero h = absurd (omega arith)
pow_lt zero (suc zero) h = omega (arith, pow_step 0)
pow_lt zero (suc (suc w)) h = omega (arith, pow_step (suc w), pow_lt zero (suc w) (omega arith))
pow_lt (suc k) (suc w) h = omega (arith, pow_step k, pow_step w, pow_lt k w (omega arith))

pub bit_pow_le : (k n : ℕ) → bit k n * 2 ^ k ≤ n
unfolding bit
bit_pow_le zero n = omega arith
bit_pow_le (suc k) n =
    let scaled : bit k (n / 2) * 2 ^ suc k ≡ bit k (n / 2) * 2 ^ k * 2 =
      rw (pow_step k) (grind arith) in
    omega (arith, scaled, bit_pow_le k (n / 2))

bit_and_without :
    (w k n : ℕ) → k < w → n < 2 ^ w → bit_and n (2 ^ w - 1 - 2 ^ k) ≡ n - bit k n * 2 ^ k
unfolding bit
bit_and_without zero k n h lt = absurd (omega arith)
bit_and_without (suc w) zero n h lt =
    let half : (2 ^ suc w - 1 - 2 ^ 0) / 2 ≡ 2 ^ w - 1 = omega (arith, pow_step w) in
    let step = rw half at (bit_and_step n (2 ^ suc w - 1 - 2 ^ 0)) in
    omega (arith, step, bit_and_ones w (n / 2) (omega (arith, pow_step w)), pow_step w)
bit_and_without (suc w) (suc k) n h lt =
    let half : (2 ^ suc w - 1 - 2 ^ suc k) / 2 ≡ 2 ^ w - 1 - 2 ^ k =
      omega (arith, pow_step w, pow_step k) in
    let step = rw half at (bit_and_step n (2 ^ suc w - 1 - 2 ^ suc k)) in
    let scaled : bit k (n / 2) * 2 ^ suc k ≡ bit k (n / 2) * 2 ^ k * 2 =
      rw (pow_step k) (grind arith) in
    let below = pow_lt k w (omega arith) in
    let ih = bit_and_without w k (n / 2) (omega arith) (omega (arith, pow_step w)) in
    omega (arith, step, ih, scaled, pow_step w, pow_step k, bit_pow_le k (n / 2))

-- `n & ~(1 << k)` takes the bit k out.
pub bit_and_not_pow :
    (k n : ℕ) → k < 32 → n < 2 ^ 32 → bit_and n (0xffffffff - 2 ^ k) ≡ n - bit k n * 2 ^ k
bit_and_not_pow k n h lt = bit_and_without 32 k n h lt

bit_or_comm_fuel : (n a b : ℕ) → a ≤ n → b ≤ n → bit_or a b ≡ bit_or b a
bit_or_comm_fuel zero zero zero h k = refl
bit_or_comm_fuel zero zero (suc b) h k = absurd (omega arith)
bit_or_comm_fuel zero (suc a) b h k = absurd (omega arith)
bit_or_comm_fuel (suc n) a b h k = omega (
  arith,
  bit_or_step a b,
  bit_or_step b a,
  bit_or_comm_fuel n (a / 2) (b / 2) (omega arith) (omega arith),
)

pub bit_or_comm : (a b : ℕ) → bit_or a b ≡ bit_or b a
bit_or_comm a b = bit_or_comm_fuel (max a b) a b (omega arith) (omega arith)

pub pow_pos : (k : ℕ) → 0 < 2 ^ k
pow_pos zero = omega arith
pow_pos (suc k) = omega (arith, pow_step k, pow_pos k)

pub bit_pow_self : (k : ℕ) → bit k (2 ^ k) ≡ 1
unfolding bit
bit_pow_self zero = refl
bit_pow_self (suc k) =
    let half : 2 ^ suc k / 2 ≡ 2 ^ k = omega (arith, pow_step k) in rw half (bit_pow_self k)

bit-zero : (k : ℕ) → bit k 0 ≡ 0
unfolding bit
bit-zero zero = refl
bit-zero (suc k) = bit-zero k

pub bit_pow_ne : (j k : ℕ) → j ≢ k → bit j (2 ^ k) ≡ 0
unfolding bit
bit_pow_ne zero zero h = absurd (h refl)
bit_pow_ne zero (suc k) h = omega (arith, pow_step k)
bit_pow_ne (suc j) zero h = bit-zero j
bit_pow_ne (suc j) (suc k) h =
    let half : 2 ^ suc k / 2 ≡ 2 ^ k = omega (arith, pow_step k) in
    rw half (bit_pow_ne j k (λ e. h (ap suc e)))

-- `(n | 1 << k) & 1 << k` is not 0.
pub set_bit_is_set : (k n : ℕ) → 0 < bit_and (bit_or n (2 ^ k)) (2 ^ k)
set_bit_is_set k n =
    let one : bit k (bit_or n (2 ^ k)) ≡ 1 =
      omega (arith, bit-bit_or k n (2 ^ k), bit_pow_self k, bit_le k n) in
    rw (bit_and_pow k (bit_or n (2 ^ k)), one) (omega (arith, pow_pos k))
