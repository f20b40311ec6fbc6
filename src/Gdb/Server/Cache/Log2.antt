-- ===== src/Gdb/Server/Cache/Log2.antt =====
-- gdb-server.c: `ceil_log2`.
use libstlink.Prelude.{
  ℕ, zero, suc, ◌+◌, ◌^◌, ◌≤◌, ◌<◌, ◌≡◌, inl, inr, refl, Bool-cases, some, ltb, ltb→lt, ltb→le,
  arith,
}
use native.Mathlib.Nat.{pow-le-pow_right}
use libstlink.Word.{shl32}
use libstlink.Gdb.Server.Cache.{ceil_log2, log2_from}

two_pow_le : (i j : ℕ) → i ≤ j → 2 ^ i ≤ 2 ^ j
two_pow_le i j h = pow-le-pow_right {n = 2} (omega arith) {i = i} {j = j} h

-- 1 << r below the width of the word.
shl32_one : (r : ℕ) → r < 32 → shl32 1 r ≡ 2 ^ r
shl32_one r h = omega (arith, two_pow_le r 31 (omega arith))

exponent_small : (r v : ℕ) → 2 ^ r < v → v ≤ 2 ^ 31 → suc r ≤ 31
exponent_small r v less small = elim (Bool-cases (ltb r 31)) [
  | inl lt ↦ ltb→lt r 31 lt
  | inr ge ↦ absurd (omega (arith, two_pow_le 31 r (ltb→le r 31 ge)))
]

one_more : (r v : ℕ) → 2 ^ r < v → ((k : ℕ) → k < r → 2 ^ k < v) → (k : ℕ) → k < suc r → 2 ^ k < v
one_more r v less below k h = elim (Bool-cases (ltb k r)) [
  | inl lt ↦ below k (ltb→lt k r lt)
  | inr ge ↦ (let same : k ≡ r = omega (arith, ltb→le k r ge) in rw same less)
]

log2_from_lem :
    (fuel v r : ℕ)
    → v ≤ 2 ^ 31
    → fuel + r ≡ 33
    → r ≤ 31
    → ((k : ℕ) → k < r → 2 ^ k < v)
    → (n : ℕ) × (log2_from fuel v r ≡ some n)
      × (n ≤ 31)
      × (v ≤ 2 ^ n)
      × ((k : ℕ) → k < n → 2 ^ k < v)
unfolding log2_from
log2_from_lem zero v r small total short below = absurd (omega arith)
log2_from_lem (suc fuel) v r small total short below = elim (Bool-cases (ltb (shl32 1 r) v)) [
  | inr enough ↦ (
    r,
    rw enough refl,
    short,
    omega (arith, shl32_one r (omega arith), ltb→le (shl32 1 r) v enough),
    below,
  )
  | inl more ↦
      (let less : 2 ^ r < v = omega (arith, shl32_one r (omega arith), ltb→lt (shl32 1 r) v more) in
        let (n, run, le, up, first) =
          log2_from_lem fuel v (suc r) small (omega arith) (exponent_small r v less small)
            (one_more r v less below) in
        (n, rw more run, le, up, first))
]

-- For a value of at most 2^31 the loop of `ceil_log2` ends, and its result n is the least number with
-- v ≤ 2^n.
pub ceil_log2_lem :
    (v : ℕ)
    → v ≤ 2 ^ 31
    → (n : ℕ) × (ceil_log2 v ≡ some n) × (n ≤ 31) × (v ≤ 2 ^ n) × ((k : ℕ) → k < n → 2 ^ k < v)
unfolding ceil_log2
ceil_log2_lem v small = log2_from_lem 33 v 0 small refl (omega arith) (λ k h. absurd (omega arith))
