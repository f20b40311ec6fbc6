-- ===== src/Flash/Verify/Bytes.antt =====
-- Bytes of a memory, and what `same_bytes` compares.
use libstlink.Prelude.{
  ℕ, zero, suc, ◌+◌, ◌%◌, ◌^◌, ◌≤◌, ◌<◌, ◌≡◌, ◌↔◌, refl, Bool, true, ◌&&◌, List, [], ◌∷◌, arith,
  length, get_or, ◌==◌,
}
use libstlink.Word.{add32}
use libstlink.Word.Align.{bit_and-three, clear-three}
use libstlink.Flash.Verify.{same_bytes, align_size}

-- The n bytes of a memory from an address on.
abbrev pub window : (ℕ → ℕ) → ℕ → ℕ → List ℕ
window mem addr zero = []
window mem addr (suc n) = mem addr ∷ window mem (addr + 1) n

pub length-window : (mem : ℕ → ℕ) (addr n : ℕ) → length (window mem addr n) ≡ n
length-window mem addr zero = refl
length-window mem addr (suc n) = omega (arith, length-window mem (addr + 1) n)

pub get_or-window :
    (mem : ℕ → ℕ) (addr n i : ℕ) → i < n → get_or (window mem addr n) i 0 ≡ mem (addr + i)
get_or-window mem addr zero i h = absurd (omega arith)
get_or-window mem addr (suc n) zero h = ground arith
get_or-window mem addr (suc n) (suc i) h =
    let same : addr + 1 + i ≡ addr + suc i = omega arith in
    rw same at (get_or-window mem (addr + 1) n i (omega arith))

equal_cons :
    (n : ℕ) {x y : ℕ} (a b : List ℕ)
    → x ≡ y
    → ((i : ℕ) → i < n → get_or a i 0 ≡ get_or b i 0)
    → (i : ℕ) → i < suc n
    → get_or (x ∷ a) i 0 ≡ get_or (y ∷ b) i 0
equal_cons n a b e f zero h = e
equal_cons n a b e f (suc i) h = f i (omega arith)

heads_and_tails : (x y : ℕ) (t : Bool) → ((x == y) && t) ≡ true → (x ≡ y) × (t ≡ true)
heads_and_tails x y t e = ground arith

-- Two buffers of n bytes are the same where all their bytes are.
pub same_bytes_iff :
    (n : ℕ) (a b : List ℕ)
    → n ≤ length a
    → n ≤ length b
    → (same_bytes n a b ≡ true) ↔ ((i : ℕ) → i < n → get_or a i 0 ≡ get_or b i 0)
unfolding same_bytes
same_bytes_iff zero a b ha hb = ((λ e i h. absurd (omega arith)), λ f. refl)
same_bytes_iff (suc n) [] b ha hb = absurd (omega arith)
same_bytes_iff (suc n) (x ∷ a) [] ha hb = absurd (omega arith)
same_bytes_iff (suc n) (x ∷ a) (y ∷ b) ha hb =
    let ih = same_bytes_iff n a b (omega arith) (omega arith) in
    (
      (λ e.
          let both = heads_and_tails x y (same_bytes n a b) e in
          equal_cons n a b both.0 (ih.0 both.1)),
      λ f. ground (arith, f 0 (omega arith), ih.1 (λ i h. f (suc i) (omega arith))),
    )

-- A size is rounded up to a multiple of 4, by less than 4.
pub align_size_lem :
    (n : ℕ) → n < 2 ^ 31 → (align_size n % 4 ≡ 0) × (n ≤ align_size n) × (align_size n < n + 4)
unfolding align_size
align_size_lem n h =
    let up : add32 n 4 ≡ n + 4 = omega arith in
    rw (bit_and-three n, up, clear-three (n + 4) (omega arith)) (ground arith)
