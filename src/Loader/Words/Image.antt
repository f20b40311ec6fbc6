-- ===== src/Loader/Words/Image.antt =====
-- flash_loader.c: the bytes of the words and rows that `stlink_flashloader_write` puts together.
use libstlink.Prelude.{
  ℕ, zero, suc, ◌+◌, ◌-◌, ◌*◌, ◌^◌, ◌≤◌, ◌<◌, ◌≡◌, ◌∙◌, refl, inl, inr, List, [], ◌∷◌, arith, ltb,
  if◌then◌else◌, get_or, take, drop, All, Bool-cases, get_or-take, get_or-take_ge, get_or-drop,
}
use libstlink.Word.{sub32, u32_mod}
use libstlink.Stlink.ReadWrite.{read_uint32}
use libstlink.Stlink.ReadWrite.Endian.{join_four}
use libstlink.Stlink.Image.{word_byte}
use libstlink.Loader.Words.{at_most, word_of}

-- The elements are bytes.
abbrev pub IsBytes : List ℕ → Type 0
IsBytes base = All (λ byte. byte < 256) base

pub get_or-IsBytes : (base : List ℕ) (i : ℕ) → IsBytes base → get_or base i 0 < 256
get_or-IsBytes [] i bytes = omega arith
get_or-IsBytes (x ∷ xs) zero (here, rest) = here
get_or-IsBytes (x ∷ xs) (suc i) (here, rest) = get_or-IsBytes xs i rest

-- The bytes below len, and a filler from there on.
abbrev pub padded_image : List ℕ → ℕ → ℕ → ℕ → ℕ
padded_image base len filler i = if ltb i len then get_or base i 0 else filler

word_byte-sum :
    (a b c d k : ℕ)
    → a < 256
    → b < 256
    → c < 256
    → d < 256
    → k < 4
    → word_byte (a + b * 2 ^ 8 + c * 2 ^ 16 + d * 2 ^ 24) k ≡ get_or (a ∷ b ∷ c ∷ d ∷ []) k 0
word_byte-sum a b c d zero ha hb hc hd lt = omega arith
word_byte-sum a b c d (suc zero) ha hb hc hd lt = omega arith
word_byte-sum a b c d (suc (suc zero)) ha hb hc hd lt = omega arith
word_byte-sum a b c d (suc (suc (suc zero))) ha hb hc hd lt = omega arith
word_byte-sum a b c d (suc (suc (suc (suc k)))) ha hb hc hd lt = absurd (omega arith)

first_four :
    (xs : List ℕ) (k : ℕ)
    → k < 4
    → get_or (get_or xs 0 0 ∷ get_or xs 1 0 ∷ get_or xs 2 0 ∷ get_or xs 3 0 ∷ []) k 0
      ≡ get_or xs k 0
first_four xs zero lt = refl
first_four xs (suc zero) lt = refl
first_four xs (suc (suc zero)) lt = refl
first_four xs (suc (suc (suc zero))) lt = refl
first_four xs (suc (suc (suc (suc k)))) lt = absurd (omega arith)

pub word_byte-word_of :
    (xs : List ℕ) (k : ℕ)
    → ((i : ℕ) → get_or xs i 0 < 256)
    → k < 4
    → word_byte (word_of xs) k ≡ get_or xs k 0
unfolding word_of read_uint32
word_byte-word_of xs k bytes lt =
    let joined =
      join_four (get_or xs 0 0) (get_or xs 1 0) (get_or xs 2 0) (get_or xs 3 0) (bytes 0) (bytes 1)
        (bytes 2) (bytes 3) in
    rw joined
      (word_byte-sum _ _ _ _ k (bytes 0) (bytes 1) (bytes 2) (bytes 3) lt ∙ first_four xs k lt)

-- A slice of the data that ends with the data.
pub get_or-slice :
    (base : List ℕ) (len off n k : ℕ)
    → off < len
    → len < u32_mod
    → k < n
    → get_or (take (at_most (sub32 len off) n) (drop off base)) k 0
      ≡ padded_image base len 0 (off + k)
get_or-slice base len off n k below small lt =
    let left : sub32 len off ≡ len - off = omega arith in
    elim (Bool-cases (ltb (off + k) len)) [
      | inl inside ↦
          let in_slice : k < at_most (sub32 len off) n = ground arith in
          rw inside (
            get_or-take (at_most (sub32 len off) n) (drop off base) k 0 in_slice
            ∙ get_or-drop off k base 0)
      | inr outside ↦
          let past : at_most (sub32 len off) n ≤ k = ground arith in
          rw outside (get_or-take_ge (at_most (sub32 len off) n) (drop off base) k 0 past)
    ]

pub slice-IsBytes :
    (base : List ℕ) (n off i : ℕ) → IsBytes base → get_or (take n (drop off base)) i 0 < 256
slice-IsBytes base n off i bytes = elim (Bool-cases (ltb i n)) [
  | inl inside ↦
      rw (get_or-take n (drop off base) i 0 (ground arith), get_or-drop off i base 0)
        (get_or-IsBytes base (off + i) bytes)
  | inr outside ↦ rw (get_or-take_ge n (drop off base) i 0 (ground arith)) (omega arith)
]
