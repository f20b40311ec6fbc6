-- ===== src/Stlink/Image.antt =====
-- What the calls made so far have written to the memory of the target, and the steps that only read.
pub mod Polls
use libstlink.Prelude.{
  inl, inr, Bool-cases, ℕ, zero, suc, ◌+◌, ◌-◌, ◌/◌, ◌%◌, ◌^◌, ◌≤◌, ◌<◌, ◌≡◌, ◌∙◌, refl, Bool, true,
  false, ◌&&◌, Option, none, some, List, [], ◌∷◌, arith, get_or, ltb, leb, if◌then◌else◌,
}
use libstlink.Stlink.Types.{History, read_debug32, write_debug32, write_mem32, write_mem8}

-- The bytes of a word, the lowest first.
abbrev pub word_byte : ℕ → ℕ → ℕ
word_byte v zero = v % 256
word_byte v (suc k) = word_byte (v / 256) k

-- addr is one of the n addresses from a on.
abbrev pub covers : ℕ → ℕ → ℕ → Bool
covers a n addr = leb a addr && ltb addr (a + n)

-- The byte that was written last at an address.
abbrev pub byte_at : ℕ → History → Option ℕ
byte_at addr [] = none
byte_at addr (write_debug32 a v ∷ h) =
    if covers a 4 addr then some (word_byte v (addr - a)) else byte_at addr h
byte_at addr (write_mem32 a n bytes ∷ h) =
    if covers a n addr then some (get_or bytes (addr - a) 0) else byte_at addr h
byte_at addr (write_mem8 a n bytes ∷ h) =
    if covers a n addr then some (get_or bytes (addr - a) 0) else byte_at addr h
byte_at addr (call ∷ h) = byte_at addr h

-- The later history has reads of registers on top of the earlier one, and nothing else.
pub data ReadsOnly : History → History → Type 0 where
  no_more : {h : History} → ReadsOnly h h
  one_more : {h h' : History} (a : ℕ) → ReadsOnly h h' → ReadsOnly h (read_debug32 a ∷ h')

pub ReadsOnly-trans : {h₀ h₁ h₂ : History} → ReadsOnly h₀ h₁ → ReadsOnly h₁ h₂ → ReadsOnly h₀ h₂
ReadsOnly-trans r no_more = r
ReadsOnly-trans r (one_more a s) = one_more a (ReadsOnly-trans r s)

pub byte_at-ReadsOnly :
    {h h' : History} (addr : ℕ) → ReadsOnly h h' → byte_at addr h' ≡ byte_at addr h
byte_at-ReadsOnly addr no_more = refl
byte_at-ReadsOnly addr (one_more a r) = byte_at-ReadsOnly addr r

-- From h to h' the addresses addr + lo, …, addr + hi - 1 were written with the bytes of an image, and
-- no others.
pub record Filled (image : ℕ → ℕ) (addr lo hi : ℕ) (h h' : History) : Type 0 where
  pub inside : (i : ℕ) → lo ≤ i → i < hi → byte_at (addr + i) h' ≡ some (image i)
  pub below : (a : ℕ) → a < addr + lo → byte_at a h' ≡ byte_at a h
  pub above : (a : ℕ) → addr + hi ≤ a → byte_at a h' ≡ byte_at a h

module _ {image : ℕ → ℕ} {addr : ℕ} where
  pub Filled-none : {lo : ℕ} {h : History} → Filled image addr lo lo h h
  Filled-none = record {
    inside = λ i ge lt. absurd (omega arith);
    below = λ a lt. refl;
    above = λ a ge. refl;
  }

  pub Filled-reads :
      {lo hi : ℕ} {h h₁ h₂ : History}
      → Filled image addr lo hi h h₁
      → ReadsOnly h₁ h₂
      → Filled image addr lo hi h h₂
  Filled-reads f r = record {
    inside = λ i ge lt. byte_at-ReadsOnly _ r ∙ f.inside i ge lt;
    below = λ a lt. byte_at-ReadsOnly a r ∙ f.below a lt;
    above = λ a ge. byte_at-ReadsOnly a r ∙ f.above a ge;
  }

  -- Two neighbouring ranges, the lower one first.
  pub Filled-trans :
      {lo mid hi : ℕ} {h h₁ h₂ : History}
      → lo ≤ mid
      → mid ≤ hi
      → Filled image addr lo mid h h₁
      → Filled image addr mid hi h₁ h₂
      → Filled image addr lo hi h h₂
  Filled-trans {lo} {mid} {hi} {h} {h₁} {h₂} le₁ le₂ f g = record {
    inside = λ i ge lt. at i ge lt;
    below = λ a lt. g.below a (omega arith) ∙ f.below a lt;
    above = λ a ge. g.above a ge ∙ f.above a (omega arith);
  }
    where
      at : (i : ℕ) → lo ≤ i → i < hi → byte_at (addr + i) h₂ ≡ some (image i)
      at i ge lt = elim (Bool-cases (ltb i mid)) [
        | inl low ↦ g.below (addr + i) (ground arith) ∙ f.inside i ge (ground arith)
        | inr high ↦ g.inside i (ground arith) lt
      ]

  pub Filled-word :
      {off : ℕ} {h : History} (v : ℕ)
      → ((k : ℕ) → k < 4 → word_byte v k ≡ image (off + k))
      → Filled image addr off (off + 4) h (write_debug32 (addr + off) v ∷ h)
  Filled-word {off} {h} v bytes = record {
    inside = λ i ge lt. written i ge lt;
    below = λ a lt. ground arith;
    above = λ a ge. ground arith;
  }
    where
      written :
          (i : ℕ)
          → off ≤ i
          → i < off + 4
          → byte_at (addr + i) (write_debug32 (addr + off) v ∷ h) ≡ some (image i)
      written i ge lt =
          let hit : covers (addr + off) 4 (addr + i) ≡ true = ground arith in
          let at_k : addr + i - (addr + off) ≡ i - off = omega arith in
          let back : off + (i - off) ≡ i = omega arith in
          rw (hit, at_k) (rw (bytes (i - off) (omega arith), back) refl)

  pub Filled-bytes :
      {off n : ℕ} {h : History} (bytes : List ℕ)
      → ((k : ℕ) → k < n → get_or bytes k 0 ≡ image (off + k))
      → Filled image addr off (off + n) h (write_mem32 (addr + off) n bytes ∷ h)
  Filled-bytes {off} {n} {h} bytes same = record {
    inside = λ i ge lt. written i ge lt;
    below = λ a lt. ground arith;
    above = λ a ge. ground arith;
  }
    where
      written :
          (i : ℕ)
          → off ≤ i
          → i < off + n
          → byte_at (addr + i) (write_mem32 (addr + off) n bytes ∷ h) ≡ some (image i)
      written i ge lt =
          let hit : covers (addr + off) n (addr + i) ≡ true = ground arith in
          let at_k : addr + i - (addr + off) ≡ i - off = omega arith in
          let back : off + (i - off) ≡ i = omega arith in
          rw (hit, at_k) (rw (same (i - off) (omega arith), back) refl)

  pub Filled-mem8 :
      {off n : ℕ} {h : History} (bytes : List ℕ)
      → ((k : ℕ) → k < n → get_or bytes k 0 ≡ image (off + k))
      → Filled image addr off (off + n) h (write_mem8 (addr + off) n bytes ∷ h)
  Filled-mem8 {off} {n} {h} bytes same = record {
    inside = λ i ge lt. written i ge lt;
    below = λ a lt. ground arith;
    above = λ a ge. ground arith;
  }
    where
      written :
          (i : ℕ)
          → off ≤ i
          → i < off + n
          → byte_at (addr + i) (write_mem8 (addr + off) n bytes ∷ h) ≡ some (image i)
      written i ge lt =
          let hit : covers (addr + off) n (addr + i) ≡ true = ground arith in
          let at_k : addr + i - (addr + off) ≡ i - off = omega arith in
          let back : off + (i - off) ≡ i = omega arith in
          rw (hit, at_k) (rw (same (i - off) (omega arith), back) refl)
