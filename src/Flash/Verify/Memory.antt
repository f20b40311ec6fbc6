-- ===== src/Flash/Verify/Memory.antt =====
-- A backend that reads a memory, and one comparison of bytes with it.
use mathlib.Core.Path.{subst}
use libstlink.Prelude.{
  get_or-drop, ℕ, ◌+◌, ◌-◌, ◌%◌, ◌≤◌, ◌<◌, ◌≡◌, ◌↔◌, refl, sym, ap, ◌∙◌, Bool, true, false, some,
  List, ◌∷◌, ℤ, success, failure, arith, length, get_or, drop, length-drop,
}
use libstlink.Stlink.{Stlink, Backend, History, read_mem32, M, pure}
use libstlink.Stlink.ReadWrite.{stlink_read_mem32}
use libstlink.Flash.Verify.{same_bytes}
use libstlink.Flash.Verify.Bytes.{window, length-window, get_or-window, same_bytes_iff}

-- A backend that reads a memory in whole words. Of a read that does not start at a word, or is not of whole words,
-- nothing is known.
abbrev pub Reads : (ℕ → ℕ) → Backend → Type 0
Reads mem backend =
    (h : History) (addr n : ℕ)
    → addr % 4 ≡ 0
    → n % 4 ≡ 0
    → backend.read_mem32 h addr n ≡ (success, window mem addr n)

-- The bytes from one index to another are those of the memory.
abbrev pub Matches : (ℕ → ℕ) → ℕ → List ℕ → ℕ → ℕ → Type 0
Matches mem address bytes first stop =
    (i : ℕ) → first ≤ i → i < stop → get_or bytes i 0 ≡ mem (address + i)

-- A read of whole words fills the buffer.
pub stlink_read_mem32-Reads :
    (sl : Stlink) (mem : ℕ → ℕ) (addr n : ℕ)
    → Reads mem sl.backend
    → addr % 4 ≡ 0
    → n % 4 ≡ 0
    → stlink_read_mem32 addr n sl
      ≡ some (
        success,
        record sl { q_buf = window mem addr n; history = read_mem32 addr n ∷ sl.history },
      )
unfolding stlink_read_mem32
stlink_read_mem32-Reads sl mem addr n reads aligned whole =
    rw (whole, reads sl.history addr n aligned whole) refl

-- A round compares as it should.
pub same_bytes-Matches :
    (mem : ℕ → ℕ) (address : ℕ) (bytes : List ℕ) (off aligned skip cmp n : ℕ)
    → aligned + skip ≡ address + off
    → skip + cmp ≤ n
    → off + cmp ≤ length bytes
    → (same_bytes cmp (drop skip (window mem aligned n)) (drop off bytes) ≡ true)
      ↔ Matches mem address bytes off (off + cmp)
same_bytes-Matches mem address bytes off aligned skip cmp n e room inside =
    let lens : (cmp ≤ length (drop skip (window mem aligned n))) × (cmp ≤ length (drop off bytes)) =
      omega (
        arith,
        length-drop skip (window mem aligned n),
        length-window mem aligned n,
        length-drop off bytes,
      ) in
    let same =
      same_bytes_iff cmp (drop skip (window mem aligned n)) (drop off bytes) lens.0 lens.1 in
    let read : (i : ℕ)
        → i < cmp
        → get_or (drop skip (window mem aligned n)) i 0 ≡ mem (address + (off + i)) =
      λ i h.
        let here : aligned + (skip + i) ≡ address + (off + i) = omega arith in
        get_or-drop skip i (window mem aligned n) 0
        ∙ get_or-window mem aligned n (skip + i) (omega arith)
        ∙ ap mem here in
    (
      (λ equal i low high.
          let at_i : off + (i - off) ≡ i = omega arith in
          let lt : i - off < cmp = omega arith in
          subst (λ (j : ℕ). get_or bytes j 0 ≡ mem (address + j)) at_i
            (sym (get_or-drop off (i - off) bytes 0)
              ∙ sym (same.0 equal (i - off) lt)
              ∙ read (i - off) lt)),
      λ f. same.1 (λ i h.
          read i h
          ∙ sym (f (off + i) (omega arith) (omega arith))
          ∙ sym (get_or-drop off i bytes 0)),
    )

-- What follows a comparison.
abbrev pub go_on : Bool → M ℤ → M ℤ
go_on true rest = rest
go_on false rest = pure failure

pub elim-go_on :
    (b : Bool) (m m' : M ℤ) (sl : Stlink)
    → m ≡ m'
    → (elim b as (λ x. M ℤ) [ true ↦ m | false ↦ pure failure ]) sl ≡ go_on b m' sl
elim-go_on true m m' sl e = ap (λ (n : M ℤ). n sl) e
elim-go_on false m m' sl e = refl
