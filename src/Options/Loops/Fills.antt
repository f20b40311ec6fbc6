-- ===== src/Options/Loops/Fills.antt =====
-- option_bytes.c: the loop over the words of the option bytes of the L0, the WB and the L5.
use libstlink.Prelude.{
  ℕ, zero, suc, ◌+◌, ◌-◌, ◌%◌, ◌≤◌, ◌<◌, ◌≡◌, ◌≢◌, ◌∙◌, refl, inl, inr, true, false, none, some,
  List, [], ◌∷◌, ℤ, success, is_nonzero, arith, get_or, drop, get_or-drop, ◌==◌, ==_iff, Bool-cases,
}
use libstlink.Word.{add32, sub32, u32_mod}
use libstlink.Stlink.{Stlink, History, Call, M, pure, bind_run, then_run, ◌>>=◌}
use libstlink.Stlink.ReadWrite.{stlink_write_debug32}
use libstlink.Stlink.Image.{
  ReadsOnly-trans, Filled, Filled-none, Filled-reads, Filled-trans, Filled-word, word_byte,
}
use libstlink.Flash.Status.{wait_flash_busy, check_flash_error}
use libstlink.Flash.Status.Quiet.{Idles, with_calls, wait_flash_busy-Idles, check_flash_error-Polls}
use libstlink.Loader.Words.{word_of}
use libstlink.Loader.Words.Image.{IsBytes, get_or-IsBytes, word_byte-word_of}
use libstlink.Options.Small.{first_word}
use libstlink.Options.Loops.{write_option_words}

first_word-Image :
    (base : List ℕ) (off k : ℕ)
    → IsBytes base
    → k < 4
    → word_byte (first_word (drop off base)) k ≡ get_or base (off + k) 0
unfolding first_word word_of
first_word-Image base off k bytes lt =
    word_byte-word_of (drop off base) k (λ i. byte i) lt ∙ get_or-drop off k base 0
  where
    byte : (i : ℕ) → get_or (drop off base) i 0 < 256
    byte i = rw (get_or-drop off i base 0) (get_or-IsBytes base (off + i) bytes)

drop-nil : (n : ℕ) → drop {A = ℕ} n [] ≡ []
drop-nil zero = refl
drop-nil (suc n) = refl

drop-drop : (m n : ℕ) (xs : List ℕ) → drop n (drop m xs) ≡ drop (m + n) xs
drop-drop zero n xs = let e : 0 + n ≡ n = omega arith in rw e refl
drop-drop (suc m) n [] = let e : suc m + n ≡ suc (m + n) = omega arith in rw e (drop-nil n)
drop-drop (suc m) n (x ∷ xs) =
    let e : suc m + n ≡ suc (m + n) = omega arith in rw e (drop-drop m n xs)

module _ (fuel : ℕ) (sl : Stlink) where
  -- What follows the check of a round.
  abbrev after_check : ℕ → ℕ → List ℕ → ℕ → ℤ → M ℤ
  after_check rounds a bs n err = elim (is_nonzero err) [
    | true ↦ pure err
    | false ↦ write_option_words rounds fuel (add32 a 4) (drop 4 bs) (sub32 n 4)
  ]

  -- A round: its write, the wait and the check.
  option_round :
      (rounds a : ℕ) (bs : List ℕ) (n : ℕ) (q : List ℕ) (h h₁ : History) (err : ℤ) (h₂ : History)
      → (n == 0) ≡ false
      → wait_flash_busy fuel (with_calls sl q (Call.write_debug32 a (first_word bs) ∷ h))
        ≡ some (tt, with_calls sl q h₁)
      → check_flash_error (with_calls sl q h₁) ≡ some (err, with_calls sl q h₂)
      → write_option_words (suc rounds) fuel a bs n (with_calls sl q h)
        ≡ after_check rounds a bs n err (with_calls sl q h₂)
  unfolding write_option_words stlink_write_debug32
  option_round rounds a bs n q h h₁ err h₂ go waited checked =
      rw (write_option_words, go)
        (then_run (wait_flash_busy fuel) waited (check_flash_error >>= after_check rounds a bs n)
          ∙ bind_run check_flash_error checked (after_check rounds a bs n))

  module _ (addr : ℕ) (base : List ℕ) (len : ℕ) where
    after_fine :
        (rounds off : ℕ) (err : ℤ) (s : Stlink)
        → is_nonzero err ≡ false
        → off + 4 ≤ len
        → addr + len < u32_mod
        → after_check rounds (addr + off) (drop off base) (len - off) err s
          ≡ write_option_words rounds fuel
              (addr + (off + 4))
              (drop (off + 4) base)
              (len - (off + 4))
              s
    after_fine rounds off err s fine fits room =
        let next : add32 (addr + off) 4 ≡ addr + (off + 4) = omega arith in
        let left : sub32 (len - off) 4 ≡ len - (off + 4) = omega arith in
        rw (after_check, fine, next, left, drop-drop off 4 base) refl

    after_failed :
        (rounds off : ℕ) (err : ℤ) (s : Stlink)
        → is_nonzero err ≡ true
        → after_check rounds (addr + off) (drop off base) (len - off) err s ≡ some (err, s)
    after_failed rounds off err s failed = rw (after_check, failed) refl

    zero_code : (err : ℤ) → is_nonzero err ≡ true → err ≢ success
    zero_code err failed e = cc (rw e at failed)

    -- For a length of whole words the loop ends, if less than fuel polls find the controller busy in a
    -- row, the data are bytes and end below 2^32, and there are more rounds than bytes left. It writes the words in order, and nothing else; where it
    -- returns 0, it has written all of them.
    pub write_option_words_fill :
        (rounds off : ℕ) (q : List ℕ) (h : History)
        → Idles fuel sl
        → IsBytes base
        → len % 4 ≡ 0
        → off % 4 ≡ 0
        → off ≤ len
        → addr + len < u32_mod
        → len < rounds + off
        → (r : ℤ) × (hi : ℕ) × (h' : History) × (write_option_words rounds fuel
              (addr + off)
              (drop off base)
              (len - off)
              (with_calls sl q h)
            ≡ some (r, with_calls sl q h'))
          × Filled (λ i. get_or base i 0) addr off hi h h'
          × (off ≤ hi)
          × (hi ≤ len)
          × ((r ≡ success) → hi ≡ len)
    unfolding write_option_words
    write_option_words_fill zero off q h idles bytes whole whole' below room enough =
        absurd (omega arith)
    write_option_words_fill (suc rounds) off q h idles bytes whole whole' below room enough =
        elim (Bool-cases ((len - off) == 0)) [
          | inl stop ↦ (
            success,
            off,
            h,
            rw (write_option_words, stop) refl,
            Filled-none,
            omega arith,
            omega arith,
            λ e. omega (arith, (==_iff (len - off) 0).0 stop),
          )
          | inr go ↦
              let more : off < len = ground arith in
              let h₁ = Call.write_debug32 (addr + off) (first_word (drop off base)) ∷ h in
              let (h₂, waited, reads) = wait_flash_busy-Idles fuel sl q h₁ idles in
              let (err, h₃, checked, reads') = check_flash_error-Polls (with_calls sl q h₂) in
              let ran =
                option_round rounds (addr + off) (drop off base) (len - off) q h h₂ err h₃ go waited
                  checked in
              let first : Filled (λ i. get_or base i 0) addr off (off + 4) h h₃ =
                Filled-reads
                  (Filled-word (first_word (drop off base))
                    (λ k lt. first_word-Image base off k bytes lt))
                  (ReadsOnly-trans reads reads') in
              elim (Bool-cases (is_nonzero err)) [
                | inl failed ↦ (
                  err,
                  off + 4,
                  h₃,
                  ran ∙ after_failed rounds off err (with_calls sl q h₃) failed,
                  first,
                  omega arith,
                  omega arith,
                  λ e. absurd (zero_code err failed e),
                )
                | inr fine ↦
                    let (r, hi, h', rest, filled, grows, le, all) =
                      write_option_words_fill rounds (off + 4) q h₃ idles bytes whole (omega arith)
                        (omega arith) room (omega arith) in
                    (
                      r,
                      hi,
                      h',
                      ran
                          ∙ after_fine rounds off err (with_calls sl q h₃) fine (omega arith) room
                          ∙ rest,
                      Filled-trans (omega arith) grows first filled,
                      omega arith,
                      le,
                      all,
                    )
              ]
        ]

  -- No check for errors finds one, whatever was called before.
  abbrev pub NoErrors : Type 0
  NoErrors =
      (q : List ℕ) (h : History)
      → (h' : History) × (check_flash_error (with_calls sl q h)
          ≡ some (success, with_calls sl q h'))

  -- For a length that is not of whole words, the count passes 0 by and the loop goes on, as long as no
  -- error is found and the waits end: no number of rounds is enough for it.
  pub write_option_words_endless :
      (rounds a : ℕ) (bs : List ℕ) (n : ℕ) (q : List ℕ) (h : History)
      → Idles fuel sl
      → NoErrors
      → n % 4 ≢ 0
      → n < u32_mod
      → write_option_words rounds fuel a bs n (with_calls sl q h) ≡ none
  unfolding write_option_words
  write_option_words_endless zero a bs n q h idles fine odd small = refl
  write_option_words_endless (suc rounds) a bs n q h idles fine odd small =
      let go : (n == 0) ≡ false = ground arith in
      let h₁ = Call.write_debug32 a (first_word bs) ∷ h in
      let (h₂, waited, _) = wait_flash_busy-Idles fuel sl q h₁ idles in
      let (h₃, checked) = fine q h₂ in
      option_round rounds a bs n q h h₂ success h₃ go waited checked
      ∙ write_option_words_endless rounds (add32 a 4) (drop 4 bs) (sub32 n 4) q h₃ idles fine
          (λ e. odd (omega arith)) (omega arith)
