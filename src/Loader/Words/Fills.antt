-- ===== src/Loader/Words/Fills.antt =====
-- flash_loader.c: what the loop over the words writes.
use libstlink.Prelude.{
  ℕ, zero, suc, ◌+◌, ◌%◌, ◌≤◌, ◌<◌, ◌≡◌, ◌∙◌, refl, inl, inr, true, some, List, ◌∷◌, arith, ltb,
  take, drop, Bool-cases, ltb→lt, ltb→le,
}
use libstlink.Word.{add32, sub32, u32_mod}
use libstlink.Stlink.{Stlink, History, Call, then_run}
use libstlink.Stlink.ReadWrite.{stlink_write_debug32}
use libstlink.Stlink.Image.{Filled, Filled-none, Filled-reads, Filled-trans, Filled-word, word_byte}
use libstlink.Flash.Status.{wait_flash_busy}
use libstlink.Flash.Status.Quiet.{Idles, with_calls, wait_flash_busy-Idles}
use libstlink.Loader.Words.{at_most, word_of, write_words}
use libstlink.Loader.Words.Image.{
  IsBytes, padded_image, word_byte-word_of, get_or-slice, slice-IsBytes,
}

module _ (sl : Stlink) (fuel addr : ℕ) (base : List ℕ) (len : ℕ) where
  -- The word of a round.
  abbrev word_at : ℕ → ℕ
  word_at off = word_of (take (at_most (sub32 len off) 4) (drop off base))

  word_at-Image :
      (off k : ℕ)
      → IsBytes base
      → off < len
      → len < u32_mod
      → k < 4
      → word_byte (word_at off) k ≡ padded_image base len 0 (off + k)
  word_at-Image off k bytes below small lt =
      word_byte-word_of (take (at_most (sub32 len off) 4) (drop off base)) k
        (λ i. slice-IsBytes base (at_most (sub32 len off) 4) off i bytes) lt
      ∙ get_or-slice base len off 4 k below small lt

  -- A round that goes on: its write, and the wait.
  words_round :
      (rounds off : ℕ) (q : List ℕ) (h h₂ : History)
      → ltb off len ≡ true
      → addr + len + 4 ≤ u32_mod
      → wait_flash_busy fuel (with_calls sl q (Call.write_debug32 (addr + off) (word_at off) ∷ h))
        ≡ some (tt, with_calls sl q h₂)
      → write_words (suc rounds) fuel addr base len off (with_calls sl q h)
        ≡ write_words rounds fuel addr base len (off + 4) (with_calls sl q h₂)
  unfolding write_words stlink_write_debug32
  words_round rounds off q h h₂ go room waited =
      let below = ltb→lt off len go in
      let here : add32 addr off ≡ addr + off = omega arith in
      let next : add32 off 4 ≡ off + 4 = omega arith in
      rw (write_words, go, here, next)
        (then_run (wait_flash_busy fuel) waited (write_words rounds fuel addr base len (off + 4)))

  -- The loop ends behind the data, at a whole word, and has written the data and zeros behind them.
  pub write_words_fill :
      (rounds off : ℕ) (q : List ℕ) (h : History)
      → IsBytes base
      → Idles fuel sl
      → off % 4 ≡ 0
      → addr + len + 4 ≤ u32_mod
      → off < len + 4
      → len + 4 ≤ rounds + off
      → (end : ℕ) × (h' : History) × (write_words rounds fuel addr base len off (with_calls sl q h)
          ≡ some (end, with_calls sl q h'))
        × Filled (padded_image base len 0) addr off end h h'
        × (end % 4 ≡ 0)
        × (len ≤ end)
        × (end < len + 4)
        × (off ≤ end)
  unfolding write_words
  write_words_fill zero off q h bytes idles whole room near enough = absurd (omega arith)
  write_words_fill (suc rounds) off q h bytes idles whole room near enough =
      elim (Bool-cases (ltb off len)) [
        | inr stop ↦ (
          off,
          h,
          rw (write_words, stop) refl,
          Filled-none,
          whole,
          ltb→le off len stop,
          near,
          omega arith,
        )
        | inl go ↦
            let below = ltb→lt off len go in
            let h₁ = Call.write_debug32 (addr + off) (word_at off) ∷ h in
            let (h₂, waited, reads) = wait_flash_busy-Idles fuel sl q h₁ idles in
            let (end, h₃, rest, filled, whole', past, close, grows) =
              write_words_fill rounds (off + 4) q h₂ bytes idles (omega arith) room (omega arith)
                (omega arith) in
            let first : Filled (padded_image base len 0) addr off (off + 4) h h₂ =
              Filled-reads
                (Filled-word (word_at off)
                  (λ k lt. word_at-Image off k bytes below (omega arith) lt))
                reads in
            (
              end,
              h₃,
              words_round rounds off q h h₂ go room waited ∙ rest,
              Filled-trans (omega arith) grows first filled,
              whole',
              past,
              close,
              omega arith,
            )
      ]
