-- ===== src/Loader/Write/Programs.antt =====
-- flash_loader.c: what `stlink_flashloader_write` leaves in the flash, where the host writes it.
use libstlink.Prelude.{
  ℕ, zero, suc, ◌+◌, ◌-◌, ◌*◌, ◌/◌, ◌%◌, ◌≤◌, ◌<◌, ◌≡◌, ◌∙◌, refl, ap, inl, inr, true, false,
  Option, none, some, List, ◌∷◌, if◌then◌else◌, ℤ, success, failure, arith, length, Bool-cases, ltb,
}
use libstlink.Word.{add32, sub32, u32_mod, is_set}
use libstlink.Word.Align.{clear-fifteen}
use libstlink.Stlink.{
  FlashType, c0, g0, g4, l5_u5, wb_wl, c5, Stlink, History, Call, M, bind_run, then_run, ◌>>◌, pure,
}
use libstlink.Stlink.ReadWrite.{stlink_write_debug32}
use libstlink.Stlink.Image.{Filled, Filled-reads, Filled-trans, Filled-word, word_byte}
use libstlink.Flash.Status.{wait_flash_busy}
use libstlink.Flash.Status.Quiet.{Idles, with_calls, wait_flash_busy-Idles, check_flash_error-Polls}
use libstlink.Loader.Buffer.{FlashLoader}
use libstlink.Loader.Words.{padded_len, write_words, write_double_words, write_rows}
use libstlink.Loader.Words.Image.{IsBytes, padded_image}
use libstlink.Loader.Words.Fills.{write_words_fill}
use libstlink.Loader.Words.Rows.{ByRows, ByRows-reads, ByRows-whole, write_rows_fill}
use libstlink.Loader.Write.{write_family, padded_to_rows, result_of, stlink_flashloader_write}

-- The types whose flash is written word by word.
pub data ByWords : FlashType → Type 0 where
  by_c0 : ByWords c0
  by_g0 : ByWords g0
  by_g4 : ByWords g4
  by_l5_u5 : ByWords l5_u5
  by_wb_wl : ByWords wb_wl

-- The bytes that a controller programs at once: a quad word on the L5 and U5, a double word on the others.
abbrev pub program_unit : FlashType → ℕ
program_unit l5_u5 = 16
program_unit _ = 8

-- A length rounded up to whole units.
abbrev pub in_units : FlashType → ℕ → ℕ
in_units t len = (len + (program_unit t - 1)) / program_unit t * program_unit t

-- Where the bytes that are taken from the memory of the host end: at the end of the data, and on the L5 and U5
-- at the end of their last quad word.
abbrev pub host_end : FlashType → ℕ → ℕ
host_end l5_u5 len = (len + 15) / 16 * 16
host_end _ len = len

-- At most 15 bytes are added, and double words up from there are whole units.
padded_len-ByWords :
    {t : FlashType} (len : ℕ)
    → ByWords t
    → len + 16 ≤ u32_mod
    → (padded_len t len ≡ host_end t len)
      × (len ≤ padded_len t len)
      × (padded_len t len < len + 16)
      × ((padded_len t len + 7) / 8 * 8 ≡ in_units t len)
unfolding padded_len
padded_len-ByWords len by_c0 room = (refl, omega arith, omega arith, refl)
padded_len-ByWords len by_g0 room = (refl, omega arith, omega arith, refl)
padded_len-ByWords len by_g4 room = (refl, omega arith, omega arith, refl)
padded_len-ByWords len by_l5_u5 room =
    let whole : padded_len l5_u5 len ≡ (len + 15) / 16 * 16 = ground arith in
    (whole, omega (arith, whole), omega (arith, whole), omega (arith, whole))
padded_len-ByWords len by_wb_wl room = (refl, omega arith, omega arith, refl)

write_family-ByWords :
    {t : FlashType} (fuel : ℕ) (fl : FlashLoader) (addr : ℕ) (base : List ℕ) (len : ℕ)
    → ByWords t
    → write_family fuel fl addr base len t ≡ write_double_words fuel addr base len
unfolding write_family
write_family-ByWords fuel fl addr base len by_c0 = refl
write_family-ByWords fuel fl addr base len by_g0 = refl
write_family-ByWords fuel fl addr base len by_g4 = refl
write_family-ByWords fuel fl addr base len by_l5_u5 = refl
write_family-ByWords fuel fl addr base len by_wb_wl = refl

zero_byte : (k : ℕ) → word_byte 0 k ≡ 0
zero_byte zero = refl
zero_byte (suc k) = zero_byte k

-- A word of zeros behind the data.
zero_word :
    (base : List ℕ) (addr len off : ℕ) (h : History)
    → len ≤ off
    → Filled (padded_image base len 0) addr off (off + 4) h (Call.write_debug32 (addr + off) 0 ∷ h)
zero_word base addr len off h past =
    Filled-word 0
      (λ k lt. let behind : ltb (off + k) len ≡ false = ground arith in rw behind (zero_byte k))

module _ (fuel : ℕ) (sl : Stlink) (addr : ℕ) (base : List ℕ) (len : ℕ) where
  abbrev padded : ℕ
  padded = padded_len sl.flash_type len

  abbrev after_words : ℕ → M (Option ℤ)
  after_words off =
      if is_set (off / 4 % 2)
      then (do stlink_write_debug32 (add32 addr off) 0; wait_flash_busy fuel; pure none)
      else pure none

  -- The end of an odd number of words, and that of an even one.
  odd_end :
      (end : ℕ) (q : List ℕ) (h h₁ h₂ : History)
      → is_set (end / 4 % 2) ≡ true
      → add32 addr end ≡ addr + end
      → write_words fuel fuel addr base padded 0 (with_calls sl q h)
        ≡ some (end, with_calls sl q h₁)
      → wait_flash_busy fuel (with_calls sl q (Call.write_debug32 (addr + end) 0 ∷ h₁))
        ≡ some (tt, with_calls sl q h₂)
      → write_double_words fuel addr base len (with_calls sl q h) ≡ some (none, with_calls sl q h₂)
  unfolding write_double_words stlink_write_debug32
  odd_end end q h h₁ h₂ odd here ran waited =
      bind_run (write_words fuel fuel addr base padded 0) ran (after_words)
      ∙ rw (after_words, odd, here) (then_run (wait_flash_busy fuel) waited (pure none))

  even_end :
      (end : ℕ) (q : List ℕ) (h h₁ : History)
      → is_set (end / 4 % 2) ≡ false
      → write_words fuel fuel addr base padded 0 (with_calls sl q h)
        ≡ some (end, with_calls sl q h₁)
      → write_double_words fuel addr base len (with_calls sl q h) ≡ some (none, with_calls sl q h₁)
  unfolding write_double_words
  even_end end q h h₁ even ran =
      bind_run (write_words fuel fuel addr base padded 0) ran (after_words)
      ∙ rw (after_words, even) refl

  -- Whole double words are written: the data, and zeros behind them.
  write_double_words_fill :
      (q : List ℕ) (h : History)
      → ByWords sl.flash_type
      → IsBytes base
      → Idles fuel sl
      → addr + len + 24 ≤ u32_mod
      → len + 20 ≤ fuel
      → (hi : ℕ) × (h' : History) × (write_double_words fuel addr base len (with_calls sl q h)
          ≡ some (none, with_calls sl q h'))
        × Filled (padded_image base padded 0) addr 0 hi h h'
        × (hi ≡ (padded + 7) / 8 * 8)
  write_double_words_fill q h words bytes idles room enough =
      let (_, longer, close, _) = padded_len-ByWords len words (omega arith) in
      let (end, h₁, ran, filled, whole, past, near, _) =
        write_words_fill sl fuel addr base padded fuel 0 q h bytes idles refl (omega arith)
          (omega arith) (omega arith) in
      let here : add32 addr end ≡ addr + end = omega arith in
      elim (Bool-cases (is_set (end / 4 % 2))) [
        | inr even ↦ (end, h₁, even_end end q h h₁ even ran, filled, ground arith)
        | inl odd ↦
            let (h₂, waited, reads) =
              wait_flash_busy-Idles fuel sl q (Call.write_debug32 (addr + end) 0 ∷ h₁) idles in
            (
              end + 4,
              h₂,
              odd_end end q h h₁ h₂ odd here ran waited,
              Filled-reads
                  (Filled-trans (omega arith) (omega arith) filled
                    (zero_word base addr padded end h₁ past))
                  reads,
              ground arith,
            )
      ]

  -- The whole function, from what its family does.
  flashloader_write_run :
      (fl : FlashLoader) (early : Option ℤ) (r : ℤ) (sl₁ sl₂ : Stlink)
      → write_family fuel fl addr base len sl.flash_type sl ≡ some (early, sl₁)
      → result_of early sl₁ ≡ some (r, sl₂)
      → stlink_flashloader_write fuel fl addr base len sl ≡ some (r, sl₂)
  unfolding stlink_flashloader_write
  flashloader_write_run fl early r sl₁ sl₂ ran result =
      bind_run (write_family fuel fl addr base len sl.flash_type) ran result_of ∙ result

  -- On the C0, G0, G4, L5, U5, WB and WL the function returns, if less than fuel polls find the controller
  -- busy in a row, the data are bytes, they end 24 bytes before 2^32 or earlier, and the fuel is at least
  -- 20 more than their number. The addresses that were written are those from
  -- addr on of the least number of whole units that has the data, a unit being a double word, and on the L5 and U5 a
  -- quad word. What was written last at each of them is the byte of the data, and behind the data a zero; on the L5
  -- and U5 the bytes behind the data are those that follow them in the memory of the host.
  pub stlink_flashloader_write-ByWords :
      (fl : FlashLoader)
      → ByWords sl.flash_type
      → IsBytes base
      → Idles fuel sl
      → addr + len + 24 ≤ u32_mod
      → len + 20 ≤ fuel
      → (r : ℤ) × (h' : History) × (hi : ℕ) × (stlink_flashloader_write fuel fl addr base len sl
          ≡ some (r, record sl { history = h' }))
        × Filled (padded_image base (host_end sl.flash_type len) 0) addr 0 hi sl.history h'
        × (hi ≡ in_units sl.flash_type len)
  unfolding result_of
  stlink_flashloader_write-ByWords fl words bytes idles room enough =
      let (same, _, _, units) = padded_len-ByWords len words (omega arith) in
      let (hi, h₁, ran, filled, whole) =
        write_double_words_fill sl.q_buf sl.history words bytes idles room enough in
      let (r, h₂, checked, reads) = check_flash_error-Polls (record sl { history = h₁ }) in
      let family = write_family-ByWords fuel fl addr base len words in
      (
        r,
        h₂,
        hi,
        flashloader_write_run fl none r (record sl { history = h₁ }) (record sl { history = h₂ })
            (rw family ran) checked,
        rw same at (Filled-reads filled reads),
        whole ∙ units,
      )

  -- On the STM32C5 the function returns, if less than fuel polls find the controller busy in a row, the data
  -- are there, they end 16 bytes before 2^32 or earlier, and the fuel is more than their number by 17. It has
  -- written the data from addr on, 0xff behind the last byte of them, and no other address. Every write is that of a
  -- whole row of 16 bytes by one transfer, row after row, and between two of them registers are only read. Where the
  -- function returns 0, the rows have all of the data.
  pub stlink_flashloader_write-c5 :
      (fl : FlashLoader)
      → sl.flash_type ≡ c5
      → Idles fuel sl
      → len ≤ length base
      → addr + len + 16 ≤ u32_mod
      → len + 17 ≤ fuel
      → (r : ℤ) × (q' : List ℕ) × (h' : History) × (hi : ℕ) × (stlink_flashloader_write fuel fl addr
            base len sl
          ≡ some (r, with_calls sl q' h'))
        × Filled (padded_image base len 0xff) addr 0 hi sl.history h'
        × ByRows addr 0 hi sl.history h'
        × (hi % 16 ≡ 0)
        × (hi < len + 16)
        × ((r ≡ success) → len ≤ hi)
  unfolding result_of write_family padded_to_rows
  stlink_flashloader_write-c5 fl is_c5 idles there room enough =
      let rows : padded_to_rows len ≡ (len + 15) / 16 * 16 =
        let up : sub32 (add32 len 16) 1 ≡ len + 15 = omega arith in
        rw up (clear-fifteen (len + 15) (omega arith) ∙ omega arith) in
      let (early, end, q₁, h₁, ran, filled, by_rows, _, le, ends) =
        write_rows_fill sl fuel addr base len ((len + 15) / 16 * 16) fuel 0 sl.q_buf sl.history
          idles there (omega arith) (omega arith, omega arith) (omega arith)
          (refl, omega arith, omega arith) (omega arith) in
      let family : write_family fuel fl addr base len sl.flash_type sl
          ≡ some (early, with_calls sl q₁ h₁) =
        ap (λ (t : FlashType). write_family fuel fl addr base len t sl) is_c5
        ∙ ap (λ (n : ℕ). write_rows fuel fuel addr base len n 0 sl) rows
        ∙ ran in
      elim ends [
        | inl (fine, whole) ↦
            let (r, h₂, checked, reads) = check_flash_error-Polls (with_calls sl q₁ h₁) in
            (
              r,
              q₁,
              h₂,
              end,
              flashloader_write_run fl none r (with_calls sl q₁ h₁) (with_calls sl q₁ h₂)
                  (rw fine at family) checked,
              Filled-reads filled reads,
              ByRows-reads by_rows reads,
              ByRows-whole by_rows refl,
              omega arith,
              λ e. omega (arith, whole),
            )
        | inr failed ↦ (
          failure,
          q₁,
          h₁,
          end,
          flashloader_write_run fl (some failure) failure (with_calls sl q₁ h₁)
              (with_calls sl q₁ h₁) (rw failed at family) refl,
          filled,
          by_rows,
          ByRows-whole by_rows refl,
          omega arith,
          λ e. cc,
        )
      ]
