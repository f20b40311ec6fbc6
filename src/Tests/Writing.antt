-- ===== src/Tests/Writing.antt =====
-- The flash loader, the writes of the flash and the option bytes, on boards of several flash types.
use libstlink.Prelude.{
  ℕ, ◌+◌, ◌%◌, ◌/◌, ◌≤◌, ◌<◌, ◌≡◌, ◌⊎◌, refl, false, Option, none, some, List, [], ◌∷◌, ℤ, success,
  failure, arith, drop, get_or,
}
use libstlink.Registers.Memory
use libstlink.Stlink.{g0, c5, wb_wl, Stlink, History}
use libstlink.Stlink.Image.{Filled}
use libstlink.Flash.Status.{is_flash_busy, check_flash_error}
use libstlink.Flash.Status.Wait.{idle}
use libstlink.Flash.Status.Quiet.{Idles, with_calls}
use libstlink.Flash.Range.{stlink_check_address_range_validity}
use libstlink.Flash.Unlock.{lock_bit, read_lock_bit, is_flash_locked}
use libstlink.Flash.Verify.{stlink_verify_write_flash}
use libstlink.Loader.{FlashLoader}
use libstlink.Loader.Chunks.{write_chunks}
use libstlink.Loader.Chunks.Loaded.{Loaded, write_chunks-Loaded}
use libstlink.Loader.Run.{stlink_flash_loader_run}
use libstlink.Loader.Run.Returns.{stlink_flash_loader_run-Returns}
use libstlink.Loader.Words.{padded_len}
use libstlink.Loader.Words.Image.{padded_image}
use libstlink.Loader.Words.Rows.{ByRows}
use libstlink.Loader.Write.{stlink_flashloader_write}
use libstlink.Loader.Write.Programs.{
  by_g0, stlink_flashloader_write-ByWords, stlink_flashloader_write-c5,
}
use libstlink.Options.Fpec.{val_with_complement}
use libstlink.Options.Fpec.Complement.{val_with_complement_lem}
use libstlink.Options.Loops.{write_option_words}
use libstlink.Options.Loops.Fills.{NoErrors, write_option_words_fill, write_option_words_endless}
use libstlink.WriteFlash.{no_erase, checked_len, stlink_write_flash}
use libstlink.WriteFlash.Verified.{stlink_write_flash_verified}
use libstlink.WriteRam.{in_sram, stlink_mwrite_sram}
use libstlink.WriteRam.Whole.{stlink_mwrite_sram_fill}
use libstlink.Tests.Device.{board}

abbrev g0_board : Stlink
g0_board = record board { flash_type = g0 }

abbrev c5_board : Stlink
c5_board = record board { flash_type = c5 }

abbrev wb_board : Stlink
wb_board = record board { flash_type = wb_wl }

-- The status registers of the three boards read as 0.
g0-Idles : Idles 50 g0_board
unfolding is_flash_busy
g0-Idles q h = (0, _, idle (with_calls g0_board q h) _ refl, omega arith)

c5-Idles : Idles 50 c5_board
unfolding is_flash_busy
c5-Idles q h = (0, _, idle (with_calls c5_board q h) _ refl, omega arith)

wb-Idles : Idles 50 wb_board
unfolding is_flash_busy
wb-Idles q h = (0, _, idle (with_calls wb_board q h) _ refl, omega arith)

wb_fine : NoErrors 50 wb_board
unfolding check_flash_error
wb_fine q h = (_, refl)

abbrev loader : FlashLoader
loader = record {
  loader_addr = 0x20000000;
  buf_addr = 0x20000034;
  rcc_dma_bkp = 0;
  iwdg_kr = 0x40003000;
}

abbrev five : List ℕ
five = 1 ∷ 2 ∷ 3 ∷ 4 ∷ 5 ∷ []

stlink_flashloader_write-ByWords_example :
    (r : ℤ) × (h' : History) × (hi : ℕ) × (stlink_flashloader_write 50 loader 0x08000000 five 5
        g0_board
      ≡ some (r, record g0_board { history = h' }))
    × Filled (padded_image five 5 0) 0x08000000 0 hi [] h'
    × (hi ≡ 8)
unfolding padded_len
stlink_flashloader_write-ByWords_example =
    stlink_flashloader_write-ByWords 50 g0_board 0x08000000 five 5 loader by_g0
      (omega arith, (omega arith, (omega arith, (omega arith, (omega arith, tt))))) g0-Idles
      (omega arith) (omega arith)

stlink_flashloader_write-c5_example :
    (r : ℤ) × (q' : List ℕ) × (h' : History) × (hi : ℕ) × (stlink_flashloader_write 50 loader
        0x08000000 five 5 c5_board
      ≡ some (r, with_calls c5_board q' h'))
    × Filled (padded_image five 5 0xff) 0x08000000 0 hi [] h'
    × ByRows 0x08000000 0 hi [] h'
    × (hi % 16 ≡ 0)
    × (hi < 21)
    × ((r ≡ success) → 5 ≤ hi)
stlink_flashloader_write-c5_example =
    stlink_flashloader_write-c5 50 c5_board 0x08000000 five 5 loader refl c5-Idles (omega arith)
      (omega arith) (omega arith)

write_chunks-Loaded_example :
    (r : Option ℤ) × (sl' : Stlink) × (write_chunks 10 loader 2 0x08000000 five 5 0 board
      ≡ some (r, sl'))
    × (((r ≡ none) × Loaded loader 0x08000000 five 2 5 0 board sl') ⊎ (r ≡ some failure))
write_chunks-Loaded_example =
    write_chunks-Loaded loader 2 0x08000000 five 5 10 0 board (omega arith) (omega arith)
      (omega arith) (omega arith)

stlink_flash_loader_run-Returns_example :
    (r : ℤ) × (sl' : Stlink) × (stlink_flash_loader_run loader 0x08000000 five 5 board
      ≡ some (r, sl'))
    × ((r ≡ success) ⊎ (r ≡ failure))
stlink_flash_loader_run-Returns_example =
    stlink_flash_loader_run-Returns loader 0x08000000 five 5 board

abbrev zeros : List ℕ
zeros = 0 ∷ 0 ∷ 0 ∷ 0 ∷ []

abbrev written : Stlink
unfolding stlink_write_flash
written = elim (stlink_write_flash 50 loader Memory.flash_base zeros 4 false no_erase g0_board) [
  | none ↦ board
  | some r ↦ r.1
]

writes :
    stlink_write_flash 50 loader Memory.flash_base zeros 4 false no_erase g0_board
    ≡ some (success, written)
unfolding stlink_write_flash written stlink_check_address_range_validity is_flash_busy
    is_flash_locked read_lock_bit lock_bit
writes = refl

stlink_write_flash_verified_example :
    (len' : ℕ) × (sl₀ : Stlink) × (sl₁ : Stlink) × (checked_len 50 Memory.flash_base 4 g0_board
      ≡ some (some len', sl₀))
    × (stlink_verify_write_flash 50 Memory.flash_base zeros len' sl₁ ≡ some (success, written))
stlink_write_flash_verified_example =
    stlink_write_flash_verified 50 Memory.flash_base zeros loader 4 no_erase g0_board written writes

abbrev option_words : List ℕ
option_words = 0x10 ∷ 0x20 ∷ 0x30 ∷ 0x40 ∷ 0x50 ∷ 0x60 ∷ 0x70 ∷ 0x80 ∷ []

write_option_words_fill_example :
    (r : ℤ) × (hi : ℕ) × (h' : History) × (write_option_words 9 50
        (0x1fff7800 + 0)
        (drop 0 option_words)
        8
        (with_calls wb_board [] [])
      ≡ some (r, with_calls wb_board [] h'))
    × Filled (λ i. get_or option_words i 0) 0x1fff7800 0 hi [] h'
    × (0 ≤ hi)
    × (hi ≤ 8)
    × ((r ≡ success) → hi ≡ 8)
write_option_words_fill_example =
    write_option_words_fill 50 wb_board 0x1fff7800 option_words 8 9 0 [] [] wb-Idles
      (
        omega arith,
        (
          omega arith,
          (
            omega arith,
            (omega arith, (omega arith, (omega arith, (omega arith, (omega arith, tt))))),
          ),
        ),
      )
      refl refl (omega arith) (omega arith) (omega arith)

write_option_words_endless_example :
    write_option_words 1000 50 0x1fff7800 option_words 6 (with_calls wb_board [] []) ≡ none
write_option_words_endless_example =
    write_option_words_endless 50 wb_board 1000 0x1fff7800 option_words 6 [] [] wb-Idles wb_fine
      (λ e. omega arith) (omega arith)

val_with_complement_lem_example :
    (val_with_complement 0x1234 % 256 ≡ 0x34) × (val_with_complement 0x1234 / 256 + 0x34 ≡ 255)
val_with_complement_lem_example = val_with_complement_lem 0x1234 (omega arith)

stlink_mwrite_sram_fill_example :
    (sl' : Stlink) × (stlink_mwrite_sram 50 five 5 0x20000100 board ≡ some (success, sl'))
    × Filled (λ i. get_or five i 0) 0x20000100 0 5 [] sl'.history
unfolding in_sram
stlink_mwrite_sram_fill_example =
    stlink_mwrite_sram_fill 0x20000100 five 50 5 board refl (omega arith) (omega arith)
      (omega arith)
