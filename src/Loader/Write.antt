-- ===== src/Loader/Write.antt =====
-- flash_loader.c: `stlink_flashloader_write`. `fuel` bounds the rounds of each loop and the polls of each
-- wait; a family that fails early returns `some` of its result. The progress on stdout is left out.
pub mod Programs
use libstlink.Prelude.{
  ℕ, zero, suc, ◌+◌, ◌*◌, ◌/◌, ◌%◌, ◌^◌, Bool, true, false, ◌&&◌, Option, none, some, List, ℤ,
  success, failure, is_nonzero, ltb, leb, ◌==◌, if◌then◌else◌,
}
use libstlink.Word.{add32, sub32, clear}
use libstlink.Registers.Fpec
use libstlink.Registers.L0
use libstlink.Stlink.{
  FlashType, c0, f0_f1_f3, f1_xl, f2_f4, f7, g0, g4, h7, l0_l1, l4, l5_u5, wb_wl, wb0, h5, c5,
  Stlink, M, pure, get, ◌>>=◌, ◌>>◌,
}
use libstlink.Flash.Control.{get_stm32l0_flash_base}
use libstlink.Flash.Status.{check_flash_error}
use libstlink.Loader.Buffer.{FlashLoader}
use libstlink.Loader.HalfPages.{stm32l1_write_half_pages}
use libstlink.Loader.Words.{
  write_double_words, write_rows, write_h7, write_rest_words, write_otp_words,
}
use libstlink.Loader.Chunks.{write_chunks, write_pages}

-- addr >= base && addr < base + size
abbrev pub starts_in : ℕ → ℕ → ℕ → Bool
starts_in addr base size = leb base addr && ltb addr (add32 base size)

-- The memory of the chip behind the loader, at most 0x8000 bytes.
unfoldable pub buffer_size : Stlink → ℕ
buffer_size sl =
    let buf_size = sub32 sl.sram_size 0x1000 in if ltb 0x8000 buf_size then 0x8000 else buf_size

write_by_loader : ℕ → FlashLoader → ℕ → List ℕ → ℕ → M (Option ℤ)
unfolding buffer_size write_chunks
write_by_loader fuel fl addr base len = do
  sl ← get
  write_chunks fuel fl (buffer_size sl) addr base len 0

-- (len + row - 1) & ~(row - 1)
unfoldable pub padded_to_rows : ℕ → ℕ
padded_to_rows len = clear (sub32 (add32 len 16) 1) 15

write_wb0 : ℕ → FlashLoader → ℕ → List ℕ → ℕ → M (Option ℤ)
unfolding write_by_loader write_otp_words
write_wb0 fuel fl addr base len = do
  sl ← get
  if starts_in addr sl.flash_base sl.flash_size
      then write_by_loader fuel fl addr base len
      else if starts_in addr sl.otp_base sl.otp_size
      then write_otp_words fuel fuel addr base len 0
      else pure (some failure)

write_l0_l1 : ℕ → FlashLoader → ℕ → List ℕ → ℕ → M (Option ℤ)
unfolding get_stm32l0_flash_base stm32l1_write_half_pages write_rest_words
write_l0_l1 fuel fl addr base len = do
  sl ← get
  let regs_base = get_stm32l0_flash_base sl
  let pagesize = if regs_base == L0.regs_addr then 0x40 else 0x80
  if ltb pagesize len
      then (do
        ret ← stm32l1_write_half_pages fuel fl addr base len pagesize
        if is_nonzero ret
            then pure (some failure)
            else write_rest_words fuel fuel (regs_base + Fpec.sr_off) addr base len
                (len / pagesize * pagesize))
      else write_rest_words fuel fuel (regs_base + Fpec.sr_off) addr base len 0

write_fpec : ℕ → FlashLoader → ℕ → List ℕ → ℕ → M (Option ℤ)
unfolding write_pages
write_fpec fuel fl addr base len = do sl ← get; write_pages fuel fl sl.flash_pgsz addr base len 0

unfoldable pub write_family : ℕ → FlashLoader → ℕ → List ℕ → ℕ → FlashType → M (Option ℤ)
unfolding write_by_loader write_wb0 write_rows padded_to_rows write_double_words write_l0_l1
    write_fpec write_h7
write_family fuel fl addr base len f2_f4 = write_by_loader fuel fl addr base len
write_family fuel fl addr base len f7 = write_by_loader fuel fl addr base len
write_family fuel fl addr base len l4 = write_by_loader fuel fl addr base len
write_family fuel fl addr base len h5 = write_by_loader fuel fl addr base len
write_family fuel fl addr base len wb0 = write_wb0 fuel fl addr base len
write_family fuel fl addr base len c5 = write_rows fuel fuel addr base len (padded_to_rows len) 0
write_family fuel fl addr base len wb_wl = write_double_words fuel addr base len
write_family fuel fl addr base len g0 = write_double_words fuel addr base len
write_family fuel fl addr base len g4 = write_double_words fuel addr base len
write_family fuel fl addr base len l5_u5 = write_double_words fuel addr base len
write_family fuel fl addr base len c0 = write_double_words fuel addr base len
write_family fuel fl addr base len l0_l1 = write_l0_l1 fuel fl addr base len
write_family fuel fl addr base len f0_f1_f3 = write_fpec fuel fl addr base len
write_family fuel fl addr base len f1_xl = write_fpec fuel fl addr base len
write_family fuel fl addr base len h7 = write_h7 fuel fuel addr base len 0
write_family fuel fl addr base len _ = pure (some failure)

unfoldable pub result_of : Option ℤ → M ℤ
unfolding check_flash_error
result_of none = check_flash_error
result_of (some ret) = pure ret

unfoldable pub stlink_flashloader_write : ℕ → FlashLoader → ℕ → List ℕ → ℕ → M ℤ
unfolding write_family result_of
stlink_flashloader_write fuel fl addr base len = do
  sl ← get
  early ← write_family fuel fl addr base len sl.flash_type
  result_of early
