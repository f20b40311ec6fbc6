-- ===== src/Loader/Buffer.antt =====
-- flash_loader_t (.deprecated/inc/stlink.h), the copies into `q_buf`, and common_legacy.c:
-- `write_buffer_to_sram`. Each copy starts at the start of `q_buf`, and a fill follows it.
use libstlink.Prelude.{
  ℕ, zero, ◌-◌, Bool, true, false, not, ◌&&◌, List, ◌++◌, ℤ, negsuc, success, is_nonzero, bit_and,
  length, take, drop, replicate, ltb, if◌then◌else◌, some,
}
use libstlink.Word.{add32, clear, is_set}
use libstlink.Stlink.{M, pure, ◌>>=◌, ◌>>◌}
use libstlink.Stlink.ReadWrite.{stlink_write_mem32, stlink_write_mem8}

pub record FlashLoader : Type 0 where
  pub loader_addr : ℕ
  pub buf_addr : ℕ
  pub rcc_dma_bkp : ℕ
  pub iwdg_kr : ℕ

-- ret == -1
abbrev pub is_minus_one : ℤ → Bool
is_minus_one (negsuc zero) = true
is_minus_one _ = false

-- A buffer with some bytes copied to its start.
abbrev pub overwritten : List ℕ → List ℕ → List ℕ
overwritten bytes buf = bytes ++ drop (length bytes) buf

-- memcpy(sl->q_buf, src, n), and memset of the pad bytes behind it.
unfoldable pub copy_to_q_buf : ℕ → List ℕ → ℕ → M (Unit {0})
copy_to_q_buf n src pad sl =
    some (tt, record sl { q_buf = overwritten (take n src ++ replicate pad 0xff) sl.q_buf })

-- The bytes that do not make up a word.
unfoldable pub write_rest : FlashLoader → List ℕ → ℕ → ℕ → ℕ → M ℤ
unfolding copy_to_q_buf stlink_write_mem8
write_rest fl buf word_chunk byte_chunk remaining =
    let data_cnt = if ltb remaining byte_chunk then remaining else byte_chunk in
    do
      copy_to_q_buf data_cnt (drop word_chunk buf) (byte_chunk - data_cnt)
      stlink_write_mem8 (add32 fl.buf_addr word_chunk) byte_chunk

-- size and padded_size are of the type uint16_t.
unfoldable pub write_buffer_to_sram : FlashLoader → List ℕ → ℕ → ℕ → M ℤ
unfolding copy_to_q_buf stlink_write_mem32 write_rest
write_buffer_to_sram fl buf size padded_size =
    let padded = if ltb padded_size size then size else padded_size in
    let word_chunk = clear padded 3 in
    let byte_chunk = bit_and padded 3 in
    if is_set word_chunk
    then (let data_cnt = if ltb size word_chunk then size else word_chunk in
        do
          copy_to_q_buf data_cnt buf (word_chunk - data_cnt)
          ret ← stlink_write_mem32 fl.buf_addr word_chunk
          if is_set byte_chunk && not (is_nonzero ret)
              then write_rest fl buf word_chunk byte_chunk (size - data_cnt)
              else pure ret)
    else if is_set byte_chunk
    then write_rest fl buf word_chunk byte_chunk size
    else pure success
