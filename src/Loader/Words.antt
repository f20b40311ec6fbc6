-- ===== src/Loader/Words.antt =====
-- flash_loader.c, in `stlink_flashloader_write`: the writes of words and rows by the host. `base` lists the
-- bytes from the pointer on; the bytes past its end are taken for 0. The first number bounds the rounds.
pub mod Image
pub mod Fills
pub mod Rows
use libstlink.Prelude.{
  ℕ, zero, suc, ◌+◌, ◌-◌, ◌/◌, ◌%◌, ◌^◌, Bool, true, false, not, ◌&&◌, Option, none, some, List, [],
  ◌∷◌, ◌++◌, ℤ, success, failure, is_nonzero, bit_and, take, drop, replicate, ltb, ◌==◌,
  if◌then◌else◌,
}
use libstlink.Word.{add32, sub32, clear, is_set, shr32, uint32_max}
use libstlink.Registers.Fpec
use libstlink.Registers.Wb0
use libstlink.Stlink.{FlashType, l5_u5, Stlink, M, pure, get, ◌>>=◌, ◌>>◌}
use libstlink.Stlink.ReadWrite.{
  read_uint32, stlink_read_debug32, stlink_write_debug32, stlink_write_mem32,
}
use libstlink.Flash.Control.{get_stm32l0_flash_base}
use libstlink.Flash.Status.{wait_flash_busy, check_flash_error}
use libstlink.Loader.Buffer.{copy_to_q_buf}

-- The smaller one of two numbers, where the source writes the test out.
abbrev pub at_most : ℕ → ℕ → ℕ
at_most n limit = if ltb n limit then n else limit

-- data = 0; memcpy(&data, base + off, n)
unfoldable pub word_of : List ℕ → ℕ
unfolding read_uint32
word_of bytes = read_uint32 bytes 0

-- WB, WL, G0, G4, L5, U5 and C0: the offset behind the last word.
unfoldable pub write_words : ℕ → ℕ → ℕ → List ℕ → ℕ → ℕ → M ℕ
unfolding word_of stlink_write_debug32
write_words zero fuel addr base len off = λ sl. none
write_words (suc rounds) fuel addr base len off = elim (ltb off len) [
  | false ↦ pure off
  | true ↦ (do
    stlink_write_debug32 (add32 addr off)
        (word_of (take (at_most (sub32 len off) 4) (drop off base)))
    wait_flash_busy fuel
    write_words rounds fuel addr base len (add32 off 4))
]

-- The L5 and the U5 program 16 bytes at a time.
unfoldable pub padded_len : FlashType → ℕ → ℕ
padded_len l5_u5 len = if is_set (len % 16) then add32 len (16 - len % 16) else len
padded_len _ len = len

-- Two words at a time: an odd word is followed by one of zeros.
unfoldable pub write_double_words : ℕ → ℕ → List ℕ → ℕ → M (Option ℤ)
unfolding padded_len write_words stlink_write_debug32
write_double_words fuel addr base len = do
  sl ← get
  off ← write_words fuel fuel addr base (padded_len sl.flash_type len) 0
  if is_set (off / 4 % 2)
      then (do stlink_write_debug32 (add32 addr off) 0; wait_flash_busy fuel; pure none)
      else pure none

-- STM32C5: rows of four words, the last one padded with 0xff.
unfoldable pub write_rows : ℕ → ℕ → ℕ → List ℕ → ℕ → ℕ → ℕ → M (Option ℤ)
unfolding copy_to_q_buf stlink_write_mem32
write_rows zero fuel addr base len padded off = λ sl. none
write_rows (suc rounds) fuel addr base len padded off =
    let n = at_most (sub32 len off) 16 in
    elim (ltb off padded) [
      | false ↦ pure none
      | true ↦ (do
        copy_to_q_buf n (drop off base) (16 - n)
        ret ← stlink_write_mem32 (add32 addr off) 16
        elim (is_nonzero ret) [
          | true ↦ (do check_flash_error; pure (some failure))
          | false ↦ (do
            wait_flash_busy fuel
            err ← check_flash_error
            elim (is_nonzero err) [
              | true ↦ pure (some failure)
              | false ↦ write_rows rounds fuel addr base len padded (add32 off 16)
            ])
        ])
    ]

-- H7: 64 bytes at a time. The last time the rest of `q_buf` is what it was.
unfoldable pub write_h7 : ℕ → ℕ → ℕ → List ℕ → ℕ → ℕ → M (Option ℤ)
unfolding copy_to_q_buf stlink_write_mem32
write_h7 zero fuel addr base len off = λ sl. none
write_h7 (suc rounds) fuel addr base len off =
    let chunk = if ltb 64 (sub32 len off) then 64 else sub32 len off in
    elim (ltb off len) [
      | false ↦ pure none
      | true ↦ (do
        copy_to_q_buf chunk (drop off base) 0
        stlink_write_mem32 (add32 addr off) 64
        wait_flash_busy fuel
        write_h7 rounds fuel addr base len (add32 off chunk))
    ]

-- do { … } while: the busy bit of the L0 and L1.
unfoldable pub wait_sr_clear : ℕ → ℕ → M (Unit {0})
unfolding stlink_read_debug32
wait_sr_clear zero sr_reg = λ sl. none
wait_sr_clear (suc fuel) sr_reg = do
  (ret, val) ← stlink_read_debug32 sr_reg
  elim (is_set (bit_and val (2 ^ 0))) [ true ↦ wait_sr_clear fuel sr_reg | false ↦ pure tt ]

-- L0 and L1: the words behind the half pages.
unfoldable pub write_rest_words : ℕ → ℕ → ℕ → ℕ → List ℕ → ℕ → ℕ → M (Option ℤ)
unfolding word_of stlink_write_debug32 wait_sr_clear
write_rest_words zero fuel sr_reg addr base len off = λ sl. none
write_rest_words (suc rounds) fuel sr_reg addr base len off = elim (ltb off len) [
  | false ↦ pure none
  | true ↦ (do
    stlink_write_debug32 (add32 addr off) (word_of (drop off base))
    wait_sr_clear fuel sr_reg
    write_rest_words rounds fuel sr_reg addr base len (add32 off 4))
]

-- WB0: one word of the OTP area, its bytes before and behind the data 0xff.
unfoldable pub otp_word : ℕ → List ℕ → ℕ
unfolding word_of
otp_word unused_front bytes = word_of (replicate unused_front 0xff ++ (bytes ++ replicate 4 0xff))

unfoldable pub write_otp_words : ℕ → ℕ → ℕ → List ℕ → ℕ → ℕ → M (Option ℤ)
unfolding otp_word stlink_write_debug32
write_otp_words zero fuel addr base len off = λ sl. none
write_otp_words (suc rounds) fuel addr base len off =
    let current_addr = add32 addr off in
    let unused_front = sub32 current_addr (clear current_addr 3) in
    let n = at_most (sub32 len off) (4 - unused_front) in
    elim (ltb off len) [
      | false ↦ pure none
      | true ↦ (do
        stlink_write_debug32 Wb0.irqraw Wb0.irq_all
        stlink_write_debug32 Wb0.data0 (otp_word unused_front (take n (drop off base)))
        stlink_write_debug32 Wb0.address (shr32 current_addr 2)
        stlink_write_debug32 Wb0.command Wb0.cmd_otpwrite
        wait_flash_busy fuel
        err ← check_flash_error
        elim (is_nonzero err) [
          | true ↦ pure (some failure)
          | false ↦ write_otp_words rounds fuel addr base len (add32 off n)
        ])
    ]
