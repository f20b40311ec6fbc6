-- ===== src/Options/Loops.antt =====
-- option_bytes.c: the writes that take a run of words. The first number bounds the words. `len` is counted
-- down by 4 until it is 0, as a uint32_t.
pub mod Fills
use libstlink.Prelude.{
  ℕ, zero, suc, ◌+◌, ◌-◌, ◌^◌, Bool, true, false, not, ◌&&◌, ◌||◌, none, List, ℤ, success, failure,
  is_nonzero, bit_and, bit_or, drop, ◌==◌, if◌then◌else◌,
}
use libstlink.Word.{add32, sub32, is_set}
use libstlink.Registers.Fpec
use libstlink.Registers.H7
use libstlink.Registers.L0
use libstlink.Registers.L5
use libstlink.Registers.Wb
use libstlink.Stlink.{Stlink, M, pure, get, ◌>>=◌, ◌>>◌}
use libstlink.Stlink.ReadWrite.{stlink_read_debug32, stlink_write_debug32}
use libstlink.Flash.Control.{get_stm32l0_flash_base, clear_flash_error}
use libstlink.Flash.Status.{wait_flash_busy, check_flash_error}
use libstlink.Options.Small.{first_word, set_bit_of, start_and_launch}

-- The loop of the L0, the WB and the L5.
unfoldable pub write_option_words : ℕ → ℕ → ℕ → List ℕ → ℕ → M ℤ
unfolding first_word stlink_write_debug32
write_option_words zero fuel addr base len = λ sl. none
write_option_words (suc rounds) fuel addr base len = elim (len == 0) [
  | true ↦ pure success
  | false ↦ (do
    stlink_write_debug32 addr (first_word base)
    wait_flash_busy fuel
    ret ← check_flash_error
    elim (is_nonzero ret) [
      | true ↦ pure ret
      | false ↦ write_option_words rounds fuel (add32 addr 4) (drop 4 base) (sub32 len 4)
    ])
]

unfoldable pub stlink_write_option_bytes_l0 : ℕ → ℕ → List ℕ → ℕ → M ℤ
unfolding get_stm32l0_flash_base clear_flash_error write_option_words set_bit_of
stlink_write_option_bytes_l0 fuel addr base len = do
  sl ← get
  let flash_base = get_stm32l0_flash_base sl
  clear_flash_error
  ret ← write_option_words fuel fuel addr base len
  set_bit_of (flash_base + Fpec.pecr_off) L0.obl_launch
  pure ret

unfoldable pub stlink_write_option_bytes_wb : ℕ → ℕ → List ℕ → ℕ → M ℤ
unfolding clear_flash_error write_option_words start_and_launch
stlink_write_option_bytes_wb fuel addr base len = do
  clear_flash_error
  write_option_words fuel fuel addr base len
  start_and_launch fuel Wb.cr Wb.cr_optstrt Wb.cr_obl_launch

unfoldable pub stlink_write_option_bytes_l5 : ℕ → ℕ → List ℕ → ℕ → M ℤ
unfolding clear_flash_error write_option_words start_and_launch
stlink_write_option_bytes_l5 fuel addr base len = do
  clear_flash_error
  write_option_words fuel fuel addr base len
  start_and_launch fuel L5.nscr L5.nscr_nsoptstrt L5.nscr_obl_launch

-- The addresses of the FLASH_xxx_PRG registers; others are skipped.
unfoldable pub is_prg : ℕ → Bool
is_prg addr =
    addr == H7.regs_addr + 0x20
    || addr == H7.regs_addr + 0x2c
    || addr == H7.regs_addr + 0x34
    || addr == H7.regs_addr + 0x3c
    || addr == H7.regs_addr + 0x44

-- do { … } while: the last value of FLASH_OPTSR_CUR.
unfoldable pub wait_option_change : ℕ → M ℕ
unfolding stlink_read_debug32
wait_option_change zero = λ sl. none
wait_option_change (suc fuel) = do
  (ret, val) ← stlink_read_debug32 H7.optsr_cur
  elim (is_set (bit_and val (2 ^ H7.optsr_opt_busy))) [
    | true ↦ wait_option_change fuel
    | false ↦ pure val
  ]

clear_change_error : M (Unit {0})
unfolding stlink_write_debug32
clear_change_error = do stlink_write_debug32 H7.optccr (2 ^ H7.optccr_clr_optchangeerr); pure tt

-- One register: nothing is written where its current value is the new one already.
unfoldable pub change_h7 : ℕ → ℕ → ℕ → M ℤ
unfolding stlink_read_debug32 stlink_write_debug32 set_bit_of wait_option_change clear_change_error
change_h7 fuel addr val = do
  (ret, cur) ← stlink_read_debug32 (addr - 4)
  if cur == val then pure success else (do
    stlink_write_debug32 addr val
    set_bit_of H7.optcr H7.optcr_optstart
    optsr ← wait_option_change fuel
    if is_set (bit_and optsr (2 ^ H7.optsr_optchangeerr))
        then (do clear_change_error; pure failure)
        else pure success)

unfoldable pub write_words_h7 : ℕ → ℕ → ℕ → List ℕ → ℕ → M ℤ
unfolding is_prg change_h7 first_word
write_words_h7 zero fuel addr base len = λ sl. none
write_words_h7 (suc rounds) fuel addr base len = elim (len == 0) [
  | true ↦ pure success
  | false ↦ (do
    ret ← (if is_prg addr then change_h7 fuel addr (first_word base) else pure success)
    elim (is_nonzero ret) [
      | true ↦ pure ret
      | false ↦ write_words_h7 rounds fuel (add32 addr 4) (drop 4 base) (sub32 len 4)
    ])
]

unfoldable pub stlink_write_option_bytes_h7 : ℕ → ℕ → List ℕ → ℕ → M ℤ
unfolding wait_flash_busy clear_change_error write_words_h7
stlink_write_option_bytes_h7 fuel addr base len = do
  wait_flash_busy fuel
  clear_change_error
  write_words_h7 fuel fuel addr base len
