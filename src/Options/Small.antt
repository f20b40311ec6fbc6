-- ===== src/Options/Small.antt =====
-- option_bytes.c: the writes of one or two registers. `base` lists the bytes from the pointer on.
use libstlink.Prelude.{ℕ, ◌^◌, List, ℤ, is_nonzero, bit_or, ◌==◌, if◌then◌else◌}
use libstlink.Word.{clear}
use libstlink.Registers.C0
use libstlink.Registers.F4
use libstlink.Registers.F7
use libstlink.Registers.Gx
use libstlink.Registers.L4
use libstlink.Registers.Wb
use libstlink.Stlink.{M, pure, ◌>>=◌, ◌>>◌}
use libstlink.Stlink.ReadWrite.{read_uint32, stlink_read_debug32, stlink_write_debug32}
use libstlink.Flash.Control.{clear_flash_error}
use libstlink.Flash.Status.{wait_flash_busy, check_flash_error}

-- write_uint32(&data, *(uint32_t *) base) on a host that stores words the same way.
unfoldable pub first_word : List ℕ → ℕ
unfolding read_uint32
first_word base = read_uint32 base 0

unfoldable pub stlink_write_option_control_register_c0 : ℕ → ℕ → M ℤ
unfolding clear_flash_error stlink_write_debug32 wait_flash_busy check_flash_error
stlink_write_option_control_register_c0 fuel option_cr = do
  clear_flash_error
  ret₀ ← stlink_write_debug32 C0.optr option_cr
  if is_nonzero ret₀ then pure ret₀ else (do
    wait_flash_busy fuel
    ret₁ ← stlink_write_debug32 C0.cr (2 ^ C0.cr_optstrt)
    if is_nonzero ret₁ then pure ret₁ else (do
      wait_flash_busy fuel
      ret ← check_flash_error
      if is_nonzero ret
          then pure ret
          else (do stlink_write_debug32 C0.cr (2 ^ C0.cr_obl_launch); pure ret)))

unfoldable pub stlink_write_option_bytes_c0 : ℕ → List ℕ → M ℤ
unfolding stlink_write_option_control_register_c0 first_word
stlink_write_option_bytes_c0 fuel base =
    stlink_write_option_control_register_c0 fuel (first_word base)

-- The value with the start bit set and the lock open.
unfoldable pub started : ℕ → ℕ → ℕ → ℕ
started n lock start = bit_or (clear n (2 ^ lock)) (2 ^ start)

unfoldable pub stlink_write_option_bytes_f4 : ℕ → List ℕ → M ℤ
unfolding clear_flash_error stlink_write_debug32 wait_flash_busy check_flash_error first_word
    started
stlink_write_option_bytes_f4 fuel base = do
  clear_flash_error
  stlink_write_debug32 F4.optcr (started (first_word base) F4.optcr_lock F4.optcr_start)
  wait_flash_busy fuel
  check_flash_error

-- OPTCR1 is written first; the start bit of OPTCR then starts both.
unfoldable pub write_optcr1_f7 : ℕ → M ℤ
unfolding stlink_read_debug32 stlink_write_debug32 started
write_optcr1_f7 val = do
  (ret, oldvalue) ← stlink_read_debug32 F7.optcr
  stlink_write_debug32 F7.optcr1 val
  stlink_write_debug32 F7.optcr (started oldvalue F7.optcr_lock F7.optcr_start)

unfoldable pub write_optcr_f7 : ℕ → M ℤ
unfolding stlink_write_debug32 started
write_optcr_f7 val = stlink_write_debug32 F7.optcr (started val F7.optcr_lock F7.optcr_start)

unfoldable pub stlink_write_option_bytes_f7 : ℕ → ℕ → List ℕ → M ℤ
unfolding clear_flash_error stlink_write_debug32 wait_flash_busy check_flash_error first_word
    write_optcr_f7 write_optcr1_f7
stlink_write_option_bytes_f7 fuel addr base = do
  clear_flash_error
  let val = first_word base
  let addr' = if addr == 0 then F7.optcr else addr
  if addr' == F7.optcr
      then write_optcr_f7 val
      else if addr' == F7.optcr1
      then write_optcr1_f7 val
      else stlink_write_debug32 addr' val
  wait_flash_busy fuel
  check_flash_error

unfoldable pub stlink_write_option_control_register_f7 : ℕ → ℕ → M ℤ
unfolding clear_flash_error wait_flash_busy check_flash_error write_optcr_f7
stlink_write_option_control_register_f7 fuel option_cr = do
  clear_flash_error
  write_optcr_f7 option_cr
  wait_flash_busy fuel
  check_flash_error

unfoldable pub stlink_write_option_control_register1_f7 : ℕ → ℕ → M ℤ
unfolding clear_flash_error wait_flash_busy check_flash_error write_optcr1_f7
stlink_write_option_control_register1_f7 fuel option_cr1 = do
  clear_flash_error
  write_optcr1_f7 option_cr1
  wait_flash_busy fuel
  check_flash_error

unfoldable pub stlink_write_option_bytes_boot_add_f7 : ℕ → ℕ → M ℤ
unfolding stlink_write_option_control_register1_f7
stlink_write_option_bytes_boot_add_f7 fuel option_byte_boot_add =
    stlink_write_option_control_register1_f7 fuel option_byte_boot_add

-- reg |= 1 << shift
unfoldable pub set_bit_of : ℕ → ℕ → M (Unit {0})
unfolding stlink_read_debug32 stlink_write_debug32
set_bit_of reg shift = do
  (ret, val) ← stlink_read_debug32 reg
  stlink_write_debug32 reg (bit_or val (2 ^ shift))
  pure tt

-- The change is started, waited for, and loaded whether or not it failed.
unfoldable pub start_and_launch : ℕ → ℕ → ℕ → ℕ → M ℤ
unfolding set_bit_of wait_flash_busy check_flash_error
start_and_launch fuel cr optstrt obl_launch = do
  set_bit_of cr optstrt
  wait_flash_busy fuel
  ret ← check_flash_error
  set_bit_of cr obl_launch
  pure ret

unfoldable pub stlink_write_option_bytes_gx : ℕ → List ℕ → M ℤ
unfolding clear_flash_error stlink_write_debug32 first_word start_and_launch
stlink_write_option_bytes_gx fuel base = do
  clear_flash_error
  stlink_write_debug32 Gx.optr (first_word base)
  start_and_launch fuel Gx.cr Gx.cr_optstrt Gx.cr_obl_launch

unfoldable pub stlink_write_option_bytes_l4 : ℕ → List ℕ → M ℤ
unfolding clear_flash_error stlink_write_debug32 first_word start_and_launch
stlink_write_option_bytes_l4 fuel base = do
  clear_flash_error
  stlink_write_debug32 L4.optr (first_word base)
  start_and_launch fuel L4.cr L4.cr_optstrt L4.cr_obl_launch

unfoldable pub stlink_write_option_control_register_wb : ℕ → ℕ → M ℤ
unfolding clear_flash_error stlink_write_debug32 wait_flash_busy check_flash_error
stlink_write_option_control_register_wb fuel option_cr = do
  clear_flash_error
  stlink_write_debug32 Wb.optr option_cr
  wait_flash_busy fuel
  stlink_write_debug32 Wb.cr (2 ^ Wb.cr_optstrt)
  wait_flash_busy fuel
  check_flash_error
