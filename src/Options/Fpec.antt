-- ===== src/Options/Fpec.antt =====
-- option_bytes.c: the option bytes of the F0, F1 and F3, which the flash loader writes. `fl` is what the local
-- flash_loader_t holds before it is assigned.
pub mod Complement
use libstlink.Prelude.{
  ℕ, ◌+◌, ◌/◌, ◌%◌, ◌^◌, Bool, true, false, not, ◌||◌, List, [], ◌∷◌, ℤ, success, failure,
  is_nonzero, bit_and, bit_or, length, ltb, ◌==◌, if◌then◌else◌,
}
use libstlink.Word.{not32, shl32, shr32, is_set}
use libstlink.Registers.Fpec
use libstlink.Registers.Memory
use libstlink.Stlink.{Stlink, M, pure, get, ◌>>=◌, ◌>>◌}
use libstlink.Stlink.ReadWrite.{stlink_read_debug32, stlink_write_debug32}
use libstlink.Flash.Control.{clear_flash_error}
use libstlink.Flash.Status.{wait_flash_busy, check_flash_error}
use libstlink.Loader.{FlashLoader}
use libstlink.Loader.Choice.{stlink_flash_loader_init}
use libstlink.Loader.Run.{stlink_flash_loader_run}

-- The bytes are erased, then written and loaded.
program_f0 : FlashLoader → ℕ → List ℕ → ℕ → M ℤ
unfolding stlink_write_debug32 stlink_flash_loader_init stlink_flash_loader_run check_flash_error
program_f0 fl addr base len = do
  stlink_write_debug32 Fpec.cr (bit_or (2 ^ Fpec.cr_optpg) (2 ^ Fpec.cr_optwre))
  (ret₀, fl') ← stlink_flash_loader_init fl
  if is_nonzero ret₀ then pure ret₀ else (do
    ret₁ ← stlink_flash_loader_run fl' addr base len
    if is_nonzero ret₁
        then pure ret₁
        else (do stlink_write_debug32 Fpec.cr (2 ^ Fpec.cr_obl_launch); check_flash_error))

unfoldable pub stlink_write_option_bytes_f0 : ℕ → FlashLoader → ℕ → List ℕ → ℕ → M ℤ
unfolding clear_flash_error stlink_write_debug32 wait_flash_busy check_flash_error program_f0
stlink_write_option_bytes_f0 fuel fl addr base len =
    if ltb len 12 || not (addr == Memory.option_bytes_base_f0) then pure failure else (do
      clear_flash_error
      stlink_write_debug32 Fpec.cr (bit_or (2 ^ Fpec.cr_opter) (2 ^ Fpec.cr_optwre))
      ret ←
          stlink_write_debug32 Fpec.cr
            (bit_or (bit_or (2 ^ Fpec.cr_opter) (2 ^ Fpec.cr_strt)) (2 ^ Fpec.cr_optwre))
      if is_nonzero ret then pure ret else (do
        wait_flash_busy fuel
        ret₁ ← check_flash_error
        if is_nonzero ret₁ then pure ret₁ else program_f0 fl addr base len))

-- The chips whose user options start at bit 8 of the register, and their data at bit 16.
unfoldable pub is_f0_layout : ℕ → Bool
is_f0_layout id =
    id == 0x422
    || id == 0x432
    || id == 0x438
    || id == 0x446
    || id == 0x439
    || id == 0x440
    || id == 0x444
    || id == 0x445
    || id == 0x448
    || id == 0x442

-- VAL_WITH_COMPLEMENT(v): a byte, and its complement above it.
unfoldable pub val_with_complement : ℕ → ℕ
val_with_complement v = bit_or (bit_and v 0xff) (bit_and (shl32 (not32 v) 8) 0xff00) % 2 ^ 16

-- The value of `option_cr` in the two layouts.
unfoldable pub opt_val : ℕ → ℕ → ℕ → List ℕ
unfolding is_f0_layout val_with_complement
opt_val chip_id option_cr protection =
    let f0 = is_f0_layout chip_id in
    let option_offset = if f0 then 6 else 0 in
    let user_data_offset = if f0 then 16 else 10 in
    let rdp = if f0 then 0x55aa else 0x5aa5 in
    let user_options = bit_and (shr32 (shr32 option_cr option_offset) 2) 0xffff in
    let user_data = bit_and (shr32 option_cr user_data_offset) 0xffff in
    (if is_set (bit_and option_cr (2 ^ 1)) then 0xffff else rdp)
    ∷ val_with_complement user_options
    ∷ val_with_complement user_data
    ∷ val_with_complement (shr32 user_data 8)
    ∷ val_with_complement protection
    ∷ val_with_complement (shr32 protection 8)
    ∷ val_with_complement (shr32 protection 16)
    ∷ val_with_complement (shr32 protection 24)
    ∷ []

-- (uint8_t *) of an array of uint16_t, on a little-endian host.
unfoldable pub bytes_of : List ℕ → List ℕ
bytes_of [] = []
bytes_of (v ∷ vs) = v % 2 ^ 8 ∷ v / 2 ^ 8 ∷ bytes_of vs

unfoldable pub stlink_write_option_control_register_f0 : ℕ → FlashLoader → ℕ → M ℤ
unfolding clear_flash_error stlink_read_debug32 opt_val bytes_of stlink_write_option_bytes_f0
    check_flash_error
stlink_write_option_control_register_f0 fuel fl option_cr = do
  clear_flash_error
  (ret₀, optiondata) ← stlink_read_debug32 Fpec.obr
  if is_nonzero ret₀ then pure ret₀ else (do
    (ret₁, protection) ← stlink_read_debug32 Fpec.wrpr
    if is_nonzero ret₁ then pure ret₁ else (do
      sl ← get
      ret ←
          stlink_write_option_bytes_f0 fuel fl Memory.option_bytes_base_f0
            (bytes_of (opt_val sl.chip_id option_cr protection)) 16
      if is_nonzero ret then pure ret else check_flash_error))
