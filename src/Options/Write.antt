-- ===== src/Options/Write.antt =====
-- option_bytes.c: the entry points of the writes. `fuel` bounds the rounds of each loop and the polls of
-- each wait.
use libstlink.Prelude.{
  ℕ, Bool, true, false, ◌||◌, Option, none, some, List, ℤ, failure, is_nonzero, length, replicate,
  ltb, ◌==◌, if◌then◌else◌,
}
use libstlink.Word.{add32}
use libstlink.Stlink.{
  FlashType, c0, f0_f1_f3, f1_xl, f2_f4, f7, g0, g4, h7, l0_l1, l4, l5_u5, wb_wl, Stlink, M, pure,
  get, ◌>>=◌, ◌>>◌,
}
use libstlink.Stlink.ReadWrite.{write_uint32}
use libstlink.Flash.Control.{lock_flash}
use libstlink.Flash.OptionLock.{unlock_flash_option_if, lock_flash_option}
use libstlink.Flash.Status.{wait_flash_busy}
use libstlink.Flash.Unlock.{unlock_flash_if}
use libstlink.Loader.{FlashLoader}
use libstlink.WriteFlash.{stlink_fwrite_finalize}
use libstlink.Options.Fpec.{stlink_write_option_bytes_f0, stlink_write_option_control_register_f0}
use libstlink.Options.Loops.{
  stlink_write_option_bytes_h7, stlink_write_option_bytes_l0, stlink_write_option_bytes_l5,
  stlink_write_option_bytes_wb,
}
use libstlink.Options.Small.{
  stlink_write_option_bytes_c0, stlink_write_option_bytes_f4, stlink_write_option_bytes_f7,
  stlink_write_option_bytes_gx, stlink_write_option_bytes_l4,
  stlink_write_option_control_register_c0, stlink_write_option_control_register_f7,
  stlink_write_option_control_register1_f7, stlink_write_option_bytes_boot_add_f7,
  stlink_write_option_control_register_wb,
}

-- A write between the unlocking of the flash and of the option bytes, and their locking. The four
-- entry points open with it and close with it.
unfoldable pub with_options_open : ℕ → M ℤ → M ℤ
unfolding wait_flash_busy unlock_flash_if unlock_flash_option_if lock_flash_option lock_flash
with_options_open fuel body = do
  wait_flash_busy fuel
  unlocked ← unlock_flash_if
  elim (is_nonzero unlocked) [
    | true ↦ pure failure
    | false ↦ (do
      options_unlocked ← unlock_flash_option_if
      elim (is_nonzero options_unlocked) [
        | true ↦ pure failure
        | false ↦ (do ret ← body; lock_flash_option; lock_flash; pure ret)
      ])
  ]

unfoldable pub write_option_bytes_of : ℕ → FlashLoader → ℕ → List ℕ → ℕ → FlashType → M ℤ
unfolding stlink_write_option_bytes_c0 stlink_write_option_bytes_f0 stlink_write_option_bytes_f4
    stlink_write_option_bytes_f7 stlink_write_option_bytes_l0 stlink_write_option_bytes_l4
    stlink_write_option_bytes_gx stlink_write_option_bytes_h7 stlink_write_option_bytes_wb
    stlink_write_option_bytes_l5
write_option_bytes_of fuel fl addr base len c0 = stlink_write_option_bytes_c0 fuel base
write_option_bytes_of fuel fl addr base len f0_f1_f3 =
    stlink_write_option_bytes_f0 fuel fl addr base len
write_option_bytes_of fuel fl addr base len f1_xl =
    stlink_write_option_bytes_f0 fuel fl addr base len
write_option_bytes_of fuel fl addr base len f2_f4 = stlink_write_option_bytes_f4 fuel base
write_option_bytes_of fuel fl addr base len f7 = stlink_write_option_bytes_f7 fuel addr base
write_option_bytes_of fuel fl addr base len l0_l1 = stlink_write_option_bytes_l0 fuel addr base len
write_option_bytes_of fuel fl addr base len l4 = stlink_write_option_bytes_l4 fuel base
write_option_bytes_of fuel fl addr base len g0 = stlink_write_option_bytes_gx fuel base
write_option_bytes_of fuel fl addr base len g4 = stlink_write_option_bytes_gx fuel base
write_option_bytes_of fuel fl addr base len h7 = stlink_write_option_bytes_h7 fuel addr base len
write_option_bytes_of fuel fl addr base len wb_wl = stlink_write_option_bytes_wb fuel addr base len
write_option_bytes_of fuel fl addr base len l5_u5 = stlink_write_option_bytes_l5 fuel addr base len
write_option_bytes_of fuel fl addr base len _ = pure failure

-- The start may be the end of the option bytes.
unfoldable pub option_range_ok : Stlink → ℕ → ℕ → Bool
option_range_ok sl addr len =
    let end_addr = add32 sl.option_base sl.option_size in
    if sl.option_base == 0
    then false
    else if ltb addr sl.option_base || ltb end_addr addr
    then false
    else if ltb end_addr (add32 addr len)
    then false
    else true

unfoldable pub stlink_write_option_bytes : ℕ → FlashLoader → ℕ → List ℕ → ℕ → M ℤ
unfolding option_range_ok with_options_open write_option_bytes_of
stlink_write_option_bytes fuel fl addr base len = do
  sl ← get
  elim (option_range_ok sl addr len) [
    | false ↦ pure failure
    | true ↦ with_options_open fuel (write_option_bytes_of fuel fl addr base len sl.flash_type)
  ]

-- `none`: the file cannot be mapped.
unfoldable pub stlink_fwrite_option_bytes : ℕ → FlashLoader → Option (List ℕ) → ℕ → M ℤ
unfolding stlink_write_option_bytes stlink_fwrite_finalize
stlink_fwrite_option_bytes fuel fl none addr = pure failure
stlink_fwrite_option_bytes fuel fl (some base) addr = do
  err ← stlink_write_option_bytes fuel fl addr base (length base)
  stlink_fwrite_finalize addr
  pure err

unfoldable pub stlink_write_option_bytes32 : ℕ → FlashLoader → ℕ → M ℤ
unfolding stlink_write_option_bytes write_uint32
stlink_write_option_bytes32 fuel fl option_byte = do
  sl ← get
  stlink_write_option_bytes fuel fl sl.option_base (write_uint32 (replicate 4 0) option_byte) 4

unfoldable pub write_control_register_of : ℕ → FlashLoader → ℕ → FlashType → M ℤ
unfolding stlink_write_option_control_register_c0 stlink_write_option_control_register_f0
    stlink_write_option_control_register_f7 stlink_write_option_control_register_wb
write_control_register_of fuel fl option_cr c0 =
    stlink_write_option_control_register_c0 fuel option_cr
write_control_register_of fuel fl option_cr f0_f1_f3 =
    stlink_write_option_control_register_f0 fuel fl option_cr
write_control_register_of fuel fl option_cr f1_xl =
    stlink_write_option_control_register_f0 fuel fl option_cr
write_control_register_of fuel fl option_cr f7 =
    stlink_write_option_control_register_f7 fuel option_cr
write_control_register_of fuel fl option_cr wb_wl =
    stlink_write_option_control_register_wb fuel option_cr
write_control_register_of fuel fl option_cr _ = pure failure

unfoldable pub stlink_write_option_control_register32 : ℕ → FlashLoader → ℕ → M ℤ
unfolding with_options_open write_control_register_of
stlink_write_option_control_register32 fuel fl option_cr = do
  sl ← get
  with_options_open fuel (write_control_register_of fuel fl option_cr sl.flash_type)

abbrev only_f7 : M ℤ → FlashType → M ℤ
only_f7 m f7 = m
only_f7 m _ = pure failure

unfoldable pub stlink_write_option_control_register1_32 : ℕ → ℕ → M ℤ
unfolding with_options_open stlink_write_option_control_register1_f7
stlink_write_option_control_register1_32 fuel option_cr1 = do
  sl ← get
  with_options_open fuel
      (only_f7 (stlink_write_option_control_register1_f7 fuel option_cr1) sl.flash_type)

unfoldable pub stlink_write_option_bytes_boot_add32 : ℕ → ℕ → M ℤ
unfolding with_options_open stlink_write_option_bytes_boot_add_f7
stlink_write_option_bytes_boot_add32 fuel option_bytes_boot_add = do
  sl ← get
  with_options_open fuel
      (only_f7 (stlink_write_option_bytes_boot_add_f7 fuel option_bytes_boot_add) sl.flash_type)
