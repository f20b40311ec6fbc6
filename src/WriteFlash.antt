-- ===== src/WriteFlash.antt =====
-- common_flash.c: `stlink_write_flash`, `stlink_write_otp` and the writes of buffers and files. The file is
-- the list of its bytes, and `none` where it cannot be mapped; its checksum on stdout is left out. `fl` is what the
-- local flash_loader_t holds before it is assigned.
pub mod Verified
use libstlink.Prelude.{
  ℕ, zero, suc, ◌+◌, ◌%◌, Bool, true, false, not, ◌&&◌, ◌||◌, Option, none, some, List, ℤ, pos,
  success, failure, is_nonzero, is_negative, length, if◌then◌else◌,
}
use libstlink.Word.{add32, is_set}
use libstlink.Calculate.{stlink_calculate_pagesize}
use libstlink.Stlink.{FlashType, c5, RunType, run_normal, Stlink, M, pure, get, ◌>>=◌, ◌>>◌}
use libstlink.Stlink.ReadWrite.{stlink_read_debug32, stlink_write_reg}
use libstlink.Flash.Range.{
  stlink_check_address_range_validity, stlink_check_address_range_validity_otp,
  stlink_check_address_alignment,
}
use libstlink.Flash.EraseSection.{stlink_erase_flash_section}
use libstlink.Flash.Trim.{num_empty, write_extent}
use libstlink.Flash.Verify.{stlink_verify_write_flash, check_file}
use libstlink.Target.{stlink_core_id, stlink_run}
use libstlink.Loader.{FlashLoader}
use libstlink.Loader.Start.{stlink_flashloader_start}
use libstlink.Loader.Write.{starts_in, stlink_flashloader_write}
use libstlink.Loader.Stop.{stlink_flashloader_stop}

-- enum erase_type_t
pub data EraseType : Type 0 where
  no_erase section_erase mass_erase : EraseType

is_section : EraseType → Bool
is_section section_erase = true
is_section _ = false

is_c5 : FlashType → Bool
is_c5 c5 = true
is_c5 _ = false

-- if(ret) return ret;
abbrev pub and_then : M ℤ → M ℤ → M ℤ
and_then m k = do ret ← m; elim (is_nonzero ret) [ true ↦ pure ret | false ↦ k ]

-- The writes and the comparison behind them, common to the flash and the OTP area.
unfoldable pub write_verified : ℕ → FlashLoader → ℕ → List ℕ → ℕ → M ℤ
unfolding stlink_flashloader_start stlink_flashloader_write stlink_flashloader_stop
    stlink_verify_write_flash
write_verified fuel fl addr base len = do
  (ret, fl') ← stlink_flashloader_start fuel fl
  elim (is_nonzero ret) [
    | true ↦ pure ret
    | false ↦
        and_then (stlink_flashloader_write fuel fl' addr base len)
          (and_then (stlink_flashloader_stop fl') (stlink_verify_write_flash fuel addr base len))
  ]

-- The checks: the length to write, where they pass. An odd length is padded, and the test of the
-- alignment is skipped.
unfoldable pub checked_len : ℕ → ℕ → ℕ → M (Option ℕ)
unfolding stlink_calculate_pagesize stlink_check_address_alignment is_c5
checked_len fuel addr len = do
  stlink_calculate_pagesize addr
  sl ← get
  if is_negative (stlink_check_address_range_validity sl addr len)
      then pure none
      else if is_set (len % 2) && not (is_c5 sl.flash_type)
      then pure (some (add32 len 1))
      else (do
        aligned ← stlink_check_address_alignment fuel addr
        pure (if is_negative aligned then none else some len))

unfoldable pub erase_first : ℕ → ℕ → ℕ → EraseType → M ℤ
unfolding stlink_erase_flash_section is_section
erase_first fuel addr len erase_type =
    if is_section erase_type then stlink_erase_flash_section fuel addr len true else pure success

unfoldable pub write_checked : ℕ → FlashLoader → ℕ → List ℕ → Bool → EraseType → Option ℕ → M ℤ
unfolding stlink_core_id erase_first write_verified
write_checked fuel fl addr base eraseonly erase_type none = pure failure
write_checked fuel fl addr base eraseonly erase_type (some len) = do
  stlink_core_id
  erased ← erase_first fuel addr len erase_type
  elim (is_negative erased) [
    | true ↦ pure failure
    | false ↦ elim eraseonly [ true ↦ pure success | false ↦ write_verified fuel fl addr base len ]
  ]

unfoldable pub stlink_write_flash : ℕ → FlashLoader → ℕ → List ℕ → ℕ → Bool → EraseType → M ℤ
unfolding checked_len write_checked
stlink_write_flash fuel fl addr base len eraseonly erase_type = do
  checked ← checked_len fuel addr len
  write_checked fuel fl addr base eraseonly erase_type checked

unfoldable pub stlink_write_otp : ℕ → FlashLoader → ℕ → List ℕ → ℕ → M ℤ
unfolding stlink_core_id write_verified
stlink_write_otp fuel fl addr base len = do
  sl ← get
  if is_negative (stlink_check_address_range_validity_otp sl addr len)
      then pure failure
      else (do stlink_core_id; write_verified fuel fl addr base len)

-- The target runs from its reset routine.
unfoldable pub stlink_fwrite_finalize : ℕ → M (Unit {0})
unfolding stlink_read_debug32 stlink_write_reg stlink_run
stlink_fwrite_finalize addr = do
  (ret, val) ← stlink_read_debug32 (add32 addr 4)
  stlink_write_reg val (pos 15)
  stlink_run run_normal
  pure tt

unfoldable pub stlink_mwrite_flash : ℕ → FlashLoader → List ℕ → ℕ → ℕ → EraseType → M ℤ
unfolding write_extent stlink_write_flash stlink_fwrite_finalize
stlink_mwrite_flash fuel fl bytes length addr erase_type = do
  sl ← get
  let (len, eraseonly) = write_extent sl bytes length
  err ← stlink_write_flash fuel fl addr bytes len eraseonly erase_type
  stlink_fwrite_finalize addr
  pure err

unfoldable pub stlink_fwrite_flash : ℕ → FlashLoader → Option (List ℕ) → ℕ → EraseType → M ℤ
unfolding write_extent stlink_write_otp stlink_write_flash stlink_fwrite_finalize
stlink_fwrite_flash fuel fl none addr erase_type = pure failure
stlink_fwrite_flash fuel fl (some base) addr erase_type = do
  sl ← get
  let (len, eraseonly) = write_extent sl base (length base)
  err ←
      (if starts_in addr sl.otp_base sl.otp_size
        then stlink_write_otp fuel fl addr base len
        else stlink_write_flash fuel fl addr base len eraseonly erase_type)
  stlink_fwrite_finalize addr
  pure err

unfoldable pub stlink_fcheck_flash : ℕ → Option (List ℕ) → ℕ → M ℤ
unfolding check_file
stlink_fcheck_flash fuel none addr = pure failure
stlink_fcheck_flash fuel (some base) addr = check_file fuel base (length base) addr
