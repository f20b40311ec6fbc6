-- ===== src/Loader/Run.antt =====
-- flash_loader.c: `stlink_flash_loader_run`, which hands a chunk to the loader and waits for it.
pub mod Returns
use libstlink.Prelude.{
  ℕ, zero, suc, ◌+◌, ◌-◌, ◌%◌, ◌^◌, Bool, true, false, ◌&&◌, ◌||◌, List, ℤ, pos, success, failure,
  get_or, ltb, leb, if◌then◌else◌,
}
use libstlink.Word.{add32, is_set}
use libstlink.Registers.Debug
use libstlink.Registers.Memory
use libstlink.Registers.Rcc
use libstlink.Stlink.{
  FlashType, f1_xl, wb0, h5, RunType, run_flash_loader, Stlink, M, pure, get, ◌>>=◌, ◌>>◌,
}
use libstlink.Stlink.ReadWrite.{
  stlink_read_debug32, stlink_write_debug32, stlink_read_reg, stlink_write_reg,
  stlink_read_all_regs,
}
use libstlink.Target.{stlink_run, stlink_is_core_halted, stlink_force_debug}
use libstlink.Loader.Buffer.{FlashLoader, is_minus_one, write_buffer_to_sram}

-- The H5 and the WB0 program 16 bytes at a time.
unfoldable pub pad_modulo : FlashType → ℕ
pad_modulo wb0 = 16
pad_modulo h5 = 16
pad_modulo _ = 1

-- A uint16_t.
unfoldable pub padded_to : ℕ → ℕ → ℕ
padded_to modulo size =
    let unaligned_cnt = size % modulo in
    if is_set unaligned_cnt then (size + (modulo - unaligned_cnt)) % 2 ^ 16 else size % 2 ^ 16

unfoldable pub bank_offset : FlashType → ℕ → ℕ
bank_offset f1_xl target =
    if leb Memory.flash_bank2_start_addr target then Memory.flash_regs_bank2_ofs else 0
bank_offset _ target = 0

-- while(time_ms() < timeout): whether the core halts in time.
unfoldable pub wait_halted : ℕ → M Bool
unfolding stlink_is_core_halted
wait_halted zero = pure false
wait_halted (suc polls) = do
  halted ← stlink_is_core_halted
  elim halted [ true ↦ pure true | false ↦ wait_halted polls ]

-- (int32_t) n > 0 || (int32_t) n < -7
unfoldable pub bad_count : ℕ → Bool
bad_count n = ltb 0 n && ltb n (2 ^ 31) || leb (2 ^ 31) n && ltb n (2 ^ 32 - 7)

-- The label `error`: registers that are read for the log.
unfoldable pub report_error : M ℤ
unfolding stlink_force_debug stlink_read_debug32 stlink_read_all_regs
report_error = do
  stlink_force_debug
  stlink_read_debug32 Debug.dhcsr
  stlink_read_debug32 Debug.dfsr
  stlink_read_debug32 Debug.cfsr
  stlink_read_debug32 Debug.hfsr
  sl ← get
  stlink_read_all_regs sl.uninit_reg
  pure failure

unfoldable pub reload_watchdog : FlashLoader → M (Unit {0})
unfolding stlink_write_debug32
reload_watchdog fl =
    if is_set fl.iwdg_kr
    then (do stlink_write_debug32 fl.iwdg_kr Rcc.f0_wdg_kr_key_reload; pure tt)
    else pure tt

-- The core runs the loader until it halts, with the count of bytes that are left in r2.
unfoldable pub start_core : FlashLoader → ℕ → ℕ → M ℤ
unfolding stlink_write_reg reload_watchdog stlink_run wait_halted stlink_read_reg report_error
    bank_offset bad_count
start_core fl target padded_size = do
  sl ← get
  stlink_write_reg fl.buf_addr (pos 0)
  stlink_write_reg target (pos 1)
  stlink_write_reg padded_size (pos 2)
  stlink_write_reg (bank_offset sl.flash_type target) (pos 3)
  stlink_write_reg fl.loader_addr (pos 15)
  reload_watchdog fl
  stlink_run run_flash_loader
  sl' ← get
  halted ← wait_halted (sl'.backend.polls_in_500ms sl'.history)
  if halted
      then (do
        (ret, rr) ← stlink_read_reg (pos 2) sl'.uninit_reg
        if bad_count (get_or rr.r 2 0) then report_error else pure success)
      else report_error

unfoldable pub stlink_flash_loader_run : FlashLoader → ℕ → List ℕ → ℕ → M ℤ
unfolding padded_to pad_modulo write_buffer_to_sram start_core
stlink_flash_loader_run fl target buf size = do
  sl ← get
  let padded_size = padded_to (pad_modulo sl.flash_type) size
  ret ← write_buffer_to_sram fl buf (size % 2 ^ 16) padded_size
  if is_minus_one ret then pure failure else start_core fl target padded_size
