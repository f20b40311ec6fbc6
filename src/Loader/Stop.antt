-- ===== src/Loader/Stop.antt =====
-- flash_loader.c: `stlink_flashloader_stop`.
use libstlink.Prelude.{ℕ, ◌+◌, ◌^◌, true, ℤ, success, bit_or, if◌then◌else◌}
use libstlink.Word.{clear}
use libstlink.Calculate.{bank_1, bank_2}
use libstlink.Registers.Debug
use libstlink.Registers.Fpec
use libstlink.Stlink.{FlashType, unknown, l0_l1, wb0, M, pure, get, ◌>>=◌, ◌>>◌}
use libstlink.Stlink.ReadWrite.{stlink_read_debug32, stlink_write_debug32}
use libstlink.Flash.Control.{get_stm32l0_flash_base, lock_flash}
use libstlink.Flash.CrBits.{clear_flash_cr_pg}
use libstlink.Flash.Status.{polls_bank_2}
use libstlink.Target.{update_if_read}
use libstlink.Loader.Buffer.{FlashLoader}
use libstlink.Loader.Start.{set_dma_state}

-- The controllers with a program bit in their control register: all but the three named.
stop_pg : M (Unit {0})
unfolding clear_flash_cr_pg lock_flash
stop_pg = do
  clear_flash_cr_pg bank_1
  sl ← get
  if polls_bank_2 sl then clear_flash_cr_pg bank_2 else pure tt
  lock_flash

-- The lock bits are set again.
stop_l0_l1 : M (Unit {0})
unfolding get_stm32l0_flash_base stlink_read_debug32 stlink_write_debug32
stop_l0_l1 = do
  sl ← get
  let pecr = get_stm32l0_flash_base sl + Fpec.pecr_off
  (ret, val) ← stlink_read_debug32 pecr
  stlink_write_debug32 pecr (bit_or val (bit_or (bit_or (2 ^ 0) (2 ^ 1)) (2 ^ 2)))
  pure tt

stop_family : FlashType → M (Unit {0})
unfolding stop_pg stop_l0_l1
stop_family l0_l1 = stop_l0_l1
stop_family wb0 = pure tt
stop_family unknown = pure tt
stop_family _ = stop_pg

abbrev enabled_debug : ℕ → ℕ
enabled_debug dhcsr =
    bit_or (bit_or Debug.dhcsr_dbgkey Debug.dhcsr_c_debugen) (clear dhcsr Debug.dhcsr_c_maskints)

unfoldable pub stlink_flashloader_stop : FlashLoader → M ℤ
unfolding stop_family update_if_read set_dma_state
stlink_flashloader_stop fl = do
  sl ← get
  stop_family sl.flash_type
  update_if_read Debug.dhcsr enabled_debug
  set_dma_state fl true
  pure success
