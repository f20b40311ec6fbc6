-- ===== src/Loader/Choice.antt =====
-- flash_loader.c: `stlink_flash_loader_write_to_sram`, which picks the loader of the chip, and
-- `stlink_flash_loader_init`.
use libstlink.Prelude.{
  ℕ, ◌%◌, ◌^◌, Bool, true, false, not, ◌&&◌, ◌||◌, Option, none, some, List, [], ◌∷◌, ℤ, pos,
  negsuc, success, failure, is_nonzero, bit_or, length, ltb, ◌==◌, if◌then◌else◌,
}
use libstlink.Word.{add32, is_set}
use libstlink.Registers.Chip
use libstlink.Registers.Debug
use libstlink.Registers.Loaders
use libstlink.Registers.Rcc
use libstlink.Stlink.{FlashType, wb0, h5, h7, M, pure, get, ◌>>=◌, ◌>>◌}
use libstlink.Stlink.ReadWrite.{stlink_read_debug32, stlink_write_debug32, stlink_write_mem32}
use libstlink.Target.{stlink_target_voltage}
use libstlink.Loader.Buffer.{FlashLoader, is_minus_one, copy_to_q_buf}

-- voltage > n
abbrev pub above : ℕ → ℤ → Bool
above n (pos v) = ltb n v
above n (negsuc v) = false

loader_v_dependent_assignment : List ℕ → List ℕ → M (Option (List ℕ))
unfolding stlink_target_voltage
loader_v_dependent_assignment high_v_loader low_v_loader = do
  sl ← get
  if sl.stlink_v == 1 then pure (some high_v_loader) else (do
    voltage ← stlink_target_voltage
    pure (
        if is_minus_one voltage
        then none
        else if above 2700 voltage
        then some high_v_loader
        else some low_v_loader))

one_of : List ℕ → ℕ → Bool
one_of [] id = false
one_of (x ∷ xs) id = id == x || one_of xs id

abbrev lx_chips : List ℕ
lx_chips =
    Chip.l1_md ∷ Chip.l1_cat2 ∷ Chip.l1_md_plus ∷ Chip.l1_md_plus_hd ∷ Chip.l152_re ∷ Chip.l0_cat1
    ∷ Chip.l0_cat2 ∷ Chip.l0_cat3 ∷ Chip.l0_cat5 ∷ []

abbrev vl_chips : List ℕ
vl_chips =
    Chip.f1_md ∷ Chip.f1_hd ∷ Chip.f1_ld ∷ Chip.f1_vl_md_ld ∷ Chip.f1_vl_hd ∷ Chip.f1_xld
    ∷ Chip.f1_conn ∷ Chip.f3 ∷ Chip.f3xx_small ∷ Chip.f303_hd ∷ Chip.f37x ∷ Chip.f334 ∷ []

abbrev f4_chips : List ℕ
f4_chips =
    Chip.f2 ∷ Chip.f4 ∷ Chip.f4_de ∷ Chip.f4_lp ∷ Chip.f4_hd ∷ Chip.f4_dsi ∷ Chip.f410 ∷ Chip.f411xx
    ∷ Chip.f412 ∷ Chip.f413 ∷ Chip.f446 ∷ []

abbrev f7_chips : List ℕ
f7_chips = Chip.f7 ∷ Chip.f76xxx ∷ Chip.f72xxx ∷ []

abbrev f0_chips : List ℕ
f0_chips = Chip.f0 ∷ Chip.f04 ∷ Chip.f0_can ∷ Chip.f0xx_small ∷ Chip.f09x ∷ []

abbrev l4_chips : List ℕ
l4_chips =
    Chip.l4 ∷ Chip.l41x_l42x ∷ Chip.l43x_l44x ∷ Chip.l45x_l46x ∷ Chip.l4px ∷ Chip.l4rx
    ∷ Chip.l496x_l4a6x ∷ []

is_wb0 : FlashType → Bool
is_wb0 wb0 = true
is_wb0 _ = false

is_h5 : FlashType → Bool
is_h5 h5 = true
is_h5 _ = false

-- The ladder of the chips. `none`: the voltage is not known, or no loader fits.
unfoldable pub loader_code : M (Option (List ℕ))
unfolding one_of loader_v_dependent_assignment is_wb0 is_h5
loader_code = do
  sl ← get
  if one_of lx_chips sl.chip_id
      then pure (some Loaders.stm32lx)
      else if sl.core_id == Chip.core_m3_r1p1_swd || one_of vl_chips sl.chip_id
      then pure (some Loaders.stm32vl)
      else if one_of f4_chips sl.chip_id
      then loader_v_dependent_assignment Loaders.stm32f4 Loaders.stm32f4_lv
      else if sl.core_id == Chip.core_m7f_swd || one_of f7_chips sl.chip_id
      then loader_v_dependent_assignment Loaders.stm32f7 Loaders.stm32f7_lv
      else if one_of f0_chips sl.chip_id
      then pure (some Loaders.stm32f0)
      else if is_wb0 sl.flash_type
      then pure (some Loaders.stm32wb0)
      else if is_h5 sl.flash_type
      then pure (some Loaders.stm32h5)
      else if one_of l4_chips sl.chip_id
      then pure (some Loaders.stm32l4)
      else pure none

put_loader : Option (List ℕ) → M (ℤ × Option (ℕ × ℕ))
unfolding copy_to_q_buf stlink_write_mem32
put_loader none = pure (failure, none)
put_loader (some code) = do
  copy_to_q_buf (length code) code 0
  sl ← get
  ret ← stlink_write_mem32 sl.sram_base (length code % 2 ^ 16)
  pure (if is_nonzero ret then (ret, none) else (success, some (sl.sram_base, length code)))

-- The result, and what is stored through `addr` and `size`, where it is.
unfoldable pub stlink_flash_loader_write_to_sram : M (ℤ × Option (ℕ × ℕ))
unfolding loader_code put_loader
stlink_flash_loader_write_to_sram = do code ← loader_code; put_loader code

clear_fault : ℕ → M (Unit {0})
unfolding stlink_read_debug32 stlink_write_debug32
clear_fault reg = do
  (ret, val) ← stlink_read_debug32 reg
  if not (is_nonzero ret) && is_set val then (do stlink_write_debug32 reg val; pure tt) else pure tt

clear_faults : M (Unit {0})
unfolding clear_fault
clear_faults = do clear_fault Debug.dfsr; clear_fault Debug.cfsr; clear_fault Debug.hfsr

abbrev pub halted_debug : ℕ
halted_debug = bit_or (bit_or Debug.dhcsr_dbgkey Debug.dhcsr_c_debugen) Debug.dhcsr_c_halt

iwdg_of : FlashType → ℕ
iwdg_of h7 = Rcc.h7_wdg_kr
iwdg_of _ = Rcc.f0_wdg_kr

-- The addresses that are stored, over those that `fl` has; `size` starts as 0.
placed : FlashLoader → Option (ℕ × ℕ) → FlashLoader
placed fl none = record fl { buf_addr = fl.loader_addr }
placed fl (some (addr, size)) = record fl { loader_addr = addr; buf_addr = add32 addr size }

unfoldable pub stlink_flash_loader_init : FlashLoader → M (ℤ × FlashLoader)
unfolding stlink_write_debug32 stlink_flash_loader_write_to_sram placed iwdg_of clear_faults
stlink_flash_loader_init fl = do
  stlink_write_debug32 Debug.dhcsr halted_debug
  stlink_write_debug32 Debug.dhcsr (bit_or halted_debug Debug.dhcsr_c_maskints)
  (ret, stored) ← stlink_flash_loader_write_to_sram
  if is_minus_one ret then pure (failure, fl) else (do
    sl ← get
    clear_faults
    let fl' = placed fl stored
    pure (success, record fl' { iwdg_kr = iwdg_of sl.flash_type }))
