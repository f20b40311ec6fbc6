-- ===== src/Registers/Memory.antt =====
-- Constants of .deprecated/inc/stm32.h and stlink.h: the flash base addresses, the L5 power control and
-- the dual bank flag.
use libstlink.Prelude.{ℕ, ◌^◌}

abbrev pub flash_base : ℕ
flash_base = 0x08000000

abbrev pub f1_flash_bank2_base : ℕ
f1_flash_bank2_base = 0x08080000

abbrev pub h7_flash_bank2_base : ℕ
h7_flash_bank2_base = 0x08100000

abbrev pub l5_pwr_cr1 : ℕ
l5_pwr_cr1 = 0x40007000

abbrev pub l5_pwr_cr1_vos : ℕ
l5_pwr_cr1_vos = 9

abbrev pub chip_has_dual_bank : ℕ
chip_has_dual_bank = 2 ^ 0

abbrev pub flash_regs_bank2_ofs : ℕ
flash_regs_bank2_ofs = 0x40

abbrev pub flash_bank2_start_addr : ℕ
flash_bank2_start_addr = 0x08080000

abbrev pub option_bytes_base_f0 : ℕ
option_bytes_base_f0 = 0x1ffff800
