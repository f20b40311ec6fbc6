-- ===== src/Registers/Lx.antt =====
-- Constants of .deprecated/inc/stm32_flash.h: the L1 (register base).
use libstlink.Prelude.{ℕ}

abbrev pub regs_addr : ℕ
regs_addr = 0x40023c00
