-- ===== src/Registers/F4.antt =====
-- Constants of .deprecated/inc/stm32_flash.h: the F4, and of the F2.
use libstlink.Prelude.{ℕ, ◌+◌}

abbrev pub regs_addr : ℕ
regs_addr = 0x40023c00

abbrev pub keyr : ℕ
keyr = regs_addr + 0x04

abbrev pub opt_keyr : ℕ
opt_keyr = regs_addr + 0x08

abbrev pub sr : ℕ
sr = regs_addr + 0x0c

abbrev pub cr : ℕ
cr = regs_addr + 0x10

abbrev pub optcr : ℕ
optcr = regs_addr + 0x14

abbrev pub optcr_lock : ℕ
optcr_lock = 0

abbrev pub cr_strt : ℕ
cr_strt = 16

abbrev pub cr_lock : ℕ
cr_lock = 31

abbrev pub cr_ser : ℕ
cr_ser = 1

abbrev pub cr_snb : ℕ
cr_snb = 3

abbrev pub cr_snb_mask : ℕ
cr_snb_mask = 0xf8

abbrev pub sr_error_mask : ℕ
sr_error_mask = 0x000000f0

abbrev pub sr_pgaerr : ℕ
sr_pgaerr = 5

abbrev pub sr_wrperr : ℕ
sr_wrperr = 4

abbrev pub sr_bsy : ℕ
sr_bsy = 16

abbrev pub optcr_start : ℕ
optcr_start = 1

abbrev pub f2_regs_addr : ℕ
f2_regs_addr = 0x40023c00

abbrev pub f2_opt_cr : ℕ
f2_opt_cr = f2_regs_addr + 0x14
