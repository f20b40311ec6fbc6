-- ===== src/Registers/L0.antt =====
-- Constants of .deprecated/inc/stm32_flash.h: the L0 and L1.
use libstlink.Prelude.{ℕ}

abbrev pub regs_addr : ℕ
regs_addr = 0x40022000

abbrev pub pekey1 : ℕ
pekey1 = 0x89abcdef

abbrev pub pekey2 : ℕ
pekey2 = 0x02030405

abbrev pub prgkey1 : ℕ
prgkey1 = 0x8c9daebf

abbrev pub prgkey2 : ℕ
prgkey2 = 0x13141516

abbrev pub optkey1 : ℕ
optkey1 = 0xfbead9c8

abbrev pub optkey2 : ℕ
optkey2 = 0x24252627

abbrev pub pelock : ℕ
pelock = 0

abbrev pub optlock : ℕ
optlock = 2

abbrev pub sr_error_mask : ℕ
sr_error_mask = 0x00013f00

abbrev pub sr_wrperr : ℕ
sr_wrperr = 8

abbrev pub sr_pgaerr : ℕ
sr_pgaerr = 9

abbrev pub sr_notzeroerr : ℕ
sr_notzeroerr = 16

abbrev pub l1_sr_error_mask : ℕ
l1_sr_error_mask = 0x00003f00

abbrev pub obl_launch : ℕ
obl_launch = 18

abbrev pub l1_fprg : ℕ
l1_fprg = 10

abbrev pub l1_prog : ℕ
l1_prog = 3
