-- ===== src/Registers/Wb.antt =====
-- Constants of .deprecated/inc/stm32_flash.h: the WB and WL.
use libstlink.Prelude.{ℕ, ◌+◌}

abbrev pub regs_addr : ℕ
regs_addr = 0x58004000

abbrev pub keyr : ℕ
keyr = regs_addr + 0x08

abbrev pub opt_keyr : ℕ
opt_keyr = regs_addr + 0x0c

abbrev pub sr : ℕ
sr = regs_addr + 0x10

abbrev pub cr : ℕ
cr = regs_addr + 0x14

abbrev pub cr_strt : ℕ
cr_strt = 16

abbrev pub cr_optlock : ℕ
cr_optlock = 30

abbrev pub cr_lock : ℕ
cr_lock = 31

abbrev pub sr_error_mask : ℕ
sr_error_mask = 0x3f8

abbrev pub sr_progerr : ℕ
sr_progerr = 3

abbrev pub sr_wrperr : ℕ
sr_wrperr = 4

abbrev pub sr_pgaerr : ℕ
sr_pgaerr = 5

abbrev pub sr_bsy : ℕ
sr_bsy = 16

abbrev pub optr : ℕ
optr = regs_addr + 0x20

abbrev pub cr_optstrt : ℕ
cr_optstrt = 17

abbrev pub cr_obl_launch : ℕ
cr_obl_launch = 27
