-- ===== src/Registers/Gx.antt =====
-- Constants of .deprecated/inc/stm32_flash.h: the G0 and G4.
use libstlink.Prelude.{ℕ, ◌+◌}

abbrev pub regs_addr : ℕ
regs_addr = 0x40022000

abbrev pub keyr : ℕ
keyr = regs_addr + 0x08

abbrev pub optkeyr : ℕ
optkeyr = regs_addr + 0x0c

abbrev pub sr : ℕ
sr = regs_addr + 0x10

abbrev pub cr : ℕ
cr = regs_addr + 0x14

abbrev pub cr_pg : ℕ
cr_pg = 0

abbrev pub cr_mer1 : ℕ
cr_mer1 = 2

abbrev pub g4_cr_bker : ℕ
g4_cr_bker = 11

abbrev pub cr_mer2 : ℕ
cr_mer2 = 15

abbrev pub cr_strt : ℕ
cr_strt = 16

abbrev pub cr_optlock : ℕ
cr_optlock = 30

abbrev pub cr_lock : ℕ
cr_lock = 31

abbrev pub sr_error_mask : ℕ
sr_error_mask = 0x3fa

abbrev pub sr_progerr : ℕ
sr_progerr = 3

abbrev pub sr_wrperr : ℕ
sr_wrperr = 4

abbrev pub sr_pgaerr : ℕ
sr_pgaerr = 5

abbrev pub sr_bsy : ℕ
sr_bsy = 16

abbrev pub optr : ℕ
optr = regs_addr + 0x20

abbrev pub cr_optstrt : ℕ
cr_optstrt = 17

abbrev pub cr_obl_launch : ℕ
cr_obl_launch = 27
