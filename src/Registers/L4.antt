-- ===== src/Registers/L4.antt =====
-- Constants of .deprecated/inc/stm32_flash.h: the L4.
use libstlink.Prelude.{ℕ, ◌+◌, ◌*◌, ◌^◌, bit_or}
use libstlink.Registers.L0

abbrev pub keyr : ℕ
keyr = L0.regs_addr + 0x08

abbrev pub optkeyr : ℕ
optkeyr = L0.regs_addr + 0x0c

abbrev pub sr : ℕ
sr = L0.regs_addr + 0x10

abbrev pub cr : ℕ
cr = L0.regs_addr + 0x14

abbrev pub optr : ℕ
optr = L0.regs_addr + 0x20

abbrev pub sr_error_mask : ℕ
sr_error_mask = 0x3f8

abbrev pub sr_progerr : ℕ
sr_progerr = 3

abbrev pub sr_wrperr : ℕ
sr_wrperr = 4

abbrev pub sr_pgaerr : ℕ
sr_pgaerr = 5

abbrev pub sr_bsy : ℕ
sr_bsy = 16

abbrev pub cr_lock : ℕ
cr_lock = 31

abbrev pub cr_optlock : ℕ
cr_optlock = 30

abbrev pub cr_pg : ℕ
cr_pg = 0

abbrev pub cr_per : ℕ
cr_per = 1

abbrev pub cr_mer1 : ℕ
cr_mer1 = 2

abbrev pub cr_mer2 : ℕ
cr_mer2 = 15

abbrev pub cr_strt : ℕ
cr_strt = 16

abbrev pub cr_pnb : ℕ
cr_pnb = 3

abbrev pub cr_opbits : ℕ
cr_opbits = bit_or (bit_or (bit_or (2 ^ cr_pg) (2 ^ cr_per)) (2 ^ cr_mer1)) (2 ^ cr_mer1)

abbrev pub cr_pagemask : ℕ
cr_pagemask = 0x1ff * 2 ^ cr_pnb

abbrev pub optr_dualbank : ℕ
optr_dualbank = 21

abbrev pub cr_optstrt : ℕ
cr_optstrt = 17

abbrev pub cr_obl_launch : ℕ
cr_obl_launch = 27
