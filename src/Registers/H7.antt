-- ===== src/Registers/H7.antt =====
-- Constants of .deprecated/inc/stm32_flash.h: the H7.
use libstlink.Prelude.{ℕ, ◌+◌, ◌^◌, bit_or, ◌==◌, if◌then◌else◌}
use libstlink.Registers.Chip

abbrev pub regs_addr : ℕ
regs_addr = 0x52002000

abbrev pub keyr1 : ℕ
keyr1 = regs_addr + 0x04

abbrev pub keyr2 : ℕ
keyr2 = regs_addr + 0x104

abbrev pub opt_keyr : ℕ
opt_keyr = regs_addr + 0x08

abbrev pub cr1 : ℕ
cr1 = regs_addr + 0x0c

abbrev pub cr2 : ℕ
cr2 = regs_addr + 0x10c

abbrev pub sr1 : ℕ
sr1 = regs_addr + 0x10

abbrev pub sr2 : ℕ
sr2 = regs_addr + 0x110

abbrev pub optcr : ℕ
optcr = regs_addr + 0x18

abbrev pub optcr2 : ℕ
optcr2 = regs_addr + 0x118

abbrev pub optcr_optlock : ℕ
optcr_optlock = 0

abbrev pub cr_lock : ℕ
cr_lock = 0

abbrev pub cr_pg : ℕ
cr_pg = 1

abbrev pub cr_ser : ℕ
cr_ser = 2

abbrev pub cr_ber : ℕ
cr_ber = 3

abbrev pub cr_psize : ℕ
cr_psize = 4

abbrev pub cr_start : ℕ → ℕ
cr_start chip_id = if chip_id == Chip.h7ax then 5 else 7

abbrev pub cr_snb : ℕ
cr_snb = 8

abbrev pub cr_snb_mask : ℕ
cr_snb_mask = 0x700

abbrev pub sr_qw : ℕ
sr_qw = 2

abbrev pub sr_wrperr : ℕ
sr_wrperr = 17

abbrev pub sr_pgserr : ℕ
sr_pgserr = 18

abbrev pub sr_strberr : ℕ
sr_strberr = 19

abbrev pub sr_error_mask : ℕ
sr_error_mask = bit_or (bit_or (2 ^ sr_pgserr) (2 ^ sr_strberr)) (2 ^ sr_wrperr)

abbrev pub optsr_cur : ℕ
optsr_cur = regs_addr + 0x1c

abbrev pub optccr : ℕ
optccr = regs_addr + 0x24

abbrev pub optcr_optstart : ℕ
optcr_optstart = 1

abbrev pub optsr_opt_busy : ℕ
optsr_opt_busy = 0

abbrev pub optsr_optchangeerr : ℕ
optsr_optchangeerr = 30

abbrev pub optccr_clr_optchangeerr : ℕ
optccr_clr_optchangeerr = 30
