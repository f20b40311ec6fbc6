-- ===== src/Registers/C5.antt =====
-- Constants of .deprecated/inc/stm32_flash.h: the STM32C5.
use libstlink.Prelude.{ℕ, ◌+◌, ◌^◌, bit_or}

abbrev pub regs_addr : ℕ
regs_addr = 0x40022000

abbrev pub keyr : ℕ
keyr = regs_addr + 0x04

abbrev pub sr : ℕ
sr = regs_addr + 0x20

abbrev pub cr : ℕ
cr = regs_addr + 0x28

abbrev pub ccr : ℕ
ccr = regs_addr + 0x30

abbrev pub optsr_cur : ℕ
optsr_cur = regs_addr + 0x50

abbrev pub cr_lock : ℕ
cr_lock = 0

abbrev pub cr_pg : ℕ
cr_pg = 1

abbrev pub cr_per : ℕ
cr_per = 2

abbrev pub cr_ber : ℕ
cr_ber = 3

abbrev pub cr_strt : ℕ
cr_strt = 5

abbrev pub cr_pnb : ℕ
cr_pnb = 6

abbrev pub cr_mer : ℕ
cr_mer = 15

abbrev pub cr_bksel : ℕ
cr_bksel = 31

abbrev pub optsr_cur_single_bank : ℕ
optsr_cur_single_bank = 30

abbrev pub optsr_cur_swap_bank : ℕ
optsr_cur_swap_bank = 31

abbrev pub sr_bsy : ℕ
sr_bsy = 0

abbrev pub sr_wbne : ℕ
sr_wbne = 1

abbrev pub sr_dbne : ℕ
sr_dbne = 3

abbrev pub sr_wrperr : ℕ
sr_wrperr = 17

abbrev pub sr_pgserr : ℕ
sr_pgserr = 18

abbrev pub sr_strberr : ℕ
sr_strberr = 19

abbrev pub sr_incerr : ℕ
sr_incerr = 20

abbrev pub sr_error_mask : ℕ
sr_error_mask =
    bit_or (bit_or (bit_or (2 ^ sr_wrperr) (2 ^ sr_pgserr)) (2 ^ sr_strberr)) (2 ^ sr_incerr)
