-- ===== src/Registers/H5.antt =====
-- Constants of .deprecated/inc/stm32_flash.h: the H5.
use libstlink.Prelude.{ℕ, ◌+◌, ◌*◌, ◌^◌}

abbrev pub regs_addr : ℕ
regs_addr = 0x40022000

abbrev pub nskeyr : ℕ
nskeyr = regs_addr + 0x04

abbrev pub nssr : ℕ
nssr = regs_addr + 0x20

abbrev pub nscr : ℕ
nscr = regs_addr + 0x28

abbrev pub nsccr : ℕ
nsccr = regs_addr + 0x30

abbrev pub optsr_cur : ℕ
optsr_cur = regs_addr + 0x50

abbrev pub optsr_swap_bank : ℕ
optsr_swap_bank = 31

abbrev pub nscr_lock : ℕ
nscr_lock = 0

abbrev pub nscr_pg : ℕ
nscr_pg = 1

abbrev pub nscr_ser : ℕ
nscr_ser = 2

abbrev pub nscr_strt : ℕ
nscr_strt = 5

abbrev pub nscr_snb : ℕ
nscr_snb = 6

abbrev pub nscr_snb_mask : ℕ
nscr_snb_mask = 0x7f * 2 ^ nscr_snb

abbrev pub nscr_mer : ℕ
nscr_mer = 15

abbrev pub nscr_bksel : ℕ
nscr_bksel = 31

abbrev pub nssr_bsy : ℕ
nssr_bsy = 0

abbrev pub nssr_wrperr : ℕ
nssr_wrperr = 17

abbrev pub nssr_pgserr : ℕ
nssr_pgserr = 18

abbrev pub nssr_strberr : ℕ
nssr_strberr = 19

abbrev pub nssr_error_mask : ℕ
nssr_error_mask = 0x009e0000

abbrev pub nsccr_clear_all : ℕ
nsccr_clear_all = 0x00ff0000
