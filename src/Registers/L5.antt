-- ===== src/Registers/L5.antt =====
-- Constants of .deprecated/inc/stm32_flash.h: the L5.
use libstlink.Prelude.{ℕ, ◌+◌}

abbrev pub regs_addr : ℕ
regs_addr = 0x40022000

abbrev pub nskeyr : ℕ
nskeyr = regs_addr + 0x08

abbrev pub optkeyr : ℕ
optkeyr = regs_addr + 0x10

abbrev pub nssr : ℕ
nssr = regs_addr + 0x20

abbrev pub nscr : ℕ
nscr = regs_addr + 0x28

abbrev pub nscr_nspg : ℕ
nscr_nspg = 0

abbrev pub nscr_nsmer1 : ℕ
nscr_nsmer1 = 2

abbrev pub nscr_nsbker : ℕ
nscr_nsbker = 11

abbrev pub nscr_nsmer2 : ℕ
nscr_nsmer2 = 15

abbrev pub nscr_nsstrt : ℕ
nscr_nsstrt = 16

abbrev pub nscr_optlock : ℕ
nscr_optlock = 30

abbrev pub nscr_nslock : ℕ
nscr_nslock = 31

abbrev pub nssr_nsprogerr : ℕ
nssr_nsprogerr = 3

abbrev pub nssr_nswrperr : ℕ
nssr_nswrperr = 4

abbrev pub nssr_nspgaerr : ℕ
nssr_nspgaerr = 5

abbrev pub nssr_bsy : ℕ
nssr_bsy = 16

abbrev pub nssr_error_mask : ℕ
nssr_error_mask = 0x20fa

abbrev pub nscr_nsoptstrt : ℕ
nscr_nsoptstrt = 17

abbrev pub nscr_obl_launch : ℕ
nscr_obl_launch = 27
