-- ===== src/Registers/Fpec.antt =====
-- Constants of .deprecated/inc/stm32_flash.h: the FPEC registers of the F0, F1 and F3 (and the register offsets of the L0 and L1).
use libstlink.Prelude.{ℕ, ◌+◌, ◌^◌, bit_or}

abbrev pub regs_addr : ℕ
regs_addr = 0x40022000

abbrev pub keyr : ℕ
keyr = regs_addr + 0x04

abbrev pub optkeyr : ℕ
optkeyr = regs_addr + 0x08

abbrev pub sr : ℕ
sr = regs_addr + 0x0c

abbrev pub cr : ℕ
cr = regs_addr + 0x10

abbrev pub ar : ℕ
ar = regs_addr + 0x14

abbrev pub keyr2 : ℕ
keyr2 = regs_addr + 0x44

abbrev pub sr2 : ℕ
sr2 = regs_addr + 0x4c

abbrev pub cr2 : ℕ
cr2 = regs_addr + 0x50

abbrev pub ar2 : ℕ
ar2 = regs_addr + 0x54

abbrev pub key1 : ℕ
key1 = 0x45670123

abbrev pub key2 : ℕ
key2 = 0xcdef89ab

abbrev pub optkey1 : ℕ
optkey1 = 0x08192a3b

abbrev pub optkey2 : ℕ
optkey2 = 0x4c5d6e7f

abbrev pub sr_bsy : ℕ
sr_bsy = 0

abbrev pub sr_pg_err : ℕ
sr_pg_err = 2

abbrev pub sr_wrprt_err : ℕ
sr_wrprt_err = 4

abbrev pub sr_error_mask : ℕ
sr_error_mask = bit_or (2 ^ sr_pg_err) (2 ^ sr_wrprt_err)

abbrev pub cr_pg : ℕ
cr_pg = 0

abbrev pub cr_per : ℕ
cr_per = 1

abbrev pub cr_mer : ℕ
cr_mer = 2

abbrev pub cr_strt : ℕ
cr_strt = 6

abbrev pub cr_lock : ℕ
cr_lock = 7

abbrev pub cr_optwre : ℕ
cr_optwre = 9

abbrev pub pecr_off : ℕ
pecr_off = 0x04

abbrev pub pekeyr_off : ℕ
pekeyr_off = 0x0c

abbrev pub prgkeyr_off : ℕ
prgkeyr_off = 0x10

abbrev pub optkeyr_off : ℕ
optkeyr_off = 0x14

abbrev pub sr_off : ℕ
sr_off = 0x18

abbrev pub f0_optkey1 : ℕ
f0_optkey1 = 0x45670123

abbrev pub f0_optkey2 : ℕ
f0_optkey2 = 0xcdef89ab

abbrev pub obr : ℕ
obr = regs_addr + 0x1c

abbrev pub wrpr : ℕ
wrpr = regs_addr + 0x20

abbrev pub cr_optpg : ℕ
cr_optpg = 4

abbrev pub cr_opter : ℕ
cr_opter = 5

abbrev pub cr_obl_launch : ℕ
cr_obl_launch = 13
