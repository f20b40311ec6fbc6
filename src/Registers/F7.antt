-- ===== src/Registers/F7.antt =====
-- Constants of .deprecated/inc/stm32_flash.h: the F7.
use libstlink.Prelude.{ℕ, ◌+◌, ◌^◌, bit_or}

abbrev pub regs_addr : ℕ
regs_addr = 0x40023c00

abbrev pub keyr : ℕ
keyr = regs_addr + 0x04

abbrev pub opt_keyr : ℕ
opt_keyr = regs_addr + 0x08

abbrev pub sr : ℕ
sr = regs_addr + 0x0c

abbrev pub cr : ℕ
cr = regs_addr + 0x10

abbrev pub optcr : ℕ
optcr = regs_addr + 0x14

abbrev pub optcr_lock : ℕ
optcr_lock = 0

abbrev pub cr_strt : ℕ
cr_strt = 16

abbrev pub cr_lock : ℕ
cr_lock = 31

abbrev pub sr_bsy : ℕ
sr_bsy = 16

abbrev pub sr_ers_err : ℕ
sr_ers_err = 7

abbrev pub sr_pgp_err : ℕ
sr_pgp_err = 6

abbrev pub sr_pga_err : ℕ
sr_pga_err = 5

abbrev pub sr_wrp_err : ℕ
sr_wrp_err = 4

abbrev pub sr_op_err : ℕ
sr_op_err = 1

abbrev pub sr_error_mask : ℕ
sr_error_mask =
    bit_or
      (bit_or (bit_or (bit_or (2 ^ sr_ers_err) (2 ^ sr_pgp_err)) (2 ^ sr_pga_err)) (2 ^ sr_wrp_err))
      (2 ^ sr_op_err)

abbrev pub optcr1 : ℕ
optcr1 = regs_addr + 0x18

abbrev pub optcr_start : ℕ
optcr_start = 1
