-- ===== src/Registers/Wb0.antt =====
-- Constants of .deprecated/inc/stm32_flash.h: the WB0.
use libstlink.Prelude.{ℕ, ◌+◌, ◌^◌, bit_or}

abbrev pub regs_addr : ℕ
regs_addr = 0x40001000

abbrev pub command : ℕ
command = regs_addr + 0x00

abbrev pub irqraw : ℕ
irqraw = regs_addr + 0x10

abbrev pub address : ℕ
address = regs_addr + 0x18

abbrev pub cmd_erase_page : ℕ
cmd_erase_page = 0x11

abbrev pub cmd_mass_erase : ℕ
cmd_mass_erase = 0x22

abbrev pub irq_illcmd : ℕ
irq_illcmd = 2 ^ 3

abbrev pub irq_cmderr : ℕ
irq_cmderr = 2 ^ 2

abbrev pub irq_cmdstart : ℕ
irq_cmdstart = 2 ^ 1

abbrev pub irq_cmddone : ℕ
irq_cmddone = 2 ^ 0

abbrev pub irq_err_mask : ℕ
irq_err_mask = bit_or irq_cmderr irq_illcmd

abbrev pub irq_all : ℕ
irq_all = bit_or (bit_or irq_cmddone irq_cmdstart) irq_err_mask

abbrev pub data0 : ℕ
data0 = regs_addr + 0x40

abbrev pub cmd_otpwrite : ℕ
cmd_otpwrite = 0xee

abbrev pub jtag_id : ℕ
jtag_id = 0x40000004

abbrev pub jtag_part_nr : ℕ
jtag_part_nr = 12
