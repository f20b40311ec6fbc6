-- ===== src/Registers/Rcc.antt =====
-- Constants of .deprecated/inc/stm32.h and flash_loader.c: the clocks of the DMA, and the watchdogs.
use libstlink.Prelude.{ℕ}

abbrev pub c0_ahbenr : ℕ
c0_ahbenr = 0x40021038

abbrev pub c0_dmaen : ℕ
c0_dmaen = 0x00000001

abbrev pub f1_ahbenr : ℕ
f1_ahbenr = 0x40021014

abbrev pub f1_dmaen : ℕ
f1_dmaen = 0x00000003

abbrev pub f4_ahb1enr : ℕ
f4_ahb1enr = 0x40023830

abbrev pub f4_dmaen : ℕ
f4_dmaen = 0x00600000

abbrev pub g0_ahbenr : ℕ
g0_ahbenr = 0x40021038

abbrev pub g0_dmaen : ℕ
g0_dmaen = 0x00000003

abbrev pub g4_ahb1enr : ℕ
g4_ahb1enr = 0x40021048

abbrev pub g4_dmaen : ℕ
g4_dmaen = 0x00000003

abbrev pub l0_ahbenr : ℕ
l0_ahbenr = 0x40021030

abbrev pub l0_dmaen : ℕ
l0_dmaen = 0x00000001

abbrev pub l1_ahbenr : ℕ
l1_ahbenr = 0x4002381c

abbrev pub l1_dmaen : ℕ
l1_dmaen = 0x30000000

abbrev pub l5_ahb1enr : ℕ
l5_ahb1enr = 0x40021048

abbrev pub l5_dmaen : ℕ
l5_dmaen = 0x00000003

abbrev pub h7_ahb1enr : ℕ
h7_ahb1enr = 0x58024538

abbrev pub h7_dmaen : ℕ
h7_dmaen = 0x00000003

abbrev pub wb_ahb1enr : ℕ
wb_ahb1enr = 0x58000048

abbrev pub wb_dmaen : ℕ
wb_dmaen = 0x00000003

abbrev pub wb0_ahbenr : ℕ
wb0_ahbenr = 0x48400050

abbrev pub wb0_ahb_dmaen : ℕ
wb0_ahb_dmaen = 0x00000001

abbrev pub wb0_apb0enr : ℕ
wb0_apb0enr = 0x48400054

abbrev pub wb0_apb0_wdgen : ℕ
wb0_apb0_wdgen = 0x00004000

abbrev pub c5_ahb1enr : ℕ
c5_ahb1enr = 0x44020c88

abbrev pub c5_dmaen : ℕ
c5_dmaen = 0x00000003

abbrev pub f0_dbgmcu_cr : ℕ
f0_dbgmcu_cr = 0xe0042004

abbrev pub f0_dbgmcu_cr_iwdg_stop : ℕ
f0_dbgmcu_cr_iwdg_stop = 8

abbrev pub f0_dbgmcu_cr_wwdg_stop : ℕ
f0_dbgmcu_cr_wwdg_stop = 9

abbrev pub f4_dbgmcu_apb1fzr1 : ℕ
f4_dbgmcu_apb1fzr1 = 0xe0042008

abbrev pub f4_dbgmcu_apb1fzr1_wwdg_stop : ℕ
f4_dbgmcu_apb1fzr1_wwdg_stop = 11

abbrev pub f4_dbgmcu_apb1fzr1_iwdg_stop : ℕ
f4_dbgmcu_apb1fzr1_iwdg_stop = 12

abbrev pub l0_dbgmcu_apb1_fz : ℕ
l0_dbgmcu_apb1_fz = 0x40015808

abbrev pub l0_dbgmcu_apb1_fz_wwdg_stop : ℕ
l0_dbgmcu_apb1_fz_wwdg_stop = 11

abbrev pub l0_dbgmcu_apb1_fz_iwdg_stop : ℕ
l0_dbgmcu_apb1_fz_iwdg_stop = 12

abbrev pub l1_dbgmcu_apb1_fz : ℕ
l1_dbgmcu_apb1_fz = 0xe0042008

abbrev pub l1_dbgmcu_apb1_fz_wwdg_stop : ℕ
l1_dbgmcu_apb1_fz_wwdg_stop = 11

abbrev pub l1_dbgmcu_apb1_fz_iwdg_stop : ℕ
l1_dbgmcu_apb1_fz_iwdg_stop = 12

abbrev pub h7_dbgmcu_apb1hfz : ℕ
h7_dbgmcu_apb1hfz = 0x5c001054

abbrev pub h7_dbgmcu_apb1hfz_iwdg_stop : ℕ
h7_dbgmcu_apb1hfz_iwdg_stop = 18

abbrev pub wb_dbgmcu_apb1fzr1 : ℕ
wb_dbgmcu_apb1fzr1 = 0xe004203c

abbrev pub wb_dbgmcu_apb1fzr1_wwdg_stop : ℕ
wb_dbgmcu_apb1fzr1_wwdg_stop = 11

abbrev pub wb_dbgmcu_apb1fzr1_iwdg_stop : ℕ
wb_dbgmcu_apb1fzr1_iwdg_stop = 12

abbrev pub f0_wdg_kr : ℕ
f0_wdg_kr = 0x40003000

abbrev pub h7_wdg_kr : ℕ
h7_wdg_kr = 0x58004800

abbrev pub f0_wdg_kr_key_reload : ℕ
f0_wdg_kr_key_reload = 0xaaaa
