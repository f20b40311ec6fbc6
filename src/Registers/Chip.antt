-- ===== src/Registers/Chip.antt =====
-- Constants of .deprecated/inc/stm32.h: the chip ids.
use libstlink.Prelude.{ℕ}

abbrev pub wb06_wb07 : ℕ
wb06_wb07 = 0x01e

abbrev pub wb09 : ℕ
wb09 = 0x032

abbrev pub f2 : ℕ
f2 = 0x411

abbrev pub f4 : ℕ
f4 = 0x413

abbrev pub l4 : ℕ
l4 = 0x415

abbrev pub l1_md : ℕ
l1_md = 0x416

abbrev pub l0_cat3 : ℕ
l0_cat3 = 0x417

abbrev pub f4_hd : ℕ
f4_hd = 0x419

abbrev pub f446 : ℕ
f446 = 0x421

abbrev pub f4_lp : ℕ
f4_lp = 0x423

abbrev pub l0_cat2 : ℕ
l0_cat2 = 0x425

abbrev pub l1_md_plus : ℕ
l1_md_plus = 0x427

abbrev pub l1_cat2 : ℕ
l1_cat2 = 0x429

abbrev pub f411xx : ℕ
f411xx = 0x431

abbrev pub f4_de : ℕ
f4_de = 0x433

abbrev pub f4_dsi : ℕ
f4_dsi = 0x434

abbrev pub l1_md_plus_hd : ℕ
l1_md_plus_hd = 0x436

abbrev pub l152_re : ℕ
l152_re = 0x437

abbrev pub f412 : ℕ
f412 = 0x441

abbrev pub l0_cat5 : ℕ
l0_cat5 = 0x447

abbrev pub f7 : ℕ
f7 = 0x449

abbrev pub f76xxx : ℕ
f76xxx = 0x451

abbrev pub f72xxx : ℕ
f72xxx = 0x452

abbrev pub l0_cat1 : ℕ
l0_cat1 = 0x457

abbrev pub f410 : ℕ
f410 = 0x458

abbrev pub l496x_l4a6x : ℕ
l496x_l4a6x = 0x461

abbrev pub f413 : ℕ
f413 = 0x463

abbrev pub l4rx : ℕ
l4rx = 0x470

abbrev pub h7ax : ℕ
h7ax = 0x480

abbrev pub f1_md : ℕ
f1_md = 0x410

abbrev pub f1_ld : ℕ
f1_ld = 0x412

abbrev pub f1_hd : ℕ
f1_hd = 0x414

abbrev pub f1_conn : ℕ
f1_conn = 0x418

abbrev pub f1_vl_md_ld : ℕ
f1_vl_md_ld = 0x420

abbrev pub f3 : ℕ
f3 = 0x422

abbrev pub f1_vl_hd : ℕ
f1_vl_hd = 0x428

abbrev pub f1_xld : ℕ
f1_xld = 0x430

abbrev pub f37x : ℕ
f37x = 0x432

abbrev pub l43x_l44x : ℕ
l43x_l44x = 0x435

abbrev pub f334 : ℕ
f334 = 0x438

abbrev pub f3xx_small : ℕ
f3xx_small = 0x439

abbrev pub f0 : ℕ
f0 = 0x440

abbrev pub f09x : ℕ
f09x = 0x442

abbrev pub c011xx : ℕ
c011xx = 0x443

abbrev pub f0xx_small : ℕ
f0xx_small = 0x444

abbrev pub f04 : ℕ
f04 = 0x445

abbrev pub f303_hd : ℕ
f303_hd = 0x446

abbrev pub f0_can : ℕ
f0_can = 0x448

abbrev pub c051xx : ℕ
c051xx = 0x44c

abbrev pub c091xx_c92xx : ℕ
c091xx_c92xx = 0x44d

abbrev pub c031xx : ℕ
c031xx = 0x453

abbrev pub g0_cat2 : ℕ
g0_cat2 = 0x460

abbrev pub l45x_l46x : ℕ
l45x_l46x = 0x462

abbrev pub l41x_l42x : ℕ
l41x_l42x = 0x464

abbrev pub g0_cat1 : ℕ
g0_cat1 = 0x466

abbrev pub g4_cat2 : ℕ
g4_cat2 = 0x468

abbrev pub g4_cat3 : ℕ
g4_cat3 = 0x469

abbrev pub l4px : ℕ
l4px = 0x471

abbrev pub g4_cat4 : ℕ
g4_cat4 = 0x479

abbrev pub c071xx : ℕ
c071xx = 0x493

abbrev pub core_m3_r1p1_swd : ℕ
core_m3_r1p1_swd = 0x1ba01477

abbrev pub core_m7f_swd : ℕ
core_m7f_swd = 0x5ba02477

abbrev pub core_m7f_m33_swd : ℕ
core_m7f_m33_swd = 0x6ba02477

abbrev pub core_m7f_m33_jtag : ℕ
core_m7f_m33_jtag = 0x6ba00477
