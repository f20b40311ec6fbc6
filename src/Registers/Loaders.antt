-- ===== src/Registers/Loaders.antt =====
-- .deprecated/src/stlink-lib/flash_loader.c: the compiled flash loaders, as the bytes that are copied to the
-- memory of the chip.
use libstlink.Prelude.{ℕ, List, [], ◌∷◌}

abbrev pub stm32vl : List ℕ
stm32vl =
    0x00 ∷ 0xbf ∷ 0x00 ∷ 0xbf ∷ 0x09 ∷ 0x4f ∷ 0x1f ∷ 0x44 ∷ 0x09 ∷ 0x4d ∷ 0x3d ∷ 0x44 ∷ 0x04 ∷ 0x88
    ∷ 0x0c ∷ 0x80 ∷ 0x02 ∷ 0x30 ∷ 0x02 ∷ 0x31 ∷ 0x4f ∷ 0xf0 ∷ 0x01 ∷ 0x07 ∷ 0x2c ∷ 0x68 ∷ 0x3c
    ∷ 0x42 ∷ 0xfc ∷ 0xd1 ∷ 0x4f ∷ 0xf0 ∷ 0x14 ∷ 0x07 ∷ 0x3c ∷ 0x42 ∷ 0x01 ∷ 0xd1 ∷ 0x02 ∷ 0x3a
    ∷ 0xf0 ∷ 0xdc ∷ 0x00 ∷ 0xbe ∷ 0x00 ∷ 0x20 ∷ 0x02 ∷ 0x40 ∷ 0x0c ∷ 0x00 ∷ 0x00 ∷ 0x00 ∷ []

abbrev pub stm32f0 : List ℕ
stm32f0 =
    0xc0 ∷ 0x46 ∷ 0xc0 ∷ 0x46 ∷ 0x08 ∷ 0x4f ∷ 0x1f ∷ 0x44 ∷ 0x08 ∷ 0x4d ∷ 0x3d ∷ 0x44 ∷ 0x04 ∷ 0x88
    ∷ 0x0c ∷ 0x80 ∷ 0x02 ∷ 0x30 ∷ 0x02 ∷ 0x31 ∷ 0x06 ∷ 0x4f ∷ 0x2c ∷ 0x68 ∷ 0x3c ∷ 0x42 ∷ 0xfc
    ∷ 0xd1 ∷ 0x05 ∷ 0x4f ∷ 0x3c ∷ 0x42 ∷ 0x01 ∷ 0xd1 ∷ 0x02 ∷ 0x3a ∷ 0xf2 ∷ 0xdc ∷ 0x00 ∷ 0xbe
    ∷ 0x00 ∷ 0x20 ∷ 0x02 ∷ 0x40 ∷ 0x0c ∷ 0x00 ∷ 0x00 ∷ 0x00 ∷ 0x01 ∷ 0x00 ∷ 0x00 ∷ 0x00 ∷ 0x14
    ∷ 0x00 ∷ 0x00 ∷ 0x00 ∷ []

abbrev pub stm32wb0 : List ℕ
stm32wb0 =
    0x0b ∷ 0x4b ∷ 0xc9 ∷ 0x1a ∷ 0x89 ∷ 0x08 ∷ 0x09 ∷ 0x4f ∷ 0xb9 ∷ 0x61 ∷ 0x40 ∷ 0x37 ∷ 0x78 ∷ 0xc8
    ∷ 0x78 ∷ 0xc7 ∷ 0x50 ∷ 0x3f ∷ 0x0d ∷ 0x25 ∷ 0x3d ∷ 0x61 ∷ 0xcc ∷ 0x24 ∷ 0x3c ∷ 0x60 ∷ 0x3c
    ∷ 0x69 ∷ 0x2c ∷ 0x40 ∷ 0xfc ∷ 0xd0 ∷ 0x64 ∷ 0x08 ∷ 0x02 ∷ 0xd1 ∷ 0x04 ∷ 0x31 ∷ 0x10 ∷ 0x3a
    ∷ 0xee ∷ 0xdc ∷ 0x00 ∷ 0xbe ∷ 0x00 ∷ 0x10 ∷ 0x00 ∷ 0x40 ∷ 0x00 ∷ 0x00 ∷ 0x04 ∷ 0x10 ∷ []

abbrev pub stm32lx : List ℕ
stm32lx =
    0x04 ∷ 0x68 ∷ 0x0c ∷ 0x60 ∷ 0x04 ∷ 0x30 ∷ 0x04 ∷ 0x31 ∷ 0x04 ∷ 0x3a ∷ 0xf9 ∷ 0xdc ∷ 0x00 ∷ 0xbe
    ∷ 0x00 ∷ 0x00 ∷ []

abbrev pub stm32f4 : List ℕ
stm32f4 =
    0xdf ∷ 0xf8 ∷ 0x24 ∷ 0xc0 ∷ 0xdf ∷ 0xf8 ∷ 0x24 ∷ 0xa0 ∷ 0xe2 ∷ 0x44 ∷ 0x04 ∷ 0x68 ∷ 0x0c ∷ 0x60
    ∷ 0x00 ∷ 0xf1 ∷ 0x04 ∷ 0x00 ∷ 0x01 ∷ 0xf1 ∷ 0x04 ∷ 0x01 ∷ 0xba ∷ 0xf8 ∷ 0x00 ∷ 0x40 ∷ 0x14
    ∷ 0xf0 ∷ 0x01 ∷ 0x0f ∷ 0xfa ∷ 0xd1 ∷ 0x04 ∷ 0x3a ∷ 0xf2 ∷ 0xdc ∷ 0x00 ∷ 0xbe ∷ 0x00 ∷ 0xbf
    ∷ 0x00 ∷ 0x3c ∷ 0x02 ∷ 0x40 ∷ 0x0e ∷ 0x00 ∷ 0x00 ∷ 0x00 ∷ []

abbrev pub stm32f4_lv : List ℕ
stm32f4_lv =
    0xdf ∷ 0xf8 ∷ 0x24 ∷ 0xc0 ∷ 0xdf ∷ 0xf8 ∷ 0x24 ∷ 0xa0 ∷ 0xe2 ∷ 0x44 ∷ 0x04 ∷ 0x78 ∷ 0x0c ∷ 0x70
    ∷ 0x00 ∷ 0xf1 ∷ 0x01 ∷ 0x00 ∷ 0x01 ∷ 0xf1 ∷ 0x01 ∷ 0x01 ∷ 0xba ∷ 0xf8 ∷ 0x00 ∷ 0x40 ∷ 0x14
    ∷ 0xf0 ∷ 0x01 ∷ 0x0f ∷ 0xfa ∷ 0xd1 ∷ 0x01 ∷ 0x3a ∷ 0xf2 ∷ 0xdc ∷ 0x00 ∷ 0xbe ∷ 0x00 ∷ 0xbf
    ∷ 0x00 ∷ 0x3c ∷ 0x02 ∷ 0x40 ∷ 0x0e ∷ 0x00 ∷ 0x00 ∷ 0x00 ∷ []

abbrev pub stm32h5 : List ℕ
stm32h5 =
    0xdf ∷ 0xf8 ∷ 0x34 ∷ 0xc0 ∷ 0xdf ∷ 0xf8 ∷ 0x34 ∷ 0xa0 ∷ 0xe2 ∷ 0x44 ∷ 0x04 ∷ 0x68 ∷ 0x45 ∷ 0x68
    ∷ 0x86 ∷ 0x68 ∷ 0xc7 ∷ 0x68 ∷ 0x0c ∷ 0x60 ∷ 0x4d ∷ 0x60 ∷ 0x8e ∷ 0x60 ∷ 0xcf ∷ 0x60 ∷ 0x00
    ∷ 0xf1 ∷ 0x10 ∷ 0x00 ∷ 0x01 ∷ 0xf1 ∷ 0x10 ∷ 0x01 ∷ 0xbf ∷ 0xf3 ∷ 0x4f ∷ 0x8f ∷ 0xda ∷ 0xf8
    ∷ 0x00 ∷ 0x40 ∷ 0x14 ∷ 0xf0 ∷ 0x01 ∷ 0x0f ∷ 0xfa ∷ 0xd1 ∷ 0x10 ∷ 0x3a ∷ 0xea ∷ 0xdc ∷ 0x00
    ∷ 0xbe ∷ 0x00 ∷ 0xbf ∷ 0x00 ∷ 0x20 ∷ 0x02 ∷ 0x40 ∷ 0x20 ∷ 0x00 ∷ 0x00 ∷ 0x00 ∷ []

abbrev pub stm32l4 : List ℕ
stm32l4 =
    0xdf ∷ 0xf8 ∷ 0x28 ∷ 0xc0 ∷ 0xdf ∷ 0xf8 ∷ 0x28 ∷ 0xa0 ∷ 0xe2 ∷ 0x44 ∷ 0x05 ∷ 0x68 ∷ 0x44 ∷ 0x68
    ∷ 0x0d ∷ 0x60 ∷ 0x4c ∷ 0x60 ∷ 0x00 ∷ 0xf1 ∷ 0x08 ∷ 0x00 ∷ 0x01 ∷ 0xf1 ∷ 0x08 ∷ 0x01 ∷ 0xda
    ∷ 0xf8 ∷ 0x00 ∷ 0x40 ∷ 0x14 ∷ 0xf4 ∷ 0x80 ∷ 0x3f ∷ 0xfa ∷ 0xd1 ∷ 0x08 ∷ 0x3a ∷ 0xf0 ∷ 0xdc
    ∷ 0x00 ∷ 0xbe ∷ 0x00 ∷ 0xbf ∷ 0x00 ∷ 0x20 ∷ 0x02 ∷ 0x40 ∷ 0x10 ∷ 0x00 ∷ 0x00 ∷ 0x00 ∷ []

abbrev pub stm32f7 : List ℕ
stm32f7 =
    0xdf ∷ 0xf8 ∷ 0x28 ∷ 0xc0 ∷ 0xdf ∷ 0xf8 ∷ 0x28 ∷ 0xa0 ∷ 0xe2 ∷ 0x44 ∷ 0x04 ∷ 0x68 ∷ 0x0c ∷ 0x60
    ∷ 0x00 ∷ 0xf1 ∷ 0x04 ∷ 0x00 ∷ 0x01 ∷ 0xf1 ∷ 0x04 ∷ 0x01 ∷ 0xbf ∷ 0xf3 ∷ 0x4f ∷ 0x8f ∷ 0xba
    ∷ 0xf8 ∷ 0x00 ∷ 0x40 ∷ 0x14 ∷ 0xf0 ∷ 0x01 ∷ 0x0f ∷ 0xfa ∷ 0xd1 ∷ 0x04 ∷ 0x3a ∷ 0xf0 ∷ 0xdc
    ∷ 0x00 ∷ 0xbe ∷ 0x00 ∷ 0xbf ∷ 0x00 ∷ 0x3c ∷ 0x02 ∷ 0x40 ∷ 0x0e ∷ 0x00 ∷ 0x00 ∷ 0x00 ∷ []

abbrev pub stm32f7_lv : List ℕ
stm32f7_lv =
    0xdf ∷ 0xf8 ∷ 0x28 ∷ 0xc0 ∷ 0xdf ∷ 0xf8 ∷ 0x28 ∷ 0xa0 ∷ 0xe2 ∷ 0x44 ∷ 0x04 ∷ 0x78 ∷ 0x0c ∷ 0x70
    ∷ 0x00 ∷ 0xf1 ∷ 0x01 ∷ 0x00 ∷ 0x01 ∷ 0xf1 ∷ 0x01 ∷ 0x01 ∷ 0xbf ∷ 0xf3 ∷ 0x4f ∷ 0x8f ∷ 0xba
    ∷ 0xf8 ∷ 0x00 ∷ 0x40 ∷ 0x14 ∷ 0xf0 ∷ 0x01 ∷ 0x0f ∷ 0xfa ∷ 0xd1 ∷ 0x01 ∷ 0x3a ∷ 0xf0 ∷ 0xdc
    ∷ 0x00 ∷ 0xbe ∷ 0x00 ∷ 0xbf ∷ 0x00 ∷ 0x3c ∷ 0x02 ∷ 0x40 ∷ 0x0e ∷ 0x00 ∷ 0x00 ∷ 0x00 ∷ []
