-- ===== src/Calculate.antt =====
-- .deprecated/src/stlink-lib/calculate.c, and `stlink_calculate_pagesize` of common_legacy.c: the
-- sector or page of a flash address, and its size.
pub mod Sectors
pub mod Pages
use libstlink.Prelude.{
  ℕ, ◌+◌, ◌-◌, ◌/◌, ◌^◌, Bool, ◌&&◌, ◌||◌, ltb, leb, ◌==◌, if◌then◌else◌, bit_and, bit_or, some,
}
use libstlink.Word.{add32, sub32, clear, is_set}
use libstlink.Registers.Chip
use libstlink.Registers.L4
use libstlink.Registers.Memory
use libstlink.Stlink.{Stlink, M, pure, get, ◌>>=◌, ◌>>◌}
use libstlink.Stlink.ReadWrite.{stlink_read_debug32}

abbrev pub bank_1 : ℕ
bank_1 = 0

abbrev pub bank_2 : ℕ
bank_2 = 1

-- The sector of an address in a bank of the F4, `offset` being the first sector of the bank.
f4_sector : ℕ → ℕ → ℕ
f4_sector offset flashaddr =
    if ltb flashaddr 0x4000
    then offset + 0
    else if ltb flashaddr 0x8000
    then offset + 1
    else if ltb flashaddr 0xc000
    then offset + 2
    else if ltb flashaddr 0x10000
    then offset + 3
    else if ltb flashaddr 0x20000
    then offset + 4
    else offset + flashaddr / 0x20000 + 4

unfoldable pub calculate_f4_sectornum : ℕ → ℕ
unfolding f4_sector
calculate_f4_sectornum flashaddr =
    let offset = clear flashaddr Memory.flash_base in
    if leb 0x100000 offset then f4_sector 12 (offset - 0x100000) else f4_sector 0 offset

unfoldable pub calculate_f7_sectornum : ℕ → ℕ
calculate_f7_sectornum flashaddr =
    let offset = clear flashaddr Memory.flash_base in
    if ltb offset 0x20000
    then offset / 0x8000
    else if ltb offset 0x40000
    then 4
    else offset / 0x40000 + 4

unfoldable pub calculate_h7_sectornum : Stlink → ℕ → ℕ → ℕ
calculate_h7_sectornum sl flashaddr bank =
    clear flashaddr (if bank == bank_1 then Memory.flash_base else Memory.h7_flash_bank2_base)
    / sl.flash_pgsz

-- BKER:PNB for the given page address.
unfoldable pub l4_page : Stlink → ℕ → ℕ → ℕ
l4_page sl flashopt flashaddr =
    if sl.chip_id == Chip.l4 || sl.chip_id == Chip.l496x_l4a6x || sl.chip_id == Chip.l4rx
    then (if is_set (bit_and flashopt (2 ^ L4.optr_dualbank)) && leb (sl.flash_size / 2) flashaddr
        then bit_or 0x100 (sub32 flashaddr (sl.flash_size / 2) / sl.flash_pgsz)
        else bit_or 0 (flashaddr / sl.flash_pgsz))
    else bit_or 0 (flashaddr / sl.flash_pgsz)

unfoldable pub calculate_l4_page : ℕ → M ℕ
unfolding l4_page
calculate_l4_page flashaddr = do
  (ret, flashopt) ← stlink_read_debug32 L4.optr
  sl ← get
  pure (l4_page sl flashopt (sub32 flashaddr Memory.flash_base))

unfoldable pub is_f4_layout : ℕ → Bool
is_f4_layout chip_id =
    chip_id == Chip.f2
    || chip_id == Chip.f4
    || chip_id == Chip.f4_de
    || chip_id == Chip.f4_lp
    || chip_id == Chip.f4_hd
    || chip_id == Chip.f411xx
    || chip_id == Chip.f446
    || chip_id == Chip.f4_dsi
    || chip_id == Chip.f72xxx
    || chip_id == Chip.f412
    || chip_id == Chip.f410
    || chip_id == Chip.f413

f4_pagesize : ℕ → ℕ
f4_pagesize sector =
    let s = if leb 12 sector then sector - 12 else sector in
    if ltb s 4 then 0x4000 else if ltb s 5 then 0x10000 else 0x20000

f7_pagesize : ℕ → ℕ
f7_pagesize sector = if ltb sector 4 then 0x8000 else if ltb sector 5 then 0x20000 else 0x40000

-- The page size at an address; `flash_pgsz` where the pages of the chip are of one size.
unfoldable pub pagesize : Stlink → ℕ → ℕ
unfolding is_f4_layout f4_pagesize f7_pagesize calculate_f4_sectornum calculate_f7_sectornum
pagesize sl flashaddr =
    if is_f4_layout sl.chip_id
    then f4_pagesize (calculate_f4_sectornum flashaddr)
    else if sl.chip_id == Chip.f7 || sl.chip_id == Chip.f76xxx
    then f7_pagesize (calculate_f7_sectornum flashaddr)
    else sl.flash_pgsz

-- The function also stores the size in the context.
unfoldable pub stlink_calculate_pagesize : ℕ → M ℕ
unfolding pagesize
stlink_calculate_pagesize flashaddr sl =
    let size = pagesize sl flashaddr in some (size, record sl { flash_pgsz = size })
