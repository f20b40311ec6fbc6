-- ===== src/Tests/Sectors.antt =====
-- calculate.c on concrete addresses.
use libstlink.Prelude.{◌+◌, ◌/◌, ◌≤◌, ◌<◌, ◌≡◌, refl, true, arith}
use libstlink.Registers.Chip
use libstlink.Registers.Memory
use libstlink.Calculate.{calculate_f4_sectornum, is_f4_layout, pagesize, l4_page}
use libstlink.Calculate.Pages.{l4_page_overflow}
use libstlink.Calculate.Sectors.{f4_start, calculate_f4_sectornum_holds}
use libstlink.Stlink.{Stlink}
use libstlink.Tests.Device.{board}

abbrev f7_board : Stlink
f7_board = record board { chip_id = Chip.f7 }

abbrev l4_board : Stlink
l4_board = record board { chip_id = Chip.l4; flash_pgsz = 0x800 }

f4_sectors : (calculate_f4_sectornum 0x08012345 ≡ 4) × (calculate_f4_sectornum 0x08104000 ≡ 13)
unfolding calculate_f4_sectornum
f4_sectors = (refl, refl)

f4_layout : is_f4_layout Chip.f4 ≡ true
unfolding is_f4_layout
f4_layout = refl

calculate_f4_sectornum_holds_example :
    (f4_start (calculate_f4_sectornum (Memory.flash_base + 0x12345)) ≤ 0x12345)
    × (0x12345
        < f4_start (calculate_f4_sectornum (Memory.flash_base + 0x12345))
          + pagesize board (Memory.flash_base + 0x12345))
calculate_f4_sectornum_holds_example =
    calculate_f4_sectornum_holds board 0x12345 f4_layout (omega arith)

l4_page_overflow_example : l4_page l4_board 0 0x90123 ≡ 0x90123 / 0x800
l4_page_overflow_example =
    l4_page_overflow l4_board 0 0x90123 (omega arith) refl (omega arith) (omega arith)
