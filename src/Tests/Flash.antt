-- ===== src/Tests/Flash.antt =====
-- common_flash.c on a device with a lock and an empty memory.
use libstlink.Prelude.{
  ℕ, ◌^◌, ◌%◌, ◌≤◌, ◌<◌, ◌≡◌, ◌↔◌, refl, false, none, some, List, [], ◌∷◌, ℤ, pos, success, failure,
  arith, ◌==◌, if◌then◌else◌,
}
use libstlink.Registers.Chip
use libstlink.Registers.F4
use libstlink.Registers.Memory
use libstlink.Calculate.{pagesize}
use libstlink.Stlink.{f0_f1_f3, unknown, f2_f4, Stlink, History, read_debug32, write_debug32}
use libstlink.Flash.Control.{lock_flash}
use libstlink.Flash.Status.{is_flash_busy, wait_flash_busy}
use libstlink.Flash.Status.Wait.{wait_flash_busy-unknown}
use libstlink.Flash.Unlock.{at, lock_bit, flash_keys}
use libstlink.Flash.Unlock.Closes.{lock_flash_closes}
use libstlink.Flash.LockState.{shut, lock_state}
use libstlink.Flash.ErasePage.{stlink_erase_flash_page}
use libstlink.Flash.ErasePage.Unknown.{stlink_erase_flash_page-unknown}
use libstlink.Flash.EraseSection.{stlink_erase_flash_section}
use libstlink.Flash.EraseSection.Refuses.{stlink_erase_flash_section_misaligned}
use libstlink.Flash.Range.{
  stlink_check_address_range_validity, stlink_check_address_range_validity_otp,
  stlink_check_address_alignment,
}
use libstlink.Flash.Range.Bounds.{
  stlink_check_address_range_validity_iff, stlink_check_address_range_validity_otp_iff,
}
use libstlink.Flash.Range.Alignment.{Uniform, stlink_check_address_alignment-Uniform}
use libstlink.Flash.Trim.{num_empty}
use libstlink.Flash.Verify.{stlink_verify_write_flash, check_file}
use libstlink.Flash.Verify.File.{check_file_iff}
use libstlink.Flash.Verify.Bytes.{window}
use libstlink.Flash.Verify.Memory.{Reads, Matches}
use libstlink.Flash.Verify.Compares.{stlink_verify_write_flash_iff}
use libstlink.Tests.Device.{device, board, f4_keys, f4_lock}

-- The board after its lock was opened.
abbrev unlocked : Stlink
unlocked = record board {
  history =
      write_debug32 F4.keyr f4_keys.flash_key2 ∷ write_debug32 F4.keyr f4_keys.flash_key1 ∷ [];
}

unlocked_bit : lock_bit unlocked f2_f4 ≡ at F4.cr F4.cr_lock
unfolding lock_bit
unlocked_bit = refl

unlocked_keys : flash_keys unlocked f2_f4 ≡ some f4_keys
unfolding flash_keys
unlocked_keys = refl

lock_flash_closes_example :
    (h : History) × (lock_flash unlocked ≡ some (tt, record unlocked { history = h }))
    × (lock_state f4_lock h ≡ shut)
lock_flash_closes_example =
    lock_flash_closes unlocked F4.cr F4.cr_lock f4_keys unlocked_bit unlocked_keys refl

abbrev polled : Stlink
polled = record board { history = read_debug32 F4.sr ∷ [] }

one_poll : is_flash_busy board ≡ some (0, polled)
unfolding is_flash_busy
one_poll = refl

abbrev unknown_board : Stlink
unknown_board = record board { flash_type = unknown }

wait_flash_busy-unknown_example : wait_flash_busy 100 unknown_board ≡ none
wait_flash_busy-unknown_example = wait_flash_busy-unknown 100 unknown_board refl

stlink_erase_flash_page-unknown_example :
    stlink_erase_flash_page 100 Memory.flash_base unknown_board ≡ none
stlink_erase_flash_page-unknown_example =
    stlink_erase_flash_page-unknown 100 Memory.flash_base unknown_board refl

stlink_check_address_range_validity_iff_example :
    (stlink_check_address_range_validity board 0x08000100 0x200 ≡ success)
    ↔ ((0x08000000 ≤ 0x08000100) × (0x08000100 < 0x08100000) × (0x08000300 ≤ 0x08100000))
stlink_check_address_range_validity_iff_example =
    stlink_check_address_range_validity_iff board 0x08000100 0x200 (omega arith) (omega arith)

stlink_check_address_range_validity_otp_iff_example :
    (stlink_check_address_range_validity_otp board 0x1fff7800 0x210 ≡ success)
    ↔ ((0x1fff7800 ≤ 0x1fff7800) × (0x1fff7a10 < 0x1fff7a10))
stlink_check_address_range_validity_otp_iff_example =
    stlink_check_address_range_validity_otp_iff board 0x1fff7800 0x210 (omega arith) (omega arith)

-- A board with pages of 1 KiB.
abbrev f1_board : Stlink
f1_board = record board {
  chip_id = Chip.l1_md;
  flash_type = f0_f1_f3;
  flash_pgsz = 0x400;
  opt = pos 1;
}

f1_board-Uniform : Uniform f1_board
unfolding pagesize
f1_board-Uniform addr = refl

stlink_check_address_alignment-Uniform_example :
    stlink_check_address_alignment 4 0x08000c00 f1_board ≡ some (success, f1_board)
stlink_check_address_alignment-Uniform_example =
    stlink_check_address_alignment-Uniform f1_board 4 3 0 f1_board-Uniform (omega arith)
      (omega arith) (omega arith)

stlink_erase_flash_section_misaligned_example :
    stlink_erase_flash_section 5 0x08000c04 0x400 false f1_board ≡ some (failure, f1_board)
stlink_erase_flash_section_misaligned_example =
    stlink_erase_flash_section_misaligned f1_board 5 3 3 0x400 false f1_board-Uniform (omega arith)
      (omega arith) (omega arith)

-- Two bytes of data and five erased ones.
abbrev image : List ℕ
image = 0 ∷ 1 ∷ 0xff ∷ 0xff ∷ 0xff ∷ 0xff ∷ 0xff ∷ []

num_empty-image : num_empty f1_board image 7 ≡ 4
unfolding num_empty
num_empty-image = refl

-- A memory that holds the low byte of each address, and can be read in whole words alone.
abbrev low_bytes : ℕ → ℕ
low_bytes addr = addr % 2 ^ 8

abbrev memory_board : Stlink
memory_board = record board {
  backend = record device {
    read_mem32 =
        λ h addr n. if addr % 4 == 0 then (success, window low_bytes addr n) else (failure, []);
  };
}

memory_board-Reads : Reads low_bytes memory_board.backend
memory_board-Reads h addr n start whole = rw start refl

abbrev written : List ℕ
written = 2 ∷ 3 ∷ 4 ∷ []

verify_written :
    (r : ℤ) × (sl' : Stlink) × (stlink_verify_write_flash 4 0x08000002 written 3 memory_board
      ≡ some (r, sl'))
    × (r ≡ success)
unfolding stlink_verify_write_flash
verify_written = (_, _, refl, refl)

stlink_verify_write_flash_iff_example :
    (r : ℤ) × (sl' : Stlink) × (stlink_verify_write_flash 4 0x08000002 written 3 memory_board
      ≡ some (r, sl'))
    × ((r ≡ success) ↔ Matches low_bytes 0x08000002 written 0 3)
stlink_verify_write_flash_iff_example =
    stlink_verify_write_flash_iff low_bytes 4 0x08000002 written memory_board memory_board-Reads
      (omega arith) (omega arith) (omega arith)

abbrev in_file : List ℕ
in_file = 4 ∷ 5 ∷ 6 ∷ []

check_file_iff_example :
    (r : ℤ) × (sl' : Stlink) × (check_file 4 in_file 3 0x08000004 memory_board ≡ some (r, sl'))
    × ((r ≡ success) ↔ Matches low_bytes 0x08000004 in_file 0 3)
check_file_iff_example =
    check_file_iff low_bytes 4 0x08000004 in_file memory_board memory_board-Reads refl (omega arith)
      refl (omega arith) (omega arith)
