-- ===== src/WriteRam.antt =====
-- common_legacy.c: the writes to the RAM of the chip. The file is the list of its bytes, and `none`
-- where it cannot be mapped; its checksum on stdout is left out. `fuel` bounds the blocks.
pub mod Fills
pub mod Whole
use libstlink.Prelude.{
  ℕ, zero, suc, ◌+◌, ◌-◌, ◌%◌, ◌^◌, Bool, true, false, Option, none, some, List, ℤ, success,
  failure, bit_and, length, drop, ltb, if◌then◌else◌,
}
use libstlink.Word.{add32, sub32, is_set}
use libstlink.Stlink.{Stlink, M, pure, get, ◌>>=◌, ◌>>◌}
use libstlink.Stlink.ReadWrite.{stlink_write_mem32, stlink_write_mem8}
use libstlink.Flash.Verify.{check_file}
use libstlink.Loader.Buffer.{is_minus_one, copy_to_q_buf}
use libstlink.WriteFlash.{stlink_fwrite_finalize}

-- The tests of the range and of the alignment.
unfoldable pub in_sram : Stlink → ℕ → ℕ → Bool
in_sram sl addr length =
    if ltb addr sl.sram_base
    then false
    else if ltb (add32 addr length) addr
    then false
    else if ltb (add32 sl.sram_base sl.sram_size) (add32 addr length)
    then false
    else if is_set (bit_and addr 3)
    then false
    else true

-- The bytes of the block at `off`.
abbrev pub block_size : ℕ → ℕ → ℕ
block_size len off = if ltb len (add32 off 1024) then sub32 len off else 1024

abbrev pub rounded : ℕ → ℕ
rounded size = if is_set (bit_and size 3) then add32 size 2 else size

-- Blocks of 1 kB. A failure is not noticed.
unfoldable pub write_blocks : ℕ → ℕ → List ℕ → ℕ → ℕ → M (Unit {0})
unfolding copy_to_q_buf stlink_write_mem32
write_blocks zero addr base len off = λ sl. none
write_blocks (suc rounds) addr base len off =
    let size = block_size len off in
    elim (ltb off len) [
      | false ↦ pure tt
      | true ↦ (do
        copy_to_q_buf size (drop off base) 0
        stlink_write_mem32 (add32 addr off) (rounded size % 2 ^ 16)
        write_blocks rounds addr base len (add32 off 1024))
    ]

-- The bytes behind the last word.
unfoldable pub write_last : ℕ → List ℕ → ℕ → ℕ → M (Unit {0})
unfolding copy_to_q_buf stlink_write_mem8
write_last addr base length len =
    if ltb len length
    then (do
      copy_to_q_buf (length - len) (drop len base) 0
      stlink_write_mem8 (add32 addr len) ((length - len) % 2 ^ 16)
      pure tt)
    else pure tt

-- The words, and the bytes behind them.
unfoldable pub write_data : ℕ → ℕ → List ℕ → ℕ → M (Unit {0})
unfolding write_blocks write_last
write_data fuel addr base length =
    let len = length - bit_and length 3 in
    do write_blocks fuel addr base len 0; write_last addr base length len

unfoldable pub stlink_mwrite_sram : ℕ → List ℕ → ℕ → ℕ → M ℤ
unfolding in_sram write_data stlink_fwrite_finalize
stlink_mwrite_sram fuel bytes length addr = do
  sl ← get
  elim (in_sram sl addr length) [
    | false ↦ pure failure
    | true ↦ (do write_data fuel addr bytes length; stlink_fwrite_finalize addr; pure success)
  ]

unfoldable pub stlink_fwrite_sram : ℕ → Option (List ℕ) → ℕ → M ℤ
unfolding in_sram write_data check_file stlink_fwrite_finalize
stlink_fwrite_sram fuel none addr = pure failure
stlink_fwrite_sram fuel (some base) addr = do
  sl ← get
  elim (in_sram sl addr (length base)) [
    | false ↦ pure failure
    | true ↦ (do
      write_data fuel addr base (length base)
      same ← check_file fuel base (length base) addr
      elim (is_minus_one same) [
        | true ↦ pure failure
        | false ↦ (do stlink_fwrite_finalize addr; pure success)
      ])
  ]
