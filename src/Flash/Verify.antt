-- ===== src/Flash/Verify.antt =====
-- common_flash.c: `stlink_verify_write_flash`, and map_file.c: `check_file`. Both compare bytes of the
-- host with the memory of the chip, read in chunks of aligned words.
pub mod Bytes
pub mod Memory
pub mod Compares
pub mod File
use libstlink.Prelude.{
  ℕ, zero, suc, ◌%◌, ◌^◌, Bool, true, false, ◌&&◌, none, List, [], ◌∷◌, ℤ, success, failure,
  bit_and, drop, ltb, ◌==◌, if◌then◌else◌,
}
use libstlink.Word.{add32, sub32, clear, is_set}
use libstlink.Stlink.{Stlink, M, pure, get, ◌>>=◌, ◌>>◌}
use libstlink.Stlink.ReadWrite.{stlink_read_mem32}

-- !memcmp(a, b, n) for buffers of at least n bytes.
unfoldable pub same_bytes : ℕ → List ℕ → List ℕ → Bool
same_bytes zero a b = true
same_bytes (suc n) (x ∷ a) (y ∷ b) = x == y && same_bytes n a b
same_bytes (suc n) _ _ = false

-- A size rounded up to whole words.
unfoldable pub align_size : ℕ → ℕ
align_size size = if is_set (bit_and size 3) then clear (add32 size 4) 3 else size

-- Larger reads stall the probe.
abbrev pub chunk_of : Stlink → ℕ
chunk_of sl = if ltb 0x1800 sl.flash_pgsz then 0x1800 else sl.flash_pgsz

-- The bytes compared in the round at `off`.
abbrev pub verify_size : ℕ → ℕ → ℕ → ℕ → ℕ
verify_size chunk_size alignment_offset off length =
    let size = sub32 chunk_size alignment_offset in
    if ltb length (add32 off size) then sub32 length off else size

unfoldable pub verify_from : ℕ → ℕ → ℕ → List ℕ → ℕ → ℕ → M ℤ
unfolding align_size stlink_read_mem32 same_bytes
verify_from zero chunk_size address bytes length off = λ sl. none
verify_from (suc fuel) chunk_size address bytes length off =
    let read_address = add32 address off in
    let aligned = clear read_address 3 in
    let skip = sub32 read_address aligned in
    let cmp_size = verify_size chunk_size skip off length in
    elim (ltb off length) [
      | true ↦ (do
        stlink_read_mem32 aligned (align_size (add32 skip cmp_size) % 2 ^ 16)
        sl ← get
        elim (same_bytes cmp_size (drop skip sl.q_buf) (drop off bytes)) [
          | true ↦ verify_from fuel chunk_size address bytes length (add32 off cmp_size)
          | false ↦ pure failure
        ])
      | false ↦ pure success
    ]

unfoldable pub stlink_verify_write_flash : ℕ → ℕ → List ℕ → ℕ → M ℤ
unfolding verify_from
stlink_verify_write_flash fuel address bytes length = do
  sl ← get
  verify_from fuel (chunk_of sl) address bytes length 0

abbrev check_size : ℕ → ℕ → ℕ → ℕ
check_size n_cmp off len = if ltb len (add32 off n_cmp) then sub32 len off else n_cmp

unfoldable pub check_from : ℕ → ℕ → List ℕ → ℕ → ℕ → ℕ → M ℤ
unfolding align_size stlink_read_mem32 same_bytes
check_from zero n_cmp base len addr off = λ sl. none
check_from (suc fuel) n_cmp base len addr off =
    let cmp_size = check_size n_cmp off len in
    elim (ltb off len) [
      | true ↦ (do
        stlink_read_mem32 (add32 addr off) (align_size cmp_size % 2 ^ 16)
        sl ← get
        elim (same_bytes cmp_size sl.q_buf (drop off base)) [
          | true ↦ check_from fuel n_cmp base len addr (add32 off n_cmp)
          | false ↦ pure failure
        ])
      | false ↦ pure success
    ]

-- The mapped file is its bytes and its length.
unfoldable pub check_file : ℕ → List ℕ → ℕ → ℕ → M ℤ
unfolding check_from
check_file fuel base len addr = do sl ← get; check_from fuel (chunk_of sl) base len addr 0
