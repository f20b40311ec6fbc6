-- ===== src/Loader/Chunks.antt =====
-- flash_loader.c, in `stlink_flashloader_write`: the data handed to the loader, chunk by chunk. The first
-- number bounds the chunks.
pub mod Loaded
use libstlink.Prelude.{
  ℕ, zero, suc, ◌+◌, Bool, true, false, Option, none, some, List, ℤ, failure, drop, ltb,
  if◌then◌else◌,
}
use libstlink.Word.{add32, sub32}
use libstlink.Stlink.{Stlink, M, pure, get, ◌>>=◌, ◌>>◌}
use libstlink.Flash.Control.{lock_flash}
use libstlink.Flash.Status.{check_flash_error}
use libstlink.Flash.Unlock.{unlock_flash_if}
use libstlink.Loader.Buffer.{FlashLoader, is_minus_one}
use libstlink.Loader.Run.{stlink_flash_loader_run}

-- len - off > limit ? limit : len - off
abbrev pub chunk_size : ℕ → ℕ → ℕ → ℕ
chunk_size limit len off = if ltb limit (sub32 len off) then limit else sub32 len off

-- F2, F4, F7, L4, H5 and WB0.
unfoldable pub write_chunks : ℕ → FlashLoader → ℕ → ℕ → List ℕ → ℕ → ℕ → M (Option ℤ)
unfolding stlink_flash_loader_run check_flash_error
write_chunks zero fl limit addr base len off = λ sl. none
write_chunks (suc rounds) fl limit addr base len off = elim (ltb off len) [
  | false ↦ pure none
  | true ↦ (do
    ret ← stlink_flash_loader_run fl (add32 addr off) (drop off base) (chunk_size limit len off)
    elim (is_minus_one ret) [
      | true ↦ (do check_flash_error; pure (some failure))
      | false ↦ write_chunks rounds fl limit addr base len (add32 off (chunk_size limit len off))
    ])
]

-- F0, F1, F3: a page at a time, the flash locked in between.
unfoldable pub write_pages : ℕ → FlashLoader → ℕ → ℕ → List ℕ → ℕ → ℕ → M (Option ℤ)
unfolding stlink_flash_loader_run check_flash_error unlock_flash_if lock_flash
write_pages zero fl flash_pgsz addr base len off = λ sl. none
write_pages (suc rounds) fl flash_pgsz addr base len off = elim (ltb off len) [
  | false ↦ pure none
  | true ↦ (do
    unlock_flash_if
    ret ←
        stlink_flash_loader_run fl (add32 addr off) (drop off base) (chunk_size flash_pgsz len off)
    elim (is_minus_one ret) [
      | true ↦ (do check_flash_error; pure (some failure))
      | false ↦ (do
        lock_flash
        write_pages rounds fl flash_pgsz addr base len (add32 off flash_pgsz))
    ])
]
