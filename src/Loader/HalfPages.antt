-- ===== src/Loader/HalfPages.antt =====
-- flash_loader.c: `stm32l1_write_half_pages`, by the loader or, where it fails at once, without it.
use libstlink.Prelude.{
  ℕ, zero, suc, ◌+◌, ◌-◌, ◌*◌, ◌/◌, ◌%◌, ◌^◌, Bool, true, false, ◌&&◌, none, List, ℤ, success,
  is_nonzero, bit_or, drop, ltb, ◌==◌, if◌then◌else◌,
}
use libstlink.Word.{add32, clear, u32_mod}
use libstlink.Registers.Fpec
use libstlink.Registers.L0
use libstlink.Stlink.{M, pure, get, ◌>>=◌, ◌>>◌}
use libstlink.Stlink.ReadWrite.{stlink_read_debug32, stlink_write_debug32, stlink_write_mem32}
use libstlink.Flash.Control.{get_stm32l0_flash_base}
use libstlink.Flash.Status.{wait_flash_busy}
use libstlink.Loader.Buffer.{FlashLoader, copy_to_q_buf}
use libstlink.Loader.Run.{stlink_flash_loader_run}

-- A half page in pieces of 64 bytes, until one fails. The first number bounds the pieces.
unfoldable pub write_soft : ℕ → ℕ → List ℕ → ℕ → ℕ → M ℤ
unfolding copy_to_q_buf stlink_write_mem32
write_soft zero addr base pagesize off = λ sl. none
write_soft (suc rounds) addr base pagesize off =
    let chunk = if ltb 64 (pagesize - off) then 64 else pagesize - off in
    elim (ltb off pagesize) [
      | false ↦ pure success
      | true ↦ (do
        copy_to_q_buf chunk (drop off base) 0
        ret ← stlink_write_mem32 (add32 addr off) (chunk % 2 ^ 16)
        elim (is_nonzero ret) [
          | true ↦ pure ret
          | false ↦ write_soft rounds addr base pagesize (off + 64)
        ])
    ]

-- One half page. The loader is given up where it fails for the first one: the flag tells.
write_half_page : ℕ → FlashLoader → ℕ → List ℕ → ℕ → Bool → Bool → M (ℤ × Bool)
unfolding write_soft stlink_flash_loader_run
write_half_page fuel fl addr base pagesize first use_loader =
    if use_loader
    then (do
      ret ← stlink_flash_loader_run fl addr base pagesize
      if is_nonzero ret && first
          then (do ret' ← write_soft fuel addr base pagesize 0; pure (ret', false))
          else pure (ret, true))
    else (do ret ← write_soft fuel addr base pagesize 0; pure (ret, false))

-- The rounds that are left, from `count` on.
unfoldable pub half_pages : ℕ → ℕ → ℕ → FlashLoader → ℕ → List ℕ → ℕ → Bool → M ℤ
unfolding write_half_page
half_pages zero count fuel fl addr base pagesize use_loader = pure success
half_pages (suc left) count fuel fl addr base pagesize use_loader = do
  (ret, use_loader') ←
      write_half_page fuel fl (add32 addr (count * pagesize % u32_mod))
        (drop (count * pagesize) base) pagesize (count == 0) use_loader
  elim (is_nonzero ret) [
    | true ↦ pure ret
    | false ↦ (do
      wait_flash_busy fuel
      half_pages left (suc count) fuel fl addr base pagesize use_loader')
  ]

unfoldable pub stm32l1_write_half_pages : ℕ → FlashLoader → ℕ → List ℕ → ℕ → ℕ → M ℤ
unfolding get_stm32l0_flash_base stlink_read_debug32 stlink_write_debug32 half_pages
stm32l1_write_half_pages fuel fl addr base len pagesize = do
  sl ← get
  let pecr = get_stm32l0_flash_base sl + Fpec.pecr_off
  (ret₀, val) ← stlink_read_debug32 pecr
  stlink_write_debug32 pecr (bit_or val (2 ^ L0.l1_fprg))
  stlink_write_debug32 pecr (bit_or (bit_or val (2 ^ L0.l1_fprg)) (2 ^ L0.l1_prog))
  wait_flash_busy fuel
  ret ← half_pages (len / pagesize) 0 fuel fl addr base pagesize true
  (ret₁, val₁) ← stlink_read_debug32 pecr
  stlink_write_debug32 pecr (clear val₁ (bit_or (2 ^ L0.l1_fprg) (2 ^ L0.l1_prog)))
  pure ret
