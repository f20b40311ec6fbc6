-- ===== src/Loader/Chunks/Loaded.antt =====
-- flash_loader.c: the chunks that the loader is given.
use libstlink.Prelude.{
  ℕ, zero, suc, ◌+◌, ◌≤◌, ◌<◌, ◌≡◌, ◌⊎◌, ◌∙◌, refl, ap, inl, inr, true, false, Option, none, some,
  List, ℤ, success, failure, arith, drop, ltb, ltb→lt, ltb→le, Bool-cases,
}
use libstlink.Word.{add32, u32_mod}
use libstlink.Stlink.{Stlink, M, pure, bind_run, then_run, ◌>>◌}
use libstlink.Flash.Status.{check_flash_error}
use libstlink.Flash.Status.Quiet.{check_flash_error-Polls}
use libstlink.Stlink.Image.Polls.{at_history}
use libstlink.Loader.Buffer.{FlashLoader, is_minus_one}
use libstlink.Loader.Run.{stlink_flash_loader_run}
use libstlink.Loader.Run.Returns.{stlink_flash_loader_run-Returns}
use libstlink.Loader.Chunks.{chunk_size, write_chunks}

-- The loader ran on neighbouring chunks, from the offset `off` up to `len`, each of at least one byte and at most
-- `limit` bytes, and reported success for each of them.
pub data Loaded (fl : FlashLoader) (addr : ℕ) (base : List ℕ) (limit len : ℕ)
    : ℕ → Stlink → Stlink → Type 0 where
  all_loaded : (sl : Stlink) → Loaded fl addr base limit len len sl sl
  next_chunk :
      {off : ℕ} (n : ℕ) {sl sl₁ sl₂ : Stlink}
      → 0 < n
      → n ≤ limit
      → stlink_flash_loader_run fl (addr + off) (drop off base) n sl ≡ some (success, sl₁)
      → Loaded fl addr base limit len (off + n) sl₁ sl₂
      → Loaded fl addr base limit len off sl sl₂

module _ (fl : FlashLoader) (limit addr : ℕ) (base : List ℕ) (len : ℕ) where
  abbrev cont : ℕ → ℕ → ℤ → M (Option ℤ)
  cont rounds off ret = elim (is_minus_one ret) [
    | true ↦ (do check_flash_error; pure (some failure))
    | false ↦ write_chunks rounds fl limit addr base len (add32 off (chunk_size limit len off))
  ]

  -- A round with a chunk.
  chunk_round :
      (rounds off n : ℕ) (ret : ℤ) (sl sl₁ : Stlink)
      → ltb off len ≡ true
      → add32 addr off ≡ addr + off
      → chunk_size limit len off ≡ n
      → stlink_flash_loader_run fl (addr + off) (drop off base) n sl ≡ some (ret, sl₁)
      → write_chunks (suc rounds) fl limit addr base len off sl ≡ cont rounds off ret sl₁
  unfolding write_chunks
  chunk_round rounds off n ret sl sl₁ go here size ran =
      let ran' : stlink_flash_loader_run fl (add32 addr off) (drop off base)
            (chunk_size limit len off) sl
          ≡ some (ret, sl₁) =
        ap (λ (a : ℕ). stlink_flash_loader_run fl a (drop off base) (chunk_size limit len off) sl)
          here
        ∙ ap (λ (k : ℕ). stlink_flash_loader_run fl (addr + off) (drop off base) k sl) size
        ∙ ran in
      rw (write_chunks, go)
        (bind_run
          (stlink_flash_loader_run fl (add32 addr off) (drop off base) (chunk_size limit len off))
          ran' (cont rounds off))

  -- The loop ends where the chunks have room, the data end below 2^32, and there are more rounds than bytes
  -- left. Either the loader has run on all of the data, chunk after chunk and in order,
  -- or the loop stops with -1.
  pub write_chunks-Loaded :
      (rounds off : ℕ) (sl : Stlink)
      → 0 < limit
      → addr + len < u32_mod
      → off ≤ len
      → len < rounds + off
      → (r : Option ℤ) × (sl' : Stlink) × (write_chunks rounds fl limit addr base len off sl
          ≡ some (r, sl'))
        × (((r ≡ none) × Loaded fl addr base limit len off sl sl') ⊎ (r ≡ some failure))
  unfolding write_chunks
  write_chunks-Loaded zero off sl some_room fits below enough = absurd (omega arith)
  write_chunks-Loaded (suc rounds) off sl some_room fits below enough =
      elim (Bool-cases (ltb off len)) [
        | inr stop ↦
            let at_end : len ≡ off = omega (arith, ltb→le off len stop) in
            (none, sl, rw (write_chunks, stop) refl, inl (refl, rw at_end (all_loaded sl)))
        | inl go ↦
            let lt = ltb→lt off len go in
            let n = chunk_size limit len off in
            let sizes : (0 < n) × (n ≤ limit) × (off + n ≤ len) = ground arith in
            let here : add32 addr off ≡ addr + off = omega arith in
            let next : add32 off n ≡ off + n = omega (arith, sizes) in
            let (ret, sl₁, ran, code) =
              stlink_flash_loader_run-Returns fl (addr + off) (drop off base) n sl in
            let round = chunk_round rounds off n ret sl sl₁ go here refl ran in
            elim code [
              | inl fine ↦
                  let (r, sl₂, rest, ends) =
                    write_chunks-Loaded rounds (off + n) sl₁ some_room fits (omega (arith, sizes))
                      (omega (arith, sizes)) in
                  (
                    r,
                    sl₂,
                    round
                        ∙ ap (λ (z : ℤ). cont rounds off z sl₁) fine
                        ∙ ap (λ (k : ℕ). write_chunks rounds fl limit addr base len k sl₁) next
                        ∙ rest,
                    elim ends [
                      | inl (e, loaded) ↦
                          inl (e, next_chunk n sizes.0 sizes.1 (rw fine at ran) loaded)
                      | inr e ↦ inr e
                    ],
                  )
              | inr failed ↦
                  let (err, h, checked, _) = check_flash_error-Polls sl₁ in
                  (
                    some failure,
                    at_history sl₁ h,
                    round
                        ∙ ap (λ (z : ℤ). cont rounds off z sl₁) failed
                        ∙ then_run check_flash_error {sl = sl₁} checked (pure (some failure)),
                    inr refl,
                  )
            ]
      ]
