-- ===== src/WriteRam/Whole.antt =====
-- common_legacy.c: `stlink_mwrite_sram` as a whole.
use libstlink.Prelude.{
  ℕ, ◌+◌, ◌^◌, ◌≤◌, ◌<◌, ◌≡◌, ◌∙◌, refl, inl, inr, true, some, List, ℤ, pos, success, get_or,
  length, Bool-cases, bit_and, bit_or, ◌∷◌,
}
use libstlink.Word.{add32, u32_mod, is_set}
use libstlink.Stlink.{Stlink, Call, RunType, run_normal, pure, then_run, ◌>>=◌, ◌>>◌}
use libstlink.Stlink.ReadWrite.{stlink_read_debug32, stlink_write_reg, stlink_read_reg}
use libstlink.Stlink.Image.{byte_at, Filled}
use libstlink.Target.{backend_run, stlink_run}
use libstlink.WriteFlash.{stlink_fwrite_finalize}
use libstlink.WriteRam.{in_sram, write_data, stlink_mwrite_sram}
use libstlink.WriteRam.Fills.{write_data_fill}

-- The memory is as it was.
Keeps : Stlink → Stlink → Type 0
Keeps s s' = (a : ℕ) → byte_at a s'.history ≡ byte_at a s.history

-- The run of the core returns, and writes no memory.
stlink_run-Keeps :
    (type : RunType) (s : Stlink)
    → (r : ℤ) × (s' : Stlink) × (stlink_run type s ≡ some (r, s')) × Keeps s s'
unfolding stlink_run stlink_read_reg stlink_write_reg backend_run Keeps
stlink_run-Keeps type s =
    let xpsr = (s.backend.read_reg s.history (pos 16) s.uninit_reg).1.xpsr in
    let h₁ = Call.read_reg (pos 16) ∷ s.history in
    let h₂ = Call.write_reg (bit_or xpsr (2 ^ 24)) (pos 16) ∷ h₁ in
    elim (Bool-cases (is_set (bit_and xpsr (2 ^ 24)))) [
      | inl e ↦ (
        s.backend.run h₁ type,
        record s { history = Call.run type ∷ h₁ },
        rw (stlink_run, ◌>>=◌, e) refl,
        λ a. refl,
      )
      | inr e ↦ (
        s.backend.run h₂ type,
        record s { history = Call.run type ∷ h₂ },
        rw (stlink_run, ◌>>=◌, e) refl,
        λ a. refl,
      )
    ]

-- The start of the target returns, and writes no memory.
stlink_fwrite_finalize-Keeps :
    (addr : ℕ) (s : Stlink)
    → (s' : Stlink) × (stlink_fwrite_finalize addr s ≡ some (tt, s')) × Keeps s s'
unfolding stlink_fwrite_finalize stlink_read_debug32 stlink_write_reg Keeps
stlink_fwrite_finalize-Keeps addr s =
    let (_, val) = s.backend.read_debug32 s.history (add32 addr 4) in
    let s₁ = record s {
      history = Call.write_reg val (pos 15) ∷ Call.read_debug32 (add32 addr 4) ∷ s.history;
    } in
    let (r, s₂, ran, keeps) = stlink_run-Keeps run_normal s₁ in
    (s₂, then_run (stlink_run run_normal) {sl = s₁} ran (pure tt), λ a. keeps a)

module _ (addr : ℕ) (base : List ℕ) (fuel n : ℕ) (sl : Stlink) where
  -- In the range of the RAM and at a whole word, stlink_mwrite_sram returns 0, if the data are there, they end
  -- 1024 bytes before 2^32, and the fuel is more than their number. Each byte of the data was then
  -- written last at its address, and no other address was written, whatever the probe answers.
  pub stlink_mwrite_sram_fill :
      in_sram sl addr n ≡ true
      → n ≤ length base
      → addr + n + 1024 < u32_mod
      → n < fuel
      → (sl' : Stlink) × (stlink_mwrite_sram fuel base n addr sl ≡ some (success, sl'))
        × Filled (λ i. get_or base i 0) addr 0 n sl.history sl'.history
  unfolding stlink_mwrite_sram Keeps
  stlink_mwrite_sram_fill inside there room enough =
      let (q, h, ran, filled) =
        write_data_fill sl addr base fuel n sl.q_buf sl.history there room enough in
      let s₁ = record sl { q_buf = q; history = h } in
      let (s₂, started, keeps) = stlink_fwrite_finalize-Keeps addr s₁ in
      (
        s₂,
        rw (stlink_mwrite_sram, ◌>>=◌, inside)
            (then_run (write_data fuel addr base n) {sl = sl} ran
                (stlink_fwrite_finalize addr >> pure success)
              ∙ then_run (stlink_fwrite_finalize addr) {sl = s₁} started (pure success)),
        record {
          inside = λ i ge lt. keeps (addr + i) ∙ filled.inside i ge lt;
          below = λ a lt. keeps a ∙ filled.below a lt;
          above = λ a ge. keeps a ∙ filled.above a ge;
        },
      )
