-- ===== src/Flash/Status/Wait.antt =====
-- common_flash.c: when the polling loop `wait_flash_busy` ends.
use libstlink.Prelude.{ℕ, zero, suc, ◌<◌, ◌≡◌, ◌≢◌, refl, ap, ◌∙◌, true, none, some, arith}
use libstlink.Word.{is_set, uint32_max}
use libstlink.Stlink.{Stlink, unknown, bind_run}
use libstlink.Flash.Status.{busy_of, is_flash_busy, wait_flash_busy}

-- n polls find the controller busy, and the next one finds it idle and leaves the last context.
pub data IdleAfter : ℕ → Stlink → Stlink → Type 0 where
  idle : (sl sl' : Stlink) → is_flash_busy sl ≡ some (0, sl') → IdleAfter zero sl sl'
  busy :
      {n busy : ℕ} (sl sl₁ : Stlink) {sl' : Stlink}
      → busy ≢ 0
      → is_flash_busy sl ≡ some (busy, sl₁)
      → IdleAfter n sl₁ sl'
      → IdleAfter (suc n) sl sl'

-- The loop ends at the first poll that finds the controller idle, in the context after this poll, with
-- any fuel of more polls than those that find it busy.
pub wait_flash_busy-IdleAfter :
    (fuel n : ℕ) (sl sl' : Stlink)
    → IdleAfter n sl sl'
    → n < fuel
    → wait_flash_busy fuel sl ≡ some (tt, sl')
unfolding wait_flash_busy
wait_flash_busy-IdleAfter zero n sl sl' h lt = absurd (omega arith)
wait_flash_busy-IdleAfter (suc fuel) zero sl sl' (idle _ _ ran) lt = bind_run is_flash_busy ran _
wait_flash_busy-IdleAfter (suc fuel) (suc n) sl sl' (busy {busy = b} _ sl₁ set ran rest) lt =
    let is_busy : is_set b ≡ true = ground arith in
    let ih = wait_flash_busy-IdleAfter fuel n sl₁ sl' rest (omega arith) in
    bind_run is_flash_busy ran _ ∙ rw is_busy ih

-- -1 is what a poll of an unknown flash type gives.
is_flash_busy-unknown :
    (sl : Stlink) → sl.flash_type ≡ unknown → is_flash_busy sl ≡ some (uint32_max, sl)
unfolding is_flash_busy busy_of
is_flash_busy-unknown sl e = ap (λ t. busy_of t sl) e

-- On an unknown flash type every poll gives -1, so the loop does not end, whatever its fuel.
pub wait_flash_busy-unknown :
    (fuel : ℕ) (sl : Stlink) → sl.flash_type ≡ unknown → wait_flash_busy fuel sl ≡ none
unfolding wait_flash_busy
wait_flash_busy-unknown zero sl e = refl
wait_flash_busy-unknown (suc fuel) sl e =
    bind_run is_flash_busy (is_flash_busy-unknown sl e) _ ∙ wait_flash_busy-unknown fuel sl e
