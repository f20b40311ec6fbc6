-- ===== src/WriteFlash/Verified.antt =====
-- common_flash.c: what a result of 0 says of a write to the flash.
use libstlink.Prelude.{
  ℕ, ◌≡◌, ◌∙◌, refl, ap, true, false, Option, none, some, List, ℤ, pos, negsuc, success, failure,
  is_nonzero, is_negative, zero, suc,
}
use libstlink.Stlink.{Stlink, M, pure, ◌>>=◌, bind_split}
use libstlink.Flash.Verify.{stlink_verify_write_flash}
use libstlink.Loader.{FlashLoader}
use libstlink.Target.{stlink_core_id}
use libstlink.Loader.Start.{stlink_flashloader_start}
use libstlink.Loader.Write.{stlink_flashloader_write}
use libstlink.Loader.Stop.{stlink_flashloader_stop}
use libstlink.WriteFlash.{
  EraseType, and_then, write_verified, write_checked, erase_first, checked_len, stlink_write_flash,
}

some_value :
    {A : Type 0} {x y : A} {s t : Stlink}
    → ◌≡◌ {A = Option (A × Stlink)} (some (x, s)) (some (y, t))
    → x ≡ y
some_value {A} {x} {y} {s} {t} e =
    ap (λ (o : Option (A × Stlink)). elim o [ none ↦ x | some p ↦ p.0 ]) e

positive : (n : ℕ) → pos (suc n) ≡ success → ⊥
positive n e = cc

negative : (n : ℕ) → negsuc n ≡ success → ⊥
negative n e = cc

-- A step whose result is tested gives 0 only where the next one does.
abbrev tested : ℤ → M ℤ → M ℤ
tested ret k = elim (is_nonzero ret) [ true ↦ pure ret | false ↦ k ]

tested_zero :
    (ret : ℤ) (k : M ℤ) (sl sl' : Stlink)
    → tested ret k sl ≡ some (success, sl')
    → k sl ≡ some (success, sl')
tested_zero (pos zero) k sl sl' ran = ran
tested_zero (pos (suc n)) k sl sl' ran = absurd (positive n (some_value {x = pos (suc n)} ran))
tested_zero (negsuc n) k sl sl' ran = absurd (negative n (some_value {x = negsuc n} ran))

and_then_zero :
    (m k : M ℤ) (sl sl' : Stlink)
    → and_then m k sl ≡ some (success, sl')
    → (sl₁ : Stlink) × (k sl₁ ≡ some (success, sl'))
and_then_zero m k sl sl' ran =
    let (ret, sl₁, _, rest) = bind_split m (λ ret. tested ret k) sl sl' success ran in
    (sl₁, tested_zero ret k sl₁ sl' rest)

module _ (fuel addr : ℕ) (base : List ℕ) where
  abbrev verify : ℕ → M ℤ
  verify len = stlink_verify_write_flash fuel addr base len

  abbrev write_and_stop : ℕ → FlashLoader → M ℤ
  write_and_stop len fl =
      and_then (stlink_flashloader_write fuel fl addr base len)
        (and_then (stlink_flashloader_stop fl) (verify len))

  write_verified_zero :
      (fl : FlashLoader) (len : ℕ) (sl sl' : Stlink)
      → write_verified fuel fl addr base len sl ≡ some (success, sl')
      → (sl₁ : Stlink) × (verify len sl₁ ≡ some (success, sl'))
  unfolding write_verified
  write_verified_zero fl len sl sl' ran =
      let (r, sl₁, _, rest) =
        bind_split (stlink_flashloader_start fuel fl) (λ r. tested r.0 (write_and_stop len r.1)) sl
          sl' success ran in
      let (sl₂, rest₂) =
        and_then_zero (stlink_flashloader_write fuel r.1 addr base len)
          (and_then (stlink_flashloader_stop r.1) (verify len)) sl₁ sl'
          (tested_zero r.0 (write_and_stop len r.1) sl₁ sl' rest) in
      and_then_zero (stlink_flashloader_stop r.1) (verify len) sl₂ sl' rest₂

  -- The erase, where it does not fail, is followed by the write.
  after_erase : FlashLoader → ℕ → ℤ → M ℤ
  after_erase fl len erased = elim (is_negative erased) [
    | true ↦ pure failure
    | false ↦ write_verified fuel fl addr base len
  ]

  after_erase_zero :
      (fl : FlashLoader) (len : ℕ) (erased : ℤ) (sl sl' : Stlink)
      → after_erase fl len erased sl ≡ some (success, sl')
      → write_verified fuel fl addr base len sl ≡ some (success, sl')
  unfolding after_erase
  after_erase_zero fl len (pos n) sl sl' ran = ran
  after_erase_zero fl len (negsuc n) sl sl' ran = absurd (negative 0 (some_value {x = failure} ran))

  write_checked_zero :
      (fl : FlashLoader) (erase_type : EraseType) (checked : Option ℕ) (sl sl' : Stlink)
      → write_checked fuel fl addr base false erase_type checked sl ≡ some (success, sl')
      → (len : ℕ) × (checked ≡ some len) × (sl₁ : Stlink) × (verify len sl₁ ≡ some (success, sl'))
  unfolding write_checked after_erase
  write_checked_zero fl erase_type none sl sl' ran =
      absurd (negative 0 (some_value {x = failure} ran))
  write_checked_zero fl erase_type (some len) sl sl' ran =
      let (_, sl₁, _, rest) =
        bind_split stlink_core_id (λ _. erase_first fuel addr len erase_type >>= after_erase fl len)
          sl sl' success ran in
      let (erased, sl₂, _, rest₂) =
        bind_split (erase_first fuel addr len erase_type) (after_erase fl len) sl₁ sl' success
          rest in
      let (sl₃, verified) =
        write_verified_zero fl len sl₂ sl' (after_erase_zero fl len erased sl₂ sl' rest₂) in
      (len, refl, sl₃, verified)

  -- A write that is more than an erase returns 0 only where the checks of its arguments passed, with
  -- the length len', and where the comparison of the flash with the len' bytes of the data, as the last thing
  -- done, found them equal.
  pub stlink_write_flash_verified :
      (fl : FlashLoader) (len : ℕ) (erase_type : EraseType) (sl sl' : Stlink)
      → stlink_write_flash fuel fl addr base len false erase_type sl ≡ some (success, sl')
      → (len' : ℕ) × (sl₀ : Stlink) × (sl₁ : Stlink) × (checked_len fuel addr len sl
          ≡ some (some len', sl₀))
        × (stlink_verify_write_flash fuel addr base len' sl₁ ≡ some (success, sl'))
  unfolding stlink_write_flash
  stlink_write_flash_verified fl len erase_type sl sl' ran =
      let (checked, sl₀, passed, rest) =
        bind_split (checked_len fuel addr len) (write_checked fuel fl addr base false erase_type) sl
          sl' success ran in
      let (len', found, sl₁, verified) = write_checked_zero fl erase_type checked sl₀ sl' rest in
      (len', sl₀, sl₁, passed ∙ ap (λ (o : Option ℕ). some (o, sl₀)) found, verified)
