-- ===== src/Stlink/Returns.antt =====
-- Steps that return in every context, and what is known of the value that they return.
use libstlink.Prelude.{◌≡◌, ◌∙◌, refl, Bool, true, false, some, ℤ, ℕ, if◌then◌else◌}
use libstlink.Stlink.Types.{Stlink, StlinkReg, M, pure, get, ◌>>=◌, ◌>>◌, bind_run}
use libstlink.Stlink.ReadWrite.{
  stlink_read_debug32, stlink_write_debug32, stlink_write_mem32, stlink_write_mem8, stlink_read_reg,
  stlink_write_reg, stlink_read_all_regs,
}

abbrev pub ReturnsAt : {A : Type 0} → (A → Type 0) → M A → Stlink → Type 0
ReturnsAt {A} P m sl = (a : A) × (sl' : Stlink) × (m sl ≡ some (a, sl')) × P a

pub record Returns {A : Type 0} (P : A → Type 0) (m : M A) : Type 0 where
  pub run : (sl : Stlink) → ReturnsAt P m sl

-- Nothing is known of the value.
abbrev pub Any : {A : Type 0} → A → Type 0
Any a = Unit

pub pure-Returns : {A : Type 0} {P : A → Type 0} (a : A) → P a → Returns P (pure a)
pure-Returns a p = record { run = λ sl. (a, sl, refl, p) }

pub bind-Returns :
    {A B : Type 0} {Q : B → Type 0} (m : M A) (f : A → M B)
    → Returns Any m
    → ((a : A) → Returns Q (f a))
    → Returns Q (m >>= f)
bind-Returns m f pm pf = record {
  run = λ sl.
      let (a, sl₁, ran, _) = pm.run sl in
      let (b, sl₂, ran', q) = (pf a).run sl₁ in (b, sl₂, bind_run m ran f ∙ ran', q);
}

pub then-Returns :
    {A B : Type 0} {Q : B → Type 0} (m : M A) (k : M B)
    → Returns Any m
    → Returns Q k
    → Returns Q (m >> k)
then-Returns m k pm pk = bind-Returns m (λ _. k) pm (λ a. pk)

pub get-Returns :
    {B : Type 0} {Q : B → Type 0} (f : Stlink → M B)
    → ((sl : Stlink) → Returns Q (f sl))
    → Returns Q (get >>= f)
get-Returns f pf = record { run = λ sl. (pf sl).run sl }

pub if-Returns :
    {A : Type 0} {P : A → Type 0} (b : Bool) (m k : M A)
    → Returns P m
    → Returns P k
    → Returns P (if b then m else k)
if-Returns true m k pm pk = pm
if-Returns false m k pm pk = pk

-- A guard in front of a step.
choice-Returns :
    {A : Type 0} (b : Bool) (x y : A) (s t : Stlink)
    → (a : A) × (sl' : Stlink) × ((if b then pure x s else pure y t) ≡ some (a, sl')) × Any a
choice-Returns true x y s t = (x, s, refl, tt)
choice-Returns false x y s t = (y, t, refl, tt)

pub stlink_read_debug32-Returns : (addr : ℕ) → Returns Any (stlink_read_debug32 addr)
unfolding stlink_read_debug32
stlink_read_debug32-Returns addr = record { run = λ sl. (_, _, refl, tt) }

pub stlink_write_debug32-Returns : (addr val : ℕ) → Returns Any (stlink_write_debug32 addr val)
unfolding stlink_write_debug32
stlink_write_debug32-Returns addr val = record { run = λ sl. (_, _, refl, tt) }

pub stlink_write_mem32-Returns : (addr len : ℕ) → Returns Any (stlink_write_mem32 addr len)
unfolding stlink_write_mem32
stlink_write_mem32-Returns addr len = record { run = λ sl. choice-Returns _ _ _ _ _ }

pub stlink_write_mem8-Returns : (addr len : ℕ) → Returns Any (stlink_write_mem8 addr len)
unfolding stlink_write_mem8
stlink_write_mem8-Returns addr len = record { run = λ sl. (_, _, refl, tt) }

pub stlink_read_reg-Returns : (idx : ℤ) (regp : StlinkReg) → Returns Any (stlink_read_reg idx regp)
unfolding stlink_read_reg
stlink_read_reg-Returns idx regp = record { run = λ sl. choice-Returns _ _ _ _ _ }

pub stlink_write_reg-Returns : (reg : ℕ) (idx : ℤ) → Returns Any (stlink_write_reg reg idx)
unfolding stlink_write_reg
stlink_write_reg-Returns reg idx = record { run = λ sl. (_, _, refl, tt) }

pub stlink_read_all_regs-Returns : (regp : StlinkReg) → Returns Any (stlink_read_all_regs regp)
unfolding stlink_read_all_regs
stlink_read_all_regs-Returns regp = record { run = λ sl. (_, _, refl, tt) }
