-- ===== src/Stlink/Types.antt =====
-- struct _stlink, the calls of a backend, and the state monad over them.
use libstlink.Prelude.{Option-cases, inl, inr, sym, ◌∙◌, ℕ, Option, none, some, List, ℤ, ◌≡◌, refl}

-- enum stm32_flash_type
pub data FlashType : Type 0 where
  unknown c0 f0_f1_f3 f1_xl f2_f4 f7 g0 g4 h7 l0_l1 l4 l5_u5 wb_wl wb0 h5 c5 : FlashType

-- struct stlink_reg: the core registers of the target.
pub record StlinkReg : Type 0 where
  pub r : List ℕ
  pub s : List ℕ
  pub xpsr : ℕ
  pub main_sp : ℕ
  pub process_sp : ℕ
  pub rw1 : ℕ
  pub rw2 : ℕ
  pub control : ℕ
  pub faultmask : ℕ
  pub basepri : ℕ
  pub primask : ℕ
  pub fpscr : ℕ

-- enum target_state
pub data TargetState : Type 0 where
  target_unknown target_running target_halted target_reset target_debug_running : TargetState

-- enum reset_type
pub data ResetType : Type 0 where
  reset_auto reset_hard reset_soft reset_soft_and_halt : ResetType

-- enum run_type
pub data RunType : Type 0 where
  run_normal run_flash_loader : RunType

-- One call of the backend, with what the host hands over.
pub data Call : Type 0 where
  read_debug32 : ℕ → Call
  write_debug32 : ℕ → ℕ → Call
  read_mem32 : ℕ → ℕ → Call
  write_mem32 : ℕ → ℕ → List ℕ → Call
  write_mem8 : ℕ → ℕ → List ℕ → Call
  read_reg : ℤ → Call
  write_reg : ℕ → ℤ → Call
  read_unsupported_reg : ℤ → Call
  write_unsupported_reg : ℕ → ℤ → Call
  read_all_regs : Call
  read_all_unsupported_regs : Call
  run : RunType → Call
  status : Call
  core_id : Call
  force_debug : Call
  target_voltage : Call
  reset : Call
  jtag_reset : ℤ → Call
  current_mode : Call
  exit_debug_mode : Call

abbrev pub History : Type 0
History = List Call

-- The function pointers of a backend. The number after the result code of a read is what the out
-- variable holds after the call, also where the call fails and leaves it as it was. `status` and
-- `core_id` give what they leave in the context. `target_voltage` is `none` where the pointer is NULL.
-- `polls_in_500ms` is the clock of the host: the rounds that a loop makes before its 500 ms are over.
pub record Backend : Type 0 where
  pub read_debug32 : History → ℕ → ℤ × ℕ
  pub write_debug32 : History → ℕ → ℕ → ℤ
  pub read_mem32 : History → ℕ → ℕ → ℤ × List ℕ
  pub write_mem32 : History → ℕ → ℕ → List ℕ → ℤ
  pub write_mem8 : History → ℕ → ℕ → List ℕ → ℤ
  pub read_reg : History → ℤ → StlinkReg → ℤ × StlinkReg
  pub write_reg : History → ℕ → ℤ → ℤ
  pub read_unsupported_reg : History → ℤ → StlinkReg → ℤ × StlinkReg
  pub write_unsupported_reg : History → ℕ → ℤ → StlinkReg → ℤ × StlinkReg
  pub read_all_regs : History → StlinkReg → ℤ × StlinkReg
  pub read_all_unsupported_regs : History → StlinkReg → ℤ × StlinkReg
  pub run : History → RunType → ℤ
  pub status : History → ℤ × TargetState
  pub core_id : History → ℤ × ℕ
  pub force_debug : History → ℤ
  pub target_voltage : Option (History → ℤ)
  pub reset : History → ℤ
  pub jtag_reset : History → ℤ → ℤ
  pub current_mode : History → ℤ
  pub exit_debug_mode : History → ℤ
  pub polls_in_500ms : History → ℕ

-- The fields of the context that the modelled code reads or writes. `uninit_reg` is no field of the
-- source: it is what a local `struct stlink_reg` holds before it is assigned.
pub record Stlink : Type 0 where
  pub backend : Backend
  pub history : History
  pub q_buf : List ℕ
  pub opt : ℤ
  pub core_id : ℕ
  pub chip_id : ℕ
  pub core_stat : TargetState
  pub stlink_v : ℕ
  pub flash_type : FlashType
  pub flash_base : ℕ
  pub flash_size : ℕ
  pub flash_pgsz : ℕ
  pub sram_base : ℕ
  pub sram_size : ℕ
  pub option_base : ℕ
  pub option_size : ℕ
  pub chip_flags : ℕ
  pub otp_base : ℕ
  pub otp_size : ℕ
  pub uninit_reg : StlinkReg

-- A function on the context. `none`: a polling loop did not end within the fuel it was given.
abbrev pub M : Type 0 → Type 0
M A = Stlink → Option (A × Stlink)

abbrev pub pure : {A : Type 0} → A → M A
pure a sl = some (a, sl)

abbrev pub get : M Stlink
get sl = some (sl, sl)

infixl 5 ◌>>=◌ ◌>>◌
abbrev pub ◌>>=◌ : {A B : Type 0} → M A → (A → M B) → M B
◌>>=◌ m f sl = elim (m sl) [ none ↦ none | some (a, sl') ↦ f a sl' ]

-- A statement whose value is dropped.
abbrev pub ◌>>◌ : {A B : Type 0} → M A → M B → M B
m >> k = m >>= λ _. k

-- A step that returns hands its value and its context on.
module _ {A B : Type 0} (m : M A) {sl sl' : Stlink} {a : A} (e : m sl ≡ some (a, sl')) where
  pub bind_run : (f : A → M B) → (m >>= f) sl ≡ f a sl'
  bind_run f = rw (e, ◌>>=◌) refl

  pub then_run : (k : M B) → (m >> k) sl ≡ k sl'
  then_run k = rw (e, ◌>>=◌) refl

-- A step that does not end keeps the ones behind it from running.
pub then_stops : {A B : Type 0} (m : M A) {sl : Stlink} (k : M B) → m sl ≡ none → (m >> k) sl ≡ none
then_stops m k e = rw (e, ◌>>=◌) refl

none-some : {A : Type 0} {x : A} → ◌≡◌ {A = Option A} none (some x) → ⊥
none-some e = cc

-- A chain that returned had a first step that returned.
pub bind_split :
    {A B : Type 0} (m : M A) (f : A → M B) (sl sl' : Stlink) (b : B)
    → (m >>= f) sl ≡ some (b, sl')
    → (a : A) × (sl₁ : Stlink) × (m sl ≡ some (a, sl₁)) × (f a sl₁ ≡ some (b, sl'))
bind_split {A} {B} m f sl sl' b ran = elim (Option-cases (m sl)) [
  | inl stuck ↦
      let stops : (m >>= f) sl ≡ none = rw (stuck, ◌>>=◌) refl in
      absurd (none-some (sym stops ∙ ran))
  | inr (p, e) ↦ (p.0, p.1, e, sym (bind_run m {sl = sl} {sl' = p.1} {a = p.0} e f) ∙ ran)
]
