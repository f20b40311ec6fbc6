-- ===== src/Gdb/Server/Break/Halves.antt =====
-- gdb-server.c: the half word that a comparator of the first revision stops at.
use libstlink.Prelude.{
  ℕ, zero, suc, ◌+◌, ◌*◌, ◌/◌, ◌%◌, ◌^◌, ◌<◌, ◌≡◌, ◌∙◌, refl, ap, bit_and, bit_or, arith,
  Bool-cases, inl, inr, true, false, ◌==◌,
}
use libstlink.Word.{clear, shl32}
use libstlink.Word.Digits.{bit_and_step, bit_and-zero}
use libstlink.Word.Align.{bit_and-three}
use libstlink.Word.Bits.{bit_or-eq-add, bit_or_comm, bit_and_ones}
use libstlink.Gdb.Server.Break.{Break, comp_value, changed, fpb_addr, break_type}

-- FP_COMP of the first revision: bit 0 enables it, bits 28 to 2 are the word, and bits 30 and 31 are
-- for its two half words.
pub BreaksAt : ℕ → ℕ → Type 0
BreaksAt comp addr =
    (comp % 2 ≡ 1) × (comp / 4 % 2 ^ 27 ≡ addr / 4) × (comp / 2 ^ (30 + addr / 2 % 2) % 2 ≡ 1)

pub fpb_addr_v1 : (addr : ℕ) → addr < 2 ^ 29 → fpb_addr 0 addr ≡ addr / 4 * 4
unfolding fpb_addr
fpb_addr_v1 addr h = omega (
  arith,
  bit_and_step addr 0x1ffffffc,
  bit_and_step (addr / 2) 0x0ffffffe,
  bit_and_ones 27 (addr / 2 / 2) (omega arith),
)

bit_and-two : (addr : ℕ) → bit_and addr 2 ≡ addr / 2 % 2 * 2
bit_and-two addr =
    omega (arith, bit_and_step addr 2, bit_and_step (addr / 2) 1, bit_and-zero (addr / 2 / 2))

pub break_type_v1 : (addr : ℕ) → break_type 0 addr ≡ 1 + addr / 2 % 2
unfolding break_type
break_type_v1 addr = rw (bit_and-two addr) (ground arith)

pub comp_value_v1 :
    (b : Break)
    → 0 < b.type
    → b.type < 4
    → b.addr % 4 ≡ 0
    → b.addr < 2 ^ 29
    → comp_value b ≡ b.type * 2 ^ 30 + b.addr + 1
unfolding comp_value
comp_value_v1 b used small aligned low =
    let not_free : (b.type == 0) ≡ false = ground arith in
    let shifted : shl32 (bit_and b.type 0x03) 30 ≡ b.type * 2 ^ 30 =
      omega (arith, bit_and-three b.type) in
    let word : bit_or (b.type * 2 ^ 30) b.addr ≡ b.addr + b.type * 2 ^ 30 =
      bit_or_comm (b.type * 2 ^ 30) b.addr ∙ bit_or-eq-add 30 b.addr b.type (omega arith) in
    let halved : b.addr + b.type * 2 ^ 30 ≡ (b.addr + b.type * 2 ^ 30) / 2 * 2 ^ 1 = omega arith in
    let enabled : bit_or (b.addr + b.type * 2 ^ 30) 1 ≡ 1 + (b.addr + b.type * 2 ^ 30) =
      bit_or_comm (b.addr + b.type * 2 ^ 30) 1
      ∙ ap (bit_or 1) halved
      ∙ bit_or-eq-add 1 1 ((b.addr + b.type * 2 ^ 30) / 2) (omega arith)
      ∙ omega arith in
    rw not_free (
      ap (λ x. bit_or (bit_or x b.addr) 1) shifted
      ∙ ap (λ x. bit_or x 1) word
      ∙ enabled
      ∙ omega arith)

-- The kinds of a comparator of the first revision: 1, 2 and 3 for the low, the high and both halves.
pub set_type :
    (t half : ℕ)
    → t < 4
    → half < 2
    → (bit_or t (1 + half) < 4) × (bit_or t (1 + half) / 2 ^ half % 2 ≡ 1)
set_type zero zero h k = (omega arith, refl)
set_type zero (suc zero) h k = (omega arith, refl)
set_type (suc zero) zero h k = (omega arith, refl)
set_type (suc zero) (suc zero) h k = (omega arith, refl)
set_type (suc (suc zero)) zero h k = (omega arith, refl)
set_type (suc (suc zero)) (suc zero) h k = (omega arith, refl)
set_type (suc (suc (suc zero))) zero h k = (omega arith, refl)
set_type (suc (suc (suc zero))) (suc zero) h k = (omega arith, refl)
set_type (suc (suc (suc (suc t)))) half h k = absurd (omega arith)
set_type t (suc (suc half)) h k = absurd (omega arith)

pub clear_type :
    (t half : ℕ)
    → t < 4
    → half < 2
    → (clear t (1 + half) < 4) × (clear t (1 + half) / 2 ^ half % 2 ≡ 0)
clear_type zero zero h k = (omega arith, refl)
clear_type zero (suc zero) h k = (omega arith, refl)
clear_type (suc zero) zero h k = (omega arith, refl)
clear_type (suc zero) (suc zero) h k = (omega arith, refl)
clear_type (suc (suc zero)) zero h k = (omega arith, refl)
clear_type (suc (suc zero)) (suc zero) h k = (omega arith, refl)
clear_type (suc (suc (suc zero))) zero h k = (omega arith, refl)
clear_type (suc (suc (suc zero))) (suc zero) h k = (omega arith, refl)
clear_type (suc (suc (suc (suc t)))) half h k = absurd (omega arith)
clear_type t (suc (suc half)) h k = absurd (omega arith)

-- The half word bit of a comparator in use.
half_bit :
    (type word half : ℕ)
    → type < 4
    → word < 2 ^ 29
    → word % 4 ≡ 0
    → half < 2
    → (type * 2 ^ 30 + word + 1) / 2 ^ (30 + half) % 2 ≡ type / 2 ^ half % 2
half_bit type word zero small low aligned h = omega arith
half_bit type word (suc zero) small low aligned h = omega arith
half_bit type word (suc (suc half)) small low aligned h = absurd (omega arith)

bit_positive : (type half : ℕ) → half < 2 → type / 2 ^ half % 2 ≡ 1 → 0 < type
bit_positive type zero h bit = omega arith
bit_positive type (suc zero) h bit = omega arith
bit_positive type (suc (suc half)) h bit = absurd (omega arith)

module _ (addr type : ℕ) (low : addr < 2 ^ 29) (small : type < 4) where
  abbrev at_word : Break
  at_word = record { addr = addr / 4 * 4; type = type }

  in_use : 0 < type → comp_value at_word ≡ type * 2 ^ 30 + addr / 4 * 4 + 1
  in_use used = comp_value_v1 at_word used small (omega arith) (omega arith)

  in_use_bit :
      0 < type → comp_value at_word / 2 ^ (30 + addr / 2 % 2) % 2 ≡ type / 2 ^ (addr / 2 % 2) % 2
  in_use_bit used =
      ap (λ comp. comp / 2 ^ (30 + addr / 2 % 2) % 2) (in_use used)
      ∙ half_bit type (addr / 4 * 4) (addr / 2 % 2) small (omega arith) (omega arith) (omega arith)

  BreaksAt-set : type / 2 ^ (addr / 2 % 2) % 2 ≡ 1 → BreaksAt (comp_value at_word) addr
  unfolding BreaksAt
  BreaksAt-set bit =
      let used = bit_positive type (addr / 2 % 2) (omega arith) bit in
      (omega (arith, in_use used), omega (arith, in_use used), in_use_bit used ∙ bit)

  BreaksAt-clear : type / 2 ^ (addr / 2 % 2) % 2 ≡ 0 → ¬ BreaksAt (comp_value at_word) addr
  unfolding BreaksAt comp_value
  BreaksAt-clear bit (enabled, word, half) = elim (Bool-cases (type == 0)) [
    | inl free ↦ absurd (omega (arith, rw free at enabled))
    | inr used ↦ absurd (omega (arith, in_use_bit (ground arith)))
  ]

-- The entry that `update_code_breakpoint` leaves in the comparator it has found.
pub entry-BreaksAt :
    (b : Break) (addr : ℕ)
    → b.type < 4
    → addr < 2 ^ 29
    → BreaksAt (comp_value (changed true (fpb_addr 0 addr) (break_type 0 addr) b)) addr
unfolding changed
entry-BreaksAt b addr small low =
    let (small', bit) = set_type b.type (addr / 2 % 2) small (omega arith) in
    rw (fpb_addr_v1 addr low, break_type_v1 addr) (BreaksAt-set addr _ low small' bit)

pub entry-not-BreaksAt :
    (b : Break) (addr : ℕ)
    → b.type < 4
    → addr < 2 ^ 29
    → ¬ BreaksAt (comp_value (changed false (fpb_addr 0 addr) (break_type 0 addr) b)) addr
unfolding changed
entry-not-BreaksAt b addr small low =
    let (small', bit) = clear_type b.type (addr / 2 % 2) small (omega arith) in
    rw (fpb_addr_v1 addr low, break_type_v1 addr) (BreaksAt-clear addr _ low small' bit)
