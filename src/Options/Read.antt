-- ===== src/Options/Read.antt =====
-- option_bytes.c: the reads. Each gives the result code and the word that is read.
use libstlink.Prelude.{
  ℕ, zero, suc, ◌*◌, ◌/◌, ◌%◌, Bool, true, false, ◌||◌, none, ℤ, failure, ltb, ◌==◌, if◌then◌else◌,
}
use libstlink.Word.{add32, sub32, u32_mod}
use libstlink.Registers.C0
use libstlink.Registers.Chip
use libstlink.Registers.F4
use libstlink.Registers.F7
use libstlink.Registers.Fpec
use libstlink.Registers.Gx
use libstlink.Registers.Wb
use libstlink.Stlink.{FlashType, c0, f0_f1_f3, f1_xl, f7, wb_wl, M, pure, get, ◌>>=◌}
use libstlink.Stlink.ReadWrite.{stlink_read_debug32}
use libstlink.Loader.Buffer.{is_minus_one}

-- The word behind a read that is refused is 0 in the model, where the source leaves the variable as it is.
abbrev pub refused : ℤ × ℕ
refused = (failure, 0)

unfoldable pub stlink_read_option_control_register_c0 : M (ℤ × ℕ)
stlink_read_option_control_register_c0 = stlink_read_debug32 C0.optr

unfoldable pub stlink_read_option_bytes_c0 : M (ℤ × ℕ)
stlink_read_option_bytes_c0 = stlink_read_option_control_register_c0

unfoldable pub stlink_read_option_control_register_f0 : M (ℤ × ℕ)
stlink_read_option_control_register_f0 = stlink_read_debug32 Fpec.obr

unfoldable pub stlink_read_option_control_register_f2 : M (ℤ × ℕ)
stlink_read_option_control_register_f2 = stlink_read_debug32 F4.f2_opt_cr

unfoldable pub stlink_read_option_bytes_f2 : M (ℤ × ℕ)
stlink_read_option_bytes_f2 = stlink_read_option_control_register_f2

unfoldable pub stlink_read_option_control_register_f4 : M (ℤ × ℕ)
stlink_read_option_control_register_f4 = stlink_read_debug32 F4.optcr

unfoldable pub stlink_read_option_bytes_f4 : M (ℤ × ℕ)
stlink_read_option_bytes_f4 = stlink_read_option_control_register_f4

-- The words before the last one are read for the print on stdout; -1 ends the loop. The first number
-- bounds the rounds.
unfoldable pub read_words_f7 : ℕ → ℕ → ℕ → M (ℤ × ℕ)
unfolding stlink_read_debug32
read_words_f7 zero last counter = λ sl. none
read_words_f7 (suc rounds) last counter = do
  sl ← get
  let addr = add32 sl.option_base (counter * 4 % u32_mod)
  elim (ltb counter last) [
    | true ↦ (do
      (err, option_byte) ← stlink_read_debug32 addr
      elim (is_minus_one err) [
        | true ↦ pure (err, option_byte)
        | false ↦ read_words_f7 rounds last (suc counter)
      ])
    | false ↦ stlink_read_debug32 (add32 sl.option_base (last * 4 % u32_mod))
  ]

unfoldable pub stlink_read_option_bytes_f7 : ℕ → M (ℤ × ℕ)
unfolding read_words_f7
stlink_read_option_bytes_f7 fuel = do sl ← get; read_words_f7 fuel (sub32 (sl.option_size / 4) 1) 0

unfoldable pub stlink_read_option_control_register_f7 : M (ℤ × ℕ)
stlink_read_option_control_register_f7 = stlink_read_debug32 F7.optcr

unfoldable pub stlink_read_option_control_register1_f7 : M (ℤ × ℕ)
stlink_read_option_control_register1_f7 = stlink_read_debug32 F7.optcr1

unfoldable pub stlink_read_option_bytes_boot_add_f7 : M (ℤ × ℕ)
stlink_read_option_bytes_boot_add_f7 = stlink_read_option_control_register1_f7

unfoldable pub stlink_read_option_control_register_gx : M (ℤ × ℕ)
stlink_read_option_control_register_gx = stlink_read_debug32 Gx.optr

unfoldable pub stlink_read_option_bytes_gx : M (ℤ × ℕ)
stlink_read_option_bytes_gx = stlink_read_option_control_register_gx

unfoldable pub stlink_read_option_control_register_wb : M (ℤ × ℕ)
stlink_read_option_control_register_wb = stlink_read_debug32 Wb.optr

unfoldable pub stlink_read_option_bytes_generic : M (ℤ × ℕ)
stlink_read_option_bytes_generic = do sl ← get; stlink_read_debug32 sl.option_base

-- The reads need an address of the option bytes.
abbrev with_base : M (ℤ × ℕ) → M (ℤ × ℕ)
with_base m = do sl ← get; if sl.option_base == 0 then pure refused else m

control_register_of : FlashType → M (ℤ × ℕ)
unfolding stlink_read_option_control_register_c0 stlink_read_option_control_register_f0
    stlink_read_option_control_register_f7 stlink_read_option_control_register_wb
control_register_of c0 = stlink_read_option_control_register_c0
control_register_of f0_f1_f3 = stlink_read_option_control_register_f0
control_register_of f1_xl = stlink_read_option_control_register_f0
control_register_of f7 = stlink_read_option_control_register_f7
control_register_of wb_wl = stlink_read_option_control_register_wb
control_register_of _ = pure refused

unfoldable pub stlink_read_option_control_register32 : M (ℤ × ℕ)
unfolding control_register_of
stlink_read_option_control_register32 = with_base (do sl ← get; control_register_of sl.flash_type)

abbrev only_f7 : M (ℤ × ℕ) → FlashType → M (ℤ × ℕ)
only_f7 m f7 = m
only_f7 m _ = pure refused

unfoldable pub stlink_read_option_control_register1_32 : M (ℤ × ℕ)
unfolding stlink_read_option_control_register1_f7
stlink_read_option_control_register1_32 =
    with_base (do sl ← get; only_f7 stlink_read_option_control_register1_f7 sl.flash_type)

unfoldable pub stlink_read_option_bytes_boot_add32 : M (ℤ × ℕ)
unfolding stlink_read_option_bytes_boot_add_f7
stlink_read_option_bytes_boot_add32 =
    with_base (do sl ← get; only_f7 stlink_read_option_bytes_boot_add_f7 sl.flash_type)

is_c0_chip : ℕ → Bool
is_c0_chip id =
    id == Chip.c011xx
    || id == Chip.c031xx
    || id == Chip.c051xx
    || id == Chip.c071xx
    || id == Chip.c091xx_c92xx

is_gx_chip : ℕ → Bool
is_gx_chip id =
    id == Chip.g0_cat1
    || id == Chip.g0_cat2
    || id == Chip.g4_cat2
    || id == Chip.g4_cat3
    || id == Chip.g4_cat4

option_bytes_of : ℕ → ℕ → M (ℤ × ℕ)
unfolding is_c0_chip is_gx_chip stlink_read_option_bytes_c0 stlink_read_option_bytes_f2
    stlink_read_option_bytes_f4 stlink_read_option_bytes_f7 stlink_read_option_bytes_gx
    stlink_read_option_bytes_generic
option_bytes_of fuel id =
    if is_c0_chip id
    then stlink_read_option_bytes_c0
    else if id == Chip.f2
    then stlink_read_option_bytes_f2
    else if id == Chip.f4 || id == Chip.f446
    then stlink_read_option_bytes_f4
    else if id == Chip.f76xxx
    then stlink_read_option_bytes_f7 fuel
    else if is_gx_chip id
    then stlink_read_option_bytes_gx
    else stlink_read_option_bytes_generic

unfoldable pub stlink_read_option_bytes32 : ℕ → M (ℤ × ℕ)
unfolding option_bytes_of
stlink_read_option_bytes32 fuel = with_base (do sl ← get; option_bytes_of fuel sl.chip_id)
