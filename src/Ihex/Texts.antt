-- ===== src/Ihex/Texts.antt =====
-- common_legacy.c: the lines that the writer of Intel HEX files prints, as texts.
use mathlib.Core.List.{append_assoc}
use libstlink.Prelude.{
  ℕ, ◌+◌, ◌*◌, ◌/◌, ◌%◌, ◌^◌, ◌<◌, ◌≡◌, ◌∙◌, refl, sym, ap, Bool, true, false, ◌==◌, List, [], ◌∷◌,
  ◌++◌, length, if◌then◌else◌, bit_and, arith,
}
use libstlink.Word.{shr32}
use libstlink.Word.Masks.{bit_and-low_byte, bit_and-high_byte, bit_and-low_half, bit_and-high_half}
use libstlink.Ihex.Writer.{WorkerArg, Step, ◌&&then◌, hex2, hex4, cr_lf, complement, upper_digit}
use libstlink.Ihex.Records.{hexes, record_line, total}

-- A byte that makes the sum 0.
abbrev pub closing : List ℕ → ℕ
closing bytes = complement (total bytes % 256)

-- The bytes of the two kinds of lines.
abbrev pub segment_bytes : ℕ → List ℕ
segment_bytes addr = 2 ∷ 0 ∷ 0 ∷ 4 ∷ addr / 2 ^ 24 ∷ addr / 2 ^ 16 % 256 ∷ []

abbrev pub data_bytes : ℕ → List ℕ → List ℕ
data_bytes addr buf = length buf ∷ addr / 256 % 256 ∷ addr % 256 ∷ 0 ∷ buf

abbrev pub closed_line : List ℕ → List ℕ
closed_line bytes = record_line (bytes ++ (closing bytes ∷ []))

pub hexes-append : (xs ys : List ℕ) → hexes (xs ++ ys) ≡ hexes xs ++ hexes ys
hexes-append [] ys = refl
hexes-append (x ∷ xs) ys =
    ap (λ l. upper_digit (x / 16 % 16) ∷ upper_digit (x % 16) ∷ l) (hexes-append xs ys)

-- A step that succeeds hands its argument on.
pub then_true :
    (first next : Step) (arg arg' : WorkerArg)
    → first arg ≡ (true, arg')
    → (first &&then next) arg ≡ next arg'
then_true first next arg arg' e =
    ap (λ r. elim r.0 as (λ ok. Bool × WorkerArg) [ true ↦ next r.1 | false ↦ (false, r.1) ]) e

-- The line for a segment, as it is printed.
abbrev pub segment_text : ℕ → List ℕ
segment_text addr =
    b':' ∷ b'0' ∷ b'2' ∷ b'0' ∷ b'0' ∷ b'0' ∷ b'0' ∷ b'0' ∷ b'4' ∷ []
    ++ hex4 (shr32 (bit_and addr 0xffff0000) 16)
    ++ hex2 (complement ((2 + 4 + addr / 2 ^ 24 % 2 ^ 8 + addr / 2 ^ 16 % 2 ^ 8) % 2 ^ 8))
    ++ cr_lf

pub segment_text_lem :
    (addr : ℕ) → addr < 2 ^ 32 → segment_text addr ≡ closed_line (segment_bytes addr)
segment_text_lem addr h =
    let mask = bit_and-high_half addr h in
    let high : shr32 (bit_and addr 0xffff0000) 16 / 256 % 256 ≡ addr / 2 ^ 24 = omega arith in
    let low : shr32 (bit_and addr 0xffff0000) 16 % 256 ≡ addr / 2 ^ 16 % 256 = omega arith in
    let sum : (2 + 4 + addr / 2 ^ 24 % 2 ^ 8 + addr / 2 ^ 16 % 2 ^ 8) % 2 ^ 8
        ≡ total (segment_bytes addr) % 256 =
      omega arith in
    ap
      (λ x.
        b':'
        ∷ b'0'
        ∷ b'2'
        ∷ b'0'
        ∷ b'0'
        ∷ b'0'
        ∷ b'0'
        ∷ b'0'
        ∷ b'4'
        ∷ (hex2 x
            ++ hex2 (shr32 (bit_and addr 0xffff0000) 16 % 256)
            ++ hex2 (complement ((2 + 4 + addr / 2 ^ 24 % 2 ^ 8 + addr / 2 ^ 16 % 2 ^ 8) % 2 ^ 8))
            ++ cr_lf))
      high
    ∙ ap
        (λ x.
          b':'
          ∷ b'0'
          ∷ b'2'
          ∷ b'0'
          ∷ b'0'
          ∷ b'0'
          ∷ b'0'
          ∷ b'0'
          ∷ b'4'
          ∷ (hex2 (addr / 2 ^ 24)
              ++ hex2 x
              ++ hex2 (complement ((2 + 4 + addr / 2 ^ 24 % 2 ^ 8 + addr / 2 ^ 16 % 2 ^ 8) % 2 ^ 8))
              ++ cr_lf))
        low
    ∙ ap
        (λ x.
          b':'
          ∷ b'0'
          ∷ b'2'
          ∷ b'0'
          ∷ b'0'
          ∷ b'0'
          ∷ b'0'
          ∷ b'0'
          ∷ b'4'
          ∷ (hex2 (addr / 2 ^ 24) ++ hex2 (addr / 2 ^ 16 % 256) ++ hex2 (complement x) ++ cr_lf))
        sum

abbrev pub set_lba : Step
set_lba a = (true, record a { lba = bit_and a.addr 0xffff0000 })

-- The characters in front of the bytes of a data line.
abbrev pub head_text : ℕ → ℕ → List ℕ
head_text count addr = b':' ∷ (hex2 count ++ hex4 (bit_and addr 0xffff) ++ (b'0' ∷ b'0' ∷ []))

pub head_text_lem :
    (count addr : ℕ)
    → head_text count addr ≡ b':' ∷ hexes (count ∷ addr / 256 % 256 ∷ addr % 256 ∷ 0 ∷ [])
head_text_lem count addr =
    let mask = bit_and-low_half addr in
    let high : bit_and addr 0xffff / 256 % 256 ≡ addr / 256 % 256 = omega arith in
    let low : bit_and addr 0xffff % 256 ≡ addr % 256 = omega arith in rw (high, low) refl

-- The sum that the loop over the bytes starts with.
abbrev pub head_sum : ℕ → ℕ → ℕ
head_sum count addr =
    (count + bit_and addr 0xff00 / 2 ^ 8 % 2 ^ 8 + bit_and addr 0xff % 2 ^ 8) % 2 ^ 8

pub sum_lem :
    (addr : ℕ) (buf : List ℕ)
    → (head_sum (length buf) addr + total buf) % 256 ≡ total (data_bytes addr buf) % 256
sum_lem addr buf = omega (arith, bit_and-high_byte addr, bit_and-low_byte addr)

pub data_text_lem :
    (addr : ℕ) (buf : List ℕ)
    → head_text (length buf) addr
        ++ (hexes buf
            ++ (hex2 (complement ((head_sum (length buf) addr + total buf) % 256)) ++ cr_lf))
      ≡ closed_line (data_bytes addr buf)
data_text_lem addr buf =
    let c = closing (data_bytes addr buf) in
    let front = hexes (length buf ∷ addr / 256 % 256 ∷ addr % 256 ∷ 0 ∷ []) in
    ap (λ n. head_text (length buf) addr ++ (hexes buf ++ (hex2 (complement n) ++ cr_lf)))
      (sum_lem addr buf)
    ∙ ap (λ head. head ++ (hexes buf ++ (hex2 c ++ cr_lf))) (head_text_lem (length buf) addr)
    ∙ ap (λ text. b':' ∷ (front ++ text))
        (sym (append_assoc (hexes buf) (hex2 c) cr_lf)
          ∙ ap (λ text. text ++ cr_lf) (sym (hexes-append buf (c ∷ []))))

abbrev pub segment : WorkerArg → List ℕ
segment arg =
    if arg.lba == arg.addr / 65536 * 65536 then [] else closed_line (segment_bytes arg.addr)

-- The line of a buffer that is not empty, behind the line of its segment where that changes.
abbrev pub line_text : WorkerArg → List ℕ
line_text arg = segment arg ++ closed_line (data_bytes arg.addr arg.buf)
