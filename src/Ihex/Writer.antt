-- ===== src/Ihex/Writer.antt =====
-- common_legacy.c: `stlink_fread_ihex_*`, which save a part of the flash. The functions of <stdio.h>
-- are parameters: `fprintf` gives the number of characters or a negative one, and what the file
-- holds after the call; `fclose` its result.
use libstlink.Prelude.{
  ℕ, ◌+◌, ◌-◌, ◌/◌, ◌%◌, ◌^◌, Bool, true, false, not, List, [], ◌∷◌, ◌++◌, ℤ, pos, negsuc, length,
  bit_and, ltb, ◌==◌, if◌then◌else◌,
}
use libstlink.Word.{add32, shr32}

-- A digit of %X, and the conversions %02X and %04X.
abbrev pub upper_digit : ℕ → ℕ
upper_digit d = if ltb d 10 then b'0' + d else b'A' + (d - 10)

abbrev pub hex2 : ℕ → List ℕ
hex2 n = upper_digit (n / 16 % 16) ∷ upper_digit (n % 16) ∷ []

abbrev pub hex4 : ℕ → List ℕ
hex4 n = hex2 (n / 256 % 256) ++ hex2 (n % 256)

abbrev pub cr_lf : List ℕ
cr_lf = 13 ∷ 10 ∷ []

-- struct stlink_fread_ihex_worker_arg: `buf` is the part of the buffer that is filled, so that
-- `buf_pos` is its length.
pub record WorkerArg : Type 0 where
  pub file : List ℕ
  pub addr : ℕ
  pub lba : ℕ
  pub buf : List ℕ

abbrev pub buf_size : ℕ
buf_size = 16

-- A function that may return false, and what it leaves in its argument.
abbrev pub Step : Type 0
Step = WorkerArg → Bool × WorkerArg

abbrev pub done : Step
done arg = (true, arg)

infixl 5 ◌&&then◌
abbrev pub ◌&&then◌ : Step → Step → Step
(first &&then next) arg =
    let (ok, arg') = first arg in elim ok [ true ↦ next arg' | false ↦ (false, arg') ]

-- stlink_fread_ihex_init, where fdopen succeeds on an empty file.
abbrev pub stlink_fread_ihex_init : ℕ → WorkerArg
stlink_fread_ihex_init addr = record { file = []; addr = addr; lba = 0; buf = [] }

abbrev pub is_count : ℤ → ℕ → Bool
is_count (pos n) m = n == m
is_count (negsuc n) m = false

-- (uint8_t) (0x100 - sum)
abbrev pub complement : ℕ → ℕ
complement sum = (0x100 - sum) % 2 ^ 8

module _ (fprintf : List ℕ → List ℕ → ℤ × List ℕ) (fclose : List ℕ → ℤ) where
  -- if(count != fprintf(...)) { return (false); }
  abbrev pub print : ℕ → List ℕ → Step
  print count text arg =
      let (n, file) = fprintf arg.file text in (is_count n count, record arg { file = file })

  unfoldable pub stlink_fread_ihex_newsegment : Step
  stlink_fread_ihex_newsegment arg =
      let sum = (2 + 4 + arg.addr / 2 ^ 24 % 2 ^ 8 + arg.addr / 2 ^ 16 % 2 ^ 8) % 2 ^ 8 in
      (print 17 (
            b':' ∷ b'0' ∷ b'2' ∷ b'0' ∷ b'0' ∷ b'0' ∷ b'0' ∷ b'0' ∷ b'4' ∷ []
            ++ hex4 (shr32 (bit_and arg.addr 0xffff0000) 16)
            ++ hex2 (complement sum)
            ++ cr_lf)
          &&then λ a. (true, record a { lba = bit_and a.addr 0xffff0000 }))
        arg

  -- The loop over the bytes of the line, with the sum so far; the checksum stands behind them.
  unfoldable pub write_bytes : List ℕ → ℕ → Step
  write_bytes [] sum arg = print 4 (hex2 (complement sum) ++ cr_lf) arg
  write_bytes (b ∷ bs) sum arg = (print 2 (hex2 b) &&then write_bytes bs ((sum + b) % 2 ^ 8)) arg

  unfoldable pub stlink_fread_ihex_writeline : Step
  unfolding stlink_fread_ihex_newsegment write_bytes
  stlink_fread_ihex_writeline arg =
      let count = length arg.buf in
      let addr = arg.addr in
      let sum = (count + bit_and addr 0xff00 / 2 ^ 8 % 2 ^ 8 + bit_and addr 0xff % 2 ^ 8) % 2 ^ 8 in
      if count == 0
      then (true, arg)
      else ((if not (arg.lba == bit_and addr 0xffff0000)
              then stlink_fread_ihex_newsegment
              else done)
            &&then print 9 (b':' ∷ (hex2 count ++ hex4 (bit_and addr 0xffff) ++ (b'0' ∷ b'0' ∷ [])))
            &&then write_bytes arg.buf sum
            &&then λ a. (true, record a { addr = add32 a.addr count; buf = [] }))
          arg

  unfoldable pub stlink_fread_ihex_worker : List ℕ → Step
  unfolding stlink_fread_ihex_writeline
  stlink_fread_ihex_worker [] arg = (true, arg)
  stlink_fread_ihex_worker (b ∷ block) arg =
      ((if length arg.buf == buf_size then stlink_fread_ihex_writeline else done)
          &&then (λ a. (true, record a { buf = a.buf ++ (b ∷ []) }))
          &&then stlink_fread_ihex_worker block)
        arg

  unfoldable pub stlink_fread_ihex_finalize : Step
  unfolding stlink_fread_ihex_writeline
  stlink_fread_ihex_finalize arg =
      (stlink_fread_ihex_writeline
          &&then print 13
              (b':' ∷ b'0' ∷ b'0' ∷ b'0' ∷ b'0' ∷ b'0' ∷ b'0' ∷ b'0' ∷ b'1' ∷ b'F' ∷ b'F' ∷ cr_lf)
          &&then λ a. (is_count (fclose a.file) 0, a))
        arg
