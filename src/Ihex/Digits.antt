-- ===== src/Ihex/Digits.antt =====
-- common_legacy.c: the hexadecimal digits of the two directions.
use libstlink.Prelude.{
  ℕ, ◌/◌, ◌%◌, ◌<◌, ◌≡◌, refl, true, false, ◌==◌, ==_iff, passes, passes-lt, not, ◌&&◌, arith,
}
use libstlink.Ihex.Writer.{upper_digit}
use libstlink.Ihex.Parser.{stlink_parse_hex, is_eol}

hex_table :
    passes (λ n. stlink_parse_hex (upper_digit (n / 16 % 16)) (upper_digit (n % 16)) == n) 256
    ≡ true
unfolding passes stlink_parse_hex
hex_table = refl

-- The two characters that the writer prints for a byte are read as the byte.
pub stlink_parse_hex-hex2 :
    (x : ℕ) → x < 256 → stlink_parse_hex (upper_digit (x / 16 % 16)) (upper_digit (x % 16)) ≡ x
stlink_parse_hex-hex2 x h = (==_iff _ x).0 (passes-lt _ 256 hex_table x h)

digit_table : passes (λ d. not (is_eol (upper_digit d)) && not (upper_digit d == 0)) 16 ≡ true
unfolding passes
digit_table = refl

-- A digit is neither the end of a line nor the end of a string.
digit_lem : (d : ℕ) → d < 16 → (not (is_eol (upper_digit d)) && not (upper_digit d == 0)) ≡ true
digit_lem d h = passes-lt _ 16 digit_table d h

pub digit-eol : (d : ℕ) → d < 16 → is_eol (upper_digit d) ≡ false
digit-eol d h = let both = digit_lem d h in ground arith

pub digit-zero : (d : ℕ) → d < 16 → (upper_digit d == 0) ≡ false
digit-zero d h = let both = digit_lem d h in ground arith
