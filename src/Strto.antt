-- ===== src/Strto.antt =====
-- The conversion `strtoul` of the C library as the tools use it (a 64-bit unsigned long), on the bytes
-- of a string without its final NUL: white space, a sign, a prefix 0x at base 16, and digits.
use libstlink.Prelude.{
  ℕ, ◌+◌, ◌-◌, ◌*◌, ◌%◌, ◌^◌, Bool, true, false, ◌&&◌, ◌||◌, List, [], ◌∷◌, leb, ltb, ◌==◌,
  if◌then◌else◌,
}

abbrev pub ulong_max : ℕ
ulong_max = 0xffffffffffffffff

-- isspace
unfoldable pub is_space : ℕ → Bool
is_space c = c == 32 || leb 9 c && leb c 13

-- The value of a digit or a letter; 36 for any other byte.
unfoldable pub digit_value : ℕ → ℕ
digit_value c =
    if leb b'0' c && leb c b'9'
    then c - b'0'
    else if leb b'a' c && leb c b'z'
    then c - b'a' + 10
    else if leb b'A' c && leb c b'Z'
    then c - b'A' + 10
    else 36

-- The digits at the head of a string: their value, and what follows them.
unfoldable pub digits_from : ℕ → ℕ → List ℕ → ℕ × List ℕ
unfolding digit_value
digits_from base acc [] = (acc, [])
digits_from base acc (c ∷ cs) =
    let rest = digits_from base (acc * base + digit_value c) cs in
    if ltb (digit_value c) base then rest else (acc, c ∷ cs)

unfoldable pub starts_with_digit : ℕ → List ℕ → Bool
unfolding digit_value
starts_with_digit base [] = false
starts_with_digit base (c ∷ cs) = ltb (digit_value c) base

unfoldable pub skip_space : List ℕ → List ℕ
unfolding is_space
skip_space [] = []
skip_space (c ∷ cs) = if is_space c then skip_space cs else c ∷ cs

-- The sign, true for minus, and the rest.
take_sign : List ℕ → Bool × List ℕ
take_sign [] = (false, [])
take_sign (c ∷ cs) =
    if c == b'-' then (true, cs) else if c == b'+' then (false, cs) else (false, c ∷ cs)

-- A prefix 0x counts only before a digit.
skip_prefix : ℕ → List ℕ → List ℕ
unfolding starts_with_digit
skip_prefix base (z ∷ x ∷ cs) =
    if base == 16 && z == b'0' && (x == b'x' || x == b'X') && starts_with_digit 16 cs
    then cs
    else z ∷ x ∷ cs
skip_prefix base s = s

-- Out of range the result is ULONG_MAX; a minus negates the value as an unsigned long.
in_ulong : Bool → ℕ → ℕ
in_ulong minus n = if ltb ulong_max n then ulong_max else if minus then (2 ^ 64 - n) % 2 ^ 64 else n

-- The value and the tail; with no digits the value is 0 and the tail the whole string.
unfoldable pub strtoul : List ℕ → ℕ → ℕ × List ℕ
unfolding digits_from starts_with_digit skip_space take_sign skip_prefix in_ulong
strtoul str base =
    let (minus, s) = take_sign (skip_space str) in
    let digits = skip_prefix base s in
    if starts_with_digit base digits
    then (in_ulong minus (digits_from base 0 digits).0, (digits_from base 0 digits).1)
    else (0, str)
