-- ===== src/Ihex/Parser.antt =====
-- common_legacy.c: `stlink_parse_hex` and `stlink_parse_ihex`.
use libstlink.Prelude.{
  replicate, ℕ, zero, suc, ◌+◌, ◌-◌, ◌*◌, ◌/◌, ◌%◌, ◌^◌, ◌&&◌, ◌||◌, Bool, true, false, not, Option,
  none, some, List, [], ◌∷◌, get_or, set, bit_or, ltb, leb, ◌==◌, if◌then◌else◌,
}
use libstlink.Word.{add32, sub32, shl32, uint32_max}

abbrev pub hex_value : ℕ → Option ℕ
hex_value c =
    if leb b'0' c && leb c b'9'
    then some (c - b'0')
    else if leb b'A' c && leb c b'F'
    then some (c - b'A' + 10)
    else if leb b'a' c && leb c b'f'
    then some (c - b'a' + 10)
    else none

-- The value of two characters, and 0 where one of them is no digit.
unfoldable pub stlink_parse_hex : ℕ → ℕ → ℕ
stlink_parse_hex c₁ c₂ = elim (hex_value c₁) [
  | none ↦ 0
  | some d₁ ↦ elim (hex_value c₂) [ none ↦ 0 | some d₂ ↦ bit_or (d₁ * 2 ^ 4 % 2 ^ 8) d₂ ]
]

-- stlink_parse_hex(line + i). Behind the line stands its 0.
unfoldable pub hex_at : List ℕ → ℕ → ℕ
unfolding stlink_parse_hex
hex_at line i = stlink_parse_hex (get_or line i 0) (get_or line (i + 1) 0)

abbrev pub is_eol : ℕ → Bool
is_eol c = (c == 10) || (c == 13)

-- sizeof(line)
abbrev pub line_size : ℕ
line_size = 523

-- What fgets gives one after the other. `room`: the characters that it still takes.
abbrev pub cons_first : ℕ → List (List ℕ) → List (List ℕ)
cons_first c [] = (c ∷ []) ∷ []
cons_first c (line ∷ rest) = (c ∷ line) ∷ rest

unfoldable pub lines : ℕ → List ℕ → List (List ℕ)
lines room [] = []
lines room (c ∷ chars) = elim ((c == 10) || (room == 1)) [
  | true ↦ (c ∷ []) ∷ lines (line_size - 1) chars
  | false ↦ cons_first c (lines (room - 1) chars)
]

unfoldable pub strlen : List ℕ → ℕ
strlen [] = 0
strlen (c ∷ cs) = let rest = strlen cs in if c == 0 then 0 else suc rest

-- while(l > 0 && is_eol(line[l - 1])) --l;
unfoldable pub trim : List ℕ → ℕ → ℕ
trim line zero = 0
trim line (suc l) = let rest = trim line l in if is_eol (get_or line l 0) then rest else suc l

-- for(i; i < l; i += 2), with the rounds that are left.
unfoldable pub checksum : List ℕ → ℕ → ℕ → ℕ → ℕ
unfolding hex_at
checksum line zero i sum = sum
checksum line (suc left) i sum = checksum line left (i + 2) ((sum + hex_at line i) % 2 ^ 8)

-- The variables of the two passes. `last` is `end`.
pub record Image : Type 0 where
  pub begin : ℕ
  pub last : ℕ
  pub eof_found : Bool
  pub lba : ℕ
  pub bytes : List ℕ

-- The loop over the bytes i, i + 1, … of a data record in the second pass. A byte behind the memory,
-- which there is where the size has wrapped around, changes nothing.
unfoldable pub store : List ℕ → ℕ → ℕ → ℕ → Image → Image
unfolding hex_at
store line zero i offset img = img
store line (suc left) i offset img =
    let addr = add32 (add32 img.lba offset) i in
    store line left (suc i) offset (
      if leb img.begin addr && leb addr img.last
      then record img { bytes = set img.bytes (addr - img.begin) (hex_at line (9 + i * 2)) }
      else img)

-- A data record in the first pass.
unfoldable pub widen : ℕ → ℕ → Image → Image
widen offset reclen img =
    let b = add32 img.lba offset in
    let e = sub32 (add32 b reclen) 1 in
    record img {
      begin = if ltb b img.begin then b else img.begin;
      last = if ltb img.last e then e else img.last;
    }

-- One record, by its type; `none` for res = -1.
unfoldable pub take_record : Bool → List ℕ → ℕ → ℕ → ℕ → Image → Option Image
unfolding store widen hex_at
take_record scan line reclen offset zero img =
    some (if scan then store line reclen 0 offset img else widen offset reclen img)
take_record scan line reclen offset (suc zero) img = some (record img { eof_found = true })
take_record scan line reclen offset (suc (suc zero)) img = none
take_record scan line reclen offset (suc (suc (suc zero))) img = none
take_record scan line reclen offset (suc (suc (suc (suc zero)))) img =
    if reclen == 2
    then some (record img { lba = bit_or (shl32 (hex_at line 9) 24) (shl32 (hex_at line 11) 16) })
    else none
take_record scan line reclen offset (suc (suc (suc (suc (suc zero))))) img = some img
take_record scan line reclen offset (suc (suc (suc (suc (suc (suc rectype)))))) img = none

-- The body of the loop on one line.
unfoldable pub parse_line : Bool → List ℕ → Image → Option Image
unfolding strlen trim checksum hex_at take_record
parse_line scan line img =
    let l = trim line (strlen line) in
    let reclen = hex_at line 1 in
    if is_eol (get_or line 0 0)
    then some img
    else if not (get_or line 0 0 == b':')
    then none
    else if ltb l 11 || (l == line_size - 1)
    then none
    else if not (checksum line (l / 2) 1 0 == 0)
    then none
    else if not ((reclen + 5) * 2 + 1 == l)
    then none
    else take_record scan line reclen (bit_or (hex_at line 3 * 2 ^ 8 % 2 ^ 16) (hex_at line 5))
        (hex_at line 7) img

-- A pass starts with lba = 0.
unfoldable pub parse_lines : Bool → List (List ℕ) → Image → Option Image
unfolding parse_line
parse_lines scan [] img = some img
parse_lines scan (line ∷ rest) img = elim (parse_line scan line img) [
  | none ↦ none
  | some img' ↦ parse_lines scan rest img'
]

abbrev pub no_image : Image
no_image = record { begin = uint32_max; last = 0; eof_found = false; lba = 0; bytes = [] }

-- The second pass, after the checks on what the first has found: the begin and the size of the
-- memory, and its bytes.
unfoldable pub fill_image : List (List ℕ) → ℕ → Option Image → Option (ℕ × ℕ × List ℕ)
unfolding parse_lines
fill_image file erased_pattern none = none
fill_image file erased_pattern (some img) =
    let size = add32 (sub32 img.last img.begin) 1 in
    if not img.eof_found || leb img.last img.begin
    then none
    else elim (parse_lines true file
        (record img { lba = 0; bytes = replicate size erased_pattern })) [
          | none ↦ none
          | some full ↦ some (full.begin, size, full.bytes)
        ]

-- `none` for -1. The file opens, and the allocation succeeds.
unfoldable pub stlink_parse_ihex : List ℕ → ℕ → Option (ℕ × ℕ × List ℕ)
unfolding lines fill_image
stlink_parse_ihex file erased_pattern =
    let read = lines (line_size - 1) file in
    fill_image read erased_pattern (parse_lines false read no_image)
