-- ===== src/Ihex/Records.antt =====
-- common_legacy.c: a line of the Intel HEX format, as the writer prints it and the parser reads it.
use libstlink.Prelude.{
  ℕ, zero, suc, ◌+◌, ◌*◌, ◌/◌, ◌%◌, ◌^◌, ◌<◌, ◌≡◌, ◌∙◌, refl, ap, Bool, true, false, ◌==◌, ◌||◌,
  List, [], ◌∷◌, ◌++◌, length, get_or, All, ltb, bit_or, arith,
}
use libstlink.Word.Bits.{bit_or-eq-add, bit_or_comm}
use libstlink.Ihex.Writer.{upper_digit, cr_lf}
use libstlink.Ihex.Parser.{hex_at, is_eol, strlen, trim, checksum, parse_line, take_record, Image}
use libstlink.Ihex.Digits.{stlink_parse_hex-hex2, digit-eol, digit-zero}

-- The characters of some bytes, and the line that they make.
abbrev pub hexes : List ℕ → List ℕ
hexes [] = []
hexes (b ∷ bs) = upper_digit (b / 16 % 16) ∷ upper_digit (b % 16) ∷ hexes bs

abbrev pub record_line : List ℕ → List ℕ
record_line bytes = b':' ∷ (hexes bytes ++ cr_lf)

abbrev pub total : List ℕ → ℕ
total [] = 0
total (b ∷ bs) = b + total bs

high_digit :
    (bs tail : List ℕ) (k : ℕ)
    → k < length bs
    → get_or (hexes bs ++ tail) (2 * k) 0 ≡ upper_digit (get_or bs k 0 / 16 % 16)
high_digit [] tail k h = absurd (omega arith)
high_digit (b ∷ bs) tail zero h = refl
high_digit (b ∷ bs) tail (suc k) h =
    let next : 2 * suc k ≡ suc (suc (2 * k)) = omega arith in
    rw next (high_digit bs tail k (omega arith))

low_digit :
    (bs tail : List ℕ) (k : ℕ)
    → k < length bs
    → get_or (hexes bs ++ tail) (2 * k + 1) 0 ≡ upper_digit (get_or bs k 0 % 16)
low_digit [] tail k h = absurd (omega arith)
low_digit (b ∷ bs) tail zero h = refl
low_digit (b ∷ bs) tail (suc k) h =
    let next : 2 * suc k + 1 ≡ suc (suc (2 * k + 1)) = omega arith in
    rw next (low_digit bs tail k (omega arith))

behind :
    (bs tail : List ℕ) (j : ℕ) → get_or (hexes bs ++ tail) (2 * length bs + j) 0 ≡ get_or tail j 0
behind [] tail j = let here : 2 * 0 + j ≡ j = omega arith in rw here refl
behind (b ∷ bs) tail j =
    let next : 2 * suc (length bs) + j ≡ suc (suc (2 * length bs + j)) = omega arith in
    rw next (behind bs tail j)

get_or-All : (bs : List ℕ) (k : ℕ) → All (λ b. b < 256) bs → get_or bs k 0 < 256
get_or-All [] k all = omega arith
get_or-All (b ∷ bs) zero (small, all) = small
get_or-All (b ∷ bs) (suc k) (small, all) = get_or-All bs k all

-- The byte k of a line.
pub hex_at-record_line :
    (bytes : List ℕ) (k : ℕ)
    → All (λ b. b < 256) bytes
    → k < length bytes
    → hex_at (record_line bytes) (2 * k + 1) ≡ get_or bytes k 0
unfolding hex_at
hex_at-record_line bytes k small h =
    let here : 2 * k + 1 ≡ suc (2 * k) = omega arith in
    let next : 2 * k + 1 + 1 ≡ suc (2 * k + 1) = omega arith in
    let first : get_or (record_line bytes) (2 * k + 1) 0
        ≡ upper_digit (get_or bytes k 0 / 16 % 16) =
      ap (λ i. get_or (record_line bytes) i 0) here ∙ high_digit bytes cr_lf k h in
    let second : get_or (record_line bytes) (2 * k + 1 + 1) 0
        ≡ upper_digit (get_or bytes k 0 % 16) =
      ap (λ i. get_or (record_line bytes) i 0) next ∙ low_digit bytes cr_lf k h in
    rw (first, second) (stlink_parse_hex-hex2 (get_or bytes k 0) (get_or-All bytes k small))

strlen-hexes : (bs : List ℕ) → strlen (hexes bs ++ cr_lf) ≡ 2 * length bs + 2
unfolding strlen
strlen-hexes [] = refl
strlen-hexes (b ∷ bs) =
    rw (digit-zero (b / 16 % 16) (omega arith), digit-zero (b % 16) (omega arith), strlen-hexes bs)
      (omega arith)

trim_three :
    (line : List ℕ) (m : ℕ)
    → is_eol (get_or line (suc (suc m)) 0) ≡ true
    → is_eol (get_or line (suc m) 0) ≡ true
    → is_eol (get_or line m 0) ≡ false
    → trim line (suc (suc (suc m))) ≡ suc m
unfolding trim
trim_three line m a b c = rw (a, b, c) refl

-- The length without the end of the line.
trim-record_line :
    (b : ℕ) (bs : List ℕ)
    → trim (record_line (b ∷ bs)) (strlen (record_line (b ∷ bs))) ≡ suc (2 * suc (length bs))
unfolding strlen
trim-record_line b bs =
    let bytes = b ∷ bs in
    let line = record_line bytes in
    let n = length bs in
    let size : strlen line ≡ suc (suc (suc (2 * suc n))) =
      ap suc (strlen-hexes bytes) ∙ omega arith in
    let at_lf : suc (2 * suc n) ≡ 2 * length bytes + 1 = omega arith in
    let at_cr : 2 * suc n ≡ 2 * length bytes + 0 = omega arith in
    let at_digit : 2 * suc n ≡ suc (2 * n + 1) = omega arith in
    let lf : get_or line (suc (suc (2 * suc n))) 0 ≡ 10 =
      ap (λ i. get_or (hexes bytes ++ cr_lf) i 0) at_lf ∙ behind bytes cr_lf 1 in
    let cr : get_or line (suc (2 * suc n)) 0 ≡ 13 =
      ap (λ i. get_or (hexes bytes ++ cr_lf) i 0) at_cr ∙ behind bytes cr_lf 0 in
    let digit : get_or line (2 * suc n) 0 ≡ upper_digit (get_or bytes n 0 % 16) =
      ap (λ i. get_or line i 0) at_digit ∙ low_digit bytes cr_lf n (omega arith) in
    ap (trim line) size
    ∙ trim_three line (2 * suc n) (rw lf refl) (rw cr refl)
        (rw digit (digit-eol (get_or bytes n 0 % 16) (omega arith)))

-- The sum over a line whose bytes from the position i on are these.
checksum_lem :
    (line bs : List ℕ) (i sum : ℕ)
    → ((k : ℕ) → k < length bs → hex_at line (2 * k + i) ≡ get_or bs k 0)
    → sum < 256
    → checksum line (length bs) i sum ≡ (sum + total bs) % 256
unfolding checksum
checksum_lem line [] i sum f h = omega arith
checksum_lem line (b ∷ bs) i sum f h =
    let here : i ≡ 2 * 0 + i = omega arith in
    let first : hex_at line i ≡ b = ap (hex_at line) here ∙ f 0 (omega arith) in
    rw (checksum, first)
      (checksum_lem line bs (i + 2) ((sum + b) % 256)
          (λ k lt.
            let next : 2 * k + (i + 2) ≡ 2 * suc k + i = omega arith in
            ap (hex_at line) next ∙ f (suc k) (omega arith))
          (omega arith)
        ∙ omega arith)

checksum-record_line :
    (bytes : List ℕ)
    → All (λ b. b < 256) bytes
    → checksum (record_line bytes) (length bytes) 1 0 ≡ total bytes % 256
checksum-record_line bytes small =
    checksum_lem (record_line bytes) bytes 1 0 (λ k. hex_at-record_line bytes k small) (omega arith)
    ∙ ap (λ n. n % 256) (omega arith)

length_test : (r : ℕ) → (ltb (2 * r + 11) 11 || (2 * r + 11 == 522)) ≡ false
length_test r =
    let long : ltb (2 * r + 11) 11 ≡ false = ground arith in
    let odd : (2 * r + 11 == 522) ≡ false = ground arith in rw (long, odd) refl

match_test : (r : ℕ) → ((r + 5) * 2 + 1 == 2 * r + 11) ≡ true
match_test r = ground arith

offset_lem : (hi lo : ℕ) → hi < 256 → lo < 256 → bit_or (hi * 2 ^ 8 % 2 ^ 16) lo ≡ hi * 256 + lo
offset_lem hi lo h l =
    let whole : hi * 2 ^ 8 % 2 ^ 16 ≡ hi * 2 ^ 8 = omega arith in
    rw whole (bit_or_comm (hi * 2 ^ 8) lo ∙ bit_or-eq-add 8 lo hi l ∙ omega arith)

-- A line with a length, an address, a type and as many bytes as the length says, and a last byte that
-- makes the sum 0, is taken for the record that it is.
pub parse_line-record_line :
    (scan : Bool) (reclen hi lo type : ℕ) (rest : List ℕ) (img : Image)
    → All (λ b. b < 256) (reclen ∷ hi ∷ lo ∷ type ∷ rest)
    → length rest ≡ suc reclen
    → total (reclen ∷ hi ∷ lo ∷ type ∷ rest) % 256 ≡ 0
    → parse_line scan (record_line (reclen ∷ hi ∷ lo ∷ type ∷ rest)) img
      ≡ take_record scan
          (record_line (reclen ∷ hi ∷ lo ∷ type ∷ rest))
          reclen
          (hi * 256 + lo)
          type
          img
unfolding parse_line
parse_line-record_line scan reclen hi lo type rest img small size sum =
    let bytes = reclen ∷ hi ∷ lo ∷ type ∷ rest in
    let line = record_line bytes in
    let l : trim line (strlen line) ≡ 2 * reclen + 11 =
      trim-record_line reclen (hi ∷ lo ∷ type ∷ rest) ∙ omega arith in
    let at_len : hex_at line 1 ≡ reclen = hex_at-record_line bytes 0 small (omega arith) in
    let at_hi : hex_at line 3 ≡ hi = hex_at-record_line bytes 1 small (omega arith) in
    let at_lo : hex_at line 5 ≡ lo = hex_at-record_line bytes 2 small (omega arith) in
    let at_type : hex_at line 7 ≡ type = hex_at-record_line bytes 3 small (omega arith) in
    let rounds : (2 * reclen + 11) / 2 ≡ length bytes = omega arith in
    let zero_sum : checksum line (length bytes) 1 0 ≡ 0 = checksum-record_line bytes small ∙ sum in
    rw
      (
        l,
        at_len,
        at_hi,
        at_lo,
        at_type,
        length_test reclen,
        rounds,
        zero_sum,
        match_test reclen,
        offset_lem hi lo small.1.0 small.1.1.0,
      )
      refl
