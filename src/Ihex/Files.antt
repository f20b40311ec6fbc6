-- ===== src/Ihex/Files.antt =====
-- common_legacy.c: the lines that fgets finds in a file of the writer.
use mathlib.Core.List.{append_assoc}
use libstlink.Prelude.{
  ℕ, ◌-◌, ◌*◌, ◌/◌, ◌%◌, ◌<◌, ◌≡◌, ◌∙◌, refl, sym, ap, false, ◌==◌, List, [], ◌∷◌, ◌++◌, map,
  length, length-append, All, arith,
}
use libstlink.Ihex.Writer.{cr_lf, upper_digit}
use libstlink.Ihex.Parser.{lines, cons_first}
use libstlink.Ihex.Digits.{digit-eol}
use libstlink.Ihex.Records.{hexes}
use libstlink.Ihex.Texts.{closing, closed_line}

-- A line that fits, and is ended by its only line feed.
lines_line :
    (cs rest : List ℕ) (room : ℕ)
    → All (λ c. (c == 10) ≡ false) cs
    → length cs < room
    → lines room (cs ++ (10 ∷ rest)) ≡ (cs ++ (10 ∷ [])) ∷ lines 522 rest
unfolding lines
lines_line [] rest room all h = refl
lines_line (c ∷ cs) rest room (other, all) h =
    let more : (room == 1) ≡ false = ground arith in
    rw (lines, other, more) (ap (cons_first c) (lines_line cs rest (room - 1) all (omega arith)))

digit-line_feed : (d : ℕ) → d < 16 → (upper_digit d == 10) ≡ false
digit-line_feed d h = let eol = digit-eol d h in ground arith

hexes-line_feed : (bs : List ℕ) → All (λ c. (c == 10) ≡ false) (hexes bs ++ (13 ∷ []))
hexes-line_feed [] = (refl, tt)
hexes-line_feed (b ∷ bs) = (
  digit-line_feed (b / 16 % 16) (omega arith),
  (digit-line_feed (b % 16) (omega arith), hexes-line_feed bs),
)

length-hexes : (bs : List ℕ) → length (hexes bs) ≡ 2 * length bs
length-hexes [] = refl
length-hexes (b ∷ bs) = omega (arith, length-hexes bs)

pub lines-closed_line :
    (bytes rest : List ℕ)
    → length bytes < 256
    → lines 522 (closed_line bytes ++ rest) ≡ closed_line bytes ∷ lines 522 rest
lines-closed_line bytes rest h =
    let all = bytes ++ (closing bytes ∷ []) in
    let front = b':' ∷ (hexes all ++ (13 ∷ [])) in
    let size : length front < 522 = omega (
      arith,
      length-append (hexes all) (13 ∷ []),
      length-hexes all,
      length-append bytes (closing bytes ∷ []),
    ) in
    let split : (tail : List ℕ) → b':' ∷ ((hexes all ++ cr_lf) ++ tail) ≡ front ++ (10 ∷ tail) =
      λ tail. ap (b':' ∷◌) (
        append_assoc (hexes all) cr_lf tail
        ∙ sym (append_assoc (hexes all) (13 ∷ []) (10 ∷ tail))) in
    ap (lines 522) (split rest)
    ∙ lines_line front rest 522 (refl, hexes-line_feed all) size
    ∙ ap (λ line. line ∷ lines 522 rest)
        (ap (b':' ∷◌) (append_assoc (hexes all) (13 ∷ []) (10 ∷ [])))

-- The text of some lines, given by their bytes.
abbrev pub joined : List (List ℕ) → List ℕ
joined [] = []
joined (bytes ∷ rest) = closed_line bytes ++ joined rest

pub lines-joined :
    (recs : List (List ℕ)) (tail : List ℕ)
    → All (λ bytes. length bytes < 256) recs
    → lines 522 (joined recs ++ tail) ≡ map closed_line recs ++ lines 522 tail
lines-joined [] tail short = refl
lines-joined (bytes ∷ recs) tail (short, shorts) =
    ap (lines 522) (append_assoc (closed_line bytes) (joined recs) tail)
    ∙ lines-closed_line bytes (joined recs ++ tail) short
    ∙ ap (closed_line bytes ∷◌) (lines-joined recs tail shorts)
