-- ===== src/Ihex/Segments.antt =====
-- common_legacy.c: what the parser makes of the two kinds of lines that the writer prints.
use libstlink.Prelude.{
  ℕ, ◌+◌, ◌*◌, ◌/◌, ◌%◌, ◌^◌, ◌<◌, ◌≡◌, ◌∙◌, refl, ap, Bool, some, List, [], ◌∷◌, ◌++◌, length,
  length-append, All, bit_or, arith,
}
use libstlink.Word.{shl32}
use libstlink.Word.Bits.{bit_or-eq-add, bit_or_comm}
use libstlink.Ihex.Parser.{Image, hex_at, parse_line, take_record}
use libstlink.Ihex.Records.{total, hex_at-record_line, parse_line-record_line}
use libstlink.Ihex.Texts.{closing, closed_line, data_bytes, segment_bytes}

total-append : (xs ys : List ℕ) → total (xs ++ ys) ≡ total xs + total ys
total-append [] ys = omega arith
total-append (x ∷ xs) ys = omega (arith, total-append xs ys)

closed_sum : (bytes : List ℕ) → total (bytes ++ (closing bytes ∷ [])) % 256 ≡ 0
closed_sum bytes = omega (arith, total-append bytes (closing bytes ∷ []))

-- A list of bytes with a byte behind it.
pub All-append :
    (xs : List ℕ) (y : ℕ) → All (λ b. b < 256) xs → y < 256 → All (λ b. b < 256) (xs ++ (y ∷ []))
All-append [] y all h = (h, tt)
All-append (x ∷ xs) y (small, all) h = (small, All-append xs y all h)

-- A line of data.
pub parse_line-data :
    (scan : Bool) (addr : ℕ) (buf : List ℕ) (img : Image)
    → All (λ b. b < 256) buf
    → length buf < 256
    → parse_line scan (closed_line (data_bytes addr buf)) img
      ≡ take_record scan (closed_line (data_bytes addr buf)) (length buf) (addr % 65536) 0 img
parse_line-data scan addr buf img small short =
    let bytes = data_bytes addr buf in
    let c = closing bytes in
    let offset : addr / 256 % 256 * 256 + addr % 256 ≡ addr % 65536 = omega arith in
    parse_line-record_line scan (length buf) (addr / 256 % 256) (addr % 256) 0 (buf ++ (c ∷ [])) img
      (short, (omega arith, (omega arith, (omega arith, All-append buf c small (omega arith)))))
      (length-append buf (c ∷ []) ∙ omega arith) (closed_sum bytes)
    ∙ ap (λ n. take_record scan (closed_line bytes) (length buf) n 0 img) offset

segment_word :
    (a b : ℕ) → a < 256 → b < 256 → bit_or (shl32 a 24) (shl32 b 16) ≡ a * 2 ^ 24 + b * 2 ^ 16
segment_word a b h k =
    let high : shl32 a 24 ≡ a * 2 ^ 24 = omega arith in
    let low : shl32 b 16 ≡ b * 2 ^ 16 = omega arith in
    rw (high, low)
      (bit_or_comm (a * 2 ^ 24) (b * 2 ^ 16)
        ∙ bit_or-eq-add 24 (b * 2 ^ 16) a (omega arith)
        ∙ omega arith)

-- The line of a segment.
pub parse_line-segment :
    (scan : Bool) (addr : ℕ) (img : Image)
    → addr < 2 ^ 32
    → parse_line scan (closed_line (segment_bytes addr)) img
      ≡ some (record img { lba = addr / 65536 * 65536 })
unfolding take_record
parse_line-segment scan addr img h =
    let bytes = segment_bytes addr in
    let c = closing bytes in
    let all = bytes ++ (c ∷ []) in
    let small : All (λ b. b < 256) all = (
      omega arith,
      (omega arith, (omega arith, (omega arith, (omega arith, (omega arith, (omega arith, tt)))))),
    ) in
    let high : hex_at (closed_line bytes) 9 ≡ addr / 2 ^ 24 =
      hex_at-record_line all 4 small (omega arith) in
    let low : hex_at (closed_line bytes) 11 ≡ addr / 2 ^ 16 % 256 =
      hex_at-record_line all 5 small (omega arith) in
    parse_line-record_line scan 2 0 0 4 (addr / 2 ^ 24 ∷ addr / 2 ^ 16 % 256 ∷ c ∷ []) img small
      refl (closed_sum bytes)
    ∙ ap (λ lba. some (record img { lba = lba }))
        (ap (λ a. bit_or (shl32 a 24) (shl32 (hex_at (closed_line bytes) 11) 16)) high
          ∙ ap (λ b. bit_or (shl32 (addr / 2 ^ 24) 24) (shl32 b 16)) low
          ∙ segment_word (addr / 2 ^ 24) (addr / 2 ^ 16 % 256) (omega arith) (omega arith)
          ∙ omega arith)
