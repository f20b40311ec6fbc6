-- ===== src/Ihex/Effects.antt =====
-- common_legacy.c: what the two passes of the parser make of the lines of one buffer of the writer.
use libstlink.Prelude.{
  ℕ, suc, ◌+◌, ◌-◌, ◌*◌, ◌/◌, ◌%◌, ◌^◌, ◌≤◌, ◌<◌, ◌≡◌, ◌∙◌, refl, ap, min, max, Bool, true, false,
  Bool-cases, inl, inr, ==_iff, some, List, [], ◌∷◌, ◌++◌, map, length, get_or, get_or-append,
  length-append, set, All, ltb, leb, ◌&&◌, ◌==◌, if◌then◌else◌, arith,
}
use libstlink.Word.{add32, sub32}
use libstlink.Ihex.Writer.{WorkerArg}
use libstlink.Ihex.Parser.{Image, hex_at, parse_line, parse_lines, take_record, store, widen}
use libstlink.Ihex.Records.{hex_at-record_line}
use libstlink.Ihex.Texts.{closing, closed_line, data_bytes, segment_bytes}
use libstlink.Ihex.Segments.{parse_line-data, parse_line-segment, All-append}

-- The bytes from the index i on.
abbrev pub write_at : List ℕ → ℕ → List ℕ → List ℕ
write_at mem i [] = mem
write_at mem i (b ∷ bs) = write_at (set mem i b) (suc i) bs

-- The range that covers n bytes from the address a on as well.
abbrev pub cover : ℕ → ℕ → Image → Image
cover a n img = record img { begin = min img.begin a; last = max img.last (a + n - 1) }

abbrev pub segment_of : ℕ → ℕ
segment_of addr = addr / 65536 * 65536

pub widen-cover :
    (addr count : ℕ) (img : Image)
    → 0 < count
    → addr + count ≤ 2 ^ 32
    → img.lba ≡ segment_of addr
    → widen (addr % 65536) count img ≡ cover addr count img
unfolding widen
widen-cover addr count img used room lba =
    let b : add32 img.lba (addr % 65536) ≡ addr = omega arith in
    let e : sub32 (add32 addr count) 1 ≡ addr + count - 1 = omega arith in
    let low : (if ltb addr img.begin then addr else img.begin) ≡ min img.begin addr =
      ground arith in
    let high : (if ltb img.last (addr + count - 1) then addr + count - 1 else img.last)
        ≡ max img.last (addr + count - 1) =
      ground arith in
    rw (b, e, low, high) refl

pub store_lem :
    (line bs : List ℕ) (i offset addr : ℕ) (img : Image)
    → ((k : ℕ) → k < length bs → hex_at line (9 + (i + k) * 2) ≡ get_or bs k 0)
    → add32 img.lba offset ≡ addr
    → addr + i + length bs ≤ 2 ^ 32
    → img.begin ≤ addr + i
    → addr + i + length bs ≤ suc img.last
    → store line (length bs) i offset img
      ≡ record img { bytes = write_at img.bytes (addr + i - img.begin) bs }
unfolding store
store_lem line [] i offset addr img f base room low high = refl
store_lem line (b ∷ bs) i offset addr img f base room low high =
    let at : add32 (add32 img.lba offset) i ≡ addr + i = ap (λ a. add32 a i) base ∙ omega arith in
    let inside : (leb img.begin (addr + i) && leb (addr + i) img.last) ≡ true = ground arith in
    let here : i * 2 ≡ (i + 0) * 2 = omega arith in
    let byte : hex_at line (9 + i * 2) ≡ b =
      ap (λ n. hex_at line (9 + n)) here ∙ f 0 (omega arith) in
    let next : addr + suc i - img.begin ≡ suc (addr + i - img.begin) = omega arith in
    let img' = record img { bytes = set img.bytes (addr + i - img.begin) b } in
    rw (store, at, inside, byte)
      (store_lem line bs (suc i) offset addr img'
          (λ k lt.
            let shift : (suc i + k) * 2 ≡ (i + suc k) * 2 = omega arith in
            ap (λ n. hex_at line (9 + n)) shift ∙ f (suc k) (omega arith))
          base (omega arith) (omega arith) (omega arith)
        ∙ ap (λ n. record img { bytes = write_at (set img.bytes (addr + i - img.begin) b) n bs })
            next)

-- The second pass keeps to the range that the first one has found.
abbrev pub Fits : Bool → ℕ → ℕ → Image → Type 0
Fits true addr n img = (img.begin ≤ addr) × (addr + n ≤ suc img.last)
Fits false addr n img = Unit

abbrev pub effect : Bool → ℕ → List ℕ → Image → Image
effect true addr buf img = record img { bytes = write_at img.bytes (addr - img.begin) buf }
effect false addr buf img = cover addr (length buf) img

data_effect :
    (scan : Bool) (addr : ℕ) (buf : List ℕ) (img : Image)
    → All (λ b. b < 256) buf
    → 0 < length buf
    → length buf < 256
    → addr + length buf ≤ 2 ^ 32
    → img.lba ≡ segment_of addr
    → Fits scan addr (length buf) img
    → take_record scan (closed_line (data_bytes addr buf)) (length buf) (addr % 65536) 0 img
      ≡ some (effect scan addr buf img)
unfolding take_record
data_effect false addr buf img small used short room lba fits =
    ap some (widen-cover addr (length buf) img used room lba)
data_effect true addr buf img small used short room lba (low, high) =
    let bytes = data_bytes addr buf in
    let c = closing bytes in
    let at : addr + 0 - img.begin ≡ addr - img.begin = omega arith in
    ap some (
      store_lem (closed_line bytes) buf 0 (addr % 65536) addr img
        (λ k lt.
          let position : 9 + (0 + k) * 2 ≡ 2 * suc (suc (suc (suc k))) + 1 = omega arith in
          let inside : ltb k (length buf) ≡ true = ground arith in
          ap (hex_at (closed_line bytes)) position
          ∙ hex_at-record_line (bytes ++ (c ∷ [])) (suc (suc (suc (suc k))))
              (
                short,
                (omega arith, (omega arith, (omega arith, All-append buf c small (omega arith)))),
              )
              (omega (arith, length-append buf (c ∷ [])))
          ∙ get_or-append buf (c ∷ []) k 0
          ∙ rw inside refl)
        (omega arith) (omega arith) (omega arith) (omega arith)
      ∙ ap (λ n. record img { bytes = write_at img.bytes n buf }) at)

pub Fits-lba :
    (scan : Bool) (addr n : ℕ) (img : Image) (l : ℕ)
    → Fits scan addr n img
    → Fits scan addr n (record img { lba = l })
Fits-lba true addr n img l fits = fits
Fits-lba false addr n img l fits = tt

-- The lines that `stlink_fread_ihex_writeline` adds, by their bytes.
abbrev pub recs_of : WorkerArg → List (List ℕ) → List (List ℕ)
recs_of arg more =
    let rest = data_bytes arg.addr arg.buf ∷ more in
    if arg.lba == segment_of arg.addr then rest else segment_bytes arg.addr ∷ rest

pub lines_effect :
    (scan : Bool) (arg : WorkerArg) (more : List (List ℕ)) (img : Image)
    → All (λ b. b < 256) arg.buf
    → 0 < length arg.buf
    → length arg.buf < 256
    → arg.addr + length arg.buf ≤ 2 ^ 32
    → img.lba ≡ arg.lba
    → Fits scan arg.addr (length arg.buf) img
    → parse_lines scan (map closed_line (recs_of arg more)) img
      ≡ parse_lines scan
          (map closed_line more)
          (effect scan arg.addr arg.buf (record img { lba = segment_of arg.addr }))
unfolding parse_lines
lines_effect scan arg more img small used short room lba fits =
    let line = closed_line (data_bytes arg.addr arg.buf) in
    let img₁ = record img { lba = segment_of arg.addr } in
    let run : parse_line scan line img₁ ≡ some (effect scan arg.addr arg.buf img₁) =
      parse_line-data scan arg.addr arg.buf img₁ small short
      ∙ data_effect scan arg.addr arg.buf img₁ small used short room refl
          (Fits-lba scan arg.addr (length arg.buf) img (segment_of arg.addr) fits) in
    elim (Bool-cases (arg.lba == segment_of arg.addr)) [
      | inl same ↦
          (let known : img ≡ img₁ =
              ap (λ l. record img { lba = l })
                (lba ∙ (==_iff arg.lba (segment_of arg.addr)).0 same) in
            rw same (
              ap (parse_lines scan (line ∷ map closed_line more)) known
              ∙ rw (parse_lines, run) refl))
      | inr other ↦
          rw (other, parse_lines, parse_line-segment scan arg.addr img (omega arith), run) refl
    ]
