-- ===== src/Ihex/Runs.antt =====
-- common_legacy.c: a whole run of the writer, and what the passes of the parser make of its lines.
use mathlib.Core.List.{append_assoc}
use libstlink.Prelude.{
  ℕ, suc, ◌+◌, ◌-◌, ◌≤◌, ◌<◌, ◌^◌, ◌≡◌, ◌∙◌, refl, sym, ap, min, max, Bool, true, false, Bool-cases,
  inl, inr, some, ℤ, pos, List, [], ◌∷◌, ◌++◌, map, length, length-append, set, All, ◌==◌, arith,
}
use libstlink.Word.{add32}
use libstlink.Ihex.Writer.{
  WorkerArg, Step, ◌&&then◌, print, cr_lf, is_count, stlink_fread_ihex_worker,
  stlink_fread_ihex_finalize, stlink_fread_ihex_writeline,
}
use libstlink.Ihex.Parser.{Image, parse_lines}
use libstlink.Ihex.Texts.{closed_line, data_bytes, segment_bytes, line_text, then_true}
use libstlink.Ihex.Lines.{print_lem, writeline_lem}
use libstlink.Ihex.Files.{joined}
use libstlink.Ihex.Effects.{write_at, segment_of, Fits, effect, recs_of}

write_at-append :
    (mem : List ℕ) (i : ℕ) (xs ys : List ℕ)
    → write_at (write_at mem i xs) (i + length xs) ys ≡ write_at mem i (xs ++ ys)
write_at-append mem i [] ys = let here : i + 0 ≡ i = omega arith in rw here refl
write_at-append mem i (x ∷ xs) ys =
    let next : i + suc (length xs) ≡ suc i + length xs = omega arith in
    rw next (write_at-append (set mem i x) (suc i) xs ys)

pub effect-append :
    (scan : Bool) (a l : ℕ) (xs ys : List ℕ) (img : Image)
    → 0 < length ys
    → Fits scan a (length xs + length ys) img
    → record (effect scan (a + length xs) ys (effect scan a xs img)) { lba = l }
      ≡ record (effect scan a (xs ++ ys) img) { lba = l }
effect-append false a l xs ys img used fits =
    let low : min (min img.begin a) (a + length xs) ≡ min img.begin a = omega arith in
    let high : max (max img.last (a + length xs - 1)) (a + length xs + length ys - 1)
        ≡ max img.last (a + length (xs ++ ys) - 1) =
      omega (arith, length-append xs ys) in
    rw (low, high) refl
effect-append true a l xs ys img used (low, high) =
    let at : a + length xs - img.begin ≡ a - img.begin + length xs = omega arith in
    ap (λ bytes. record img { bytes = bytes; lba = l })
      (ap (λ n. write_at (write_at img.bytes (a - img.begin) xs) n ys) at
        ∙ write_at-append img.bytes (a - img.begin) xs ys)

pub joined-recs_of :
    (arg : WorkerArg) (more : List (List ℕ))
    → joined (recs_of arg more) ≡ line_text arg ++ joined more
joined-recs_of arg more = elim (Bool-cases (arg.lba == segment_of arg.addr)) [
  | inl same ↦ rw same refl
  | inr other ↦ rw other (
      sym (
        append_assoc (closed_line (segment_bytes arg.addr))
          (closed_line (data_bytes arg.addr arg.buf)) (joined more)))
]

abbrev pub IsShort : List ℕ → Type 0
IsShort bytes = length bytes < 256

pub recs_of-IsShort :
    (arg : WorkerArg) (more : List (List ℕ))
    → length arg.buf ≤ 16
    → All IsShort more
    → All IsShort (recs_of arg more)
recs_of-IsShort arg more h shorts = elim (Bool-cases (arg.lba == segment_of arg.addr)) [
  | inl same ↦ rw same (omega arith, shorts)
  | inr other ↦ rw other (omega arith, (omega arith, shorts))
]

abbrev pub eof_text : List ℕ
eof_text = b':' ∷ b'0' ∷ b'0' ∷ b'0' ∷ b'0' ∷ b'0' ∷ b'0' ∷ b'0' ∷ b'1' ∷ b'F' ∷ b'F' ∷ cr_lf

-- What the parser makes of the lines of a run.
abbrev pub Parses : List (List ℕ) → Bool → ℕ → List ℕ → Image → Type 0
Parses recs scan addr bytes img =
    (l : ℕ) × (parse_lines scan (map closed_line recs) img
      ≡ some (record (effect scan addr bytes img) { lba = l }))

module _ (fprintf : List ℕ → List ℕ → ℤ × List ℕ) (fclose : List ℕ → ℤ)
    (prints : (file text : List ℕ) → fprintf file text ≡ (pos (length text), file ++ text))
    (closes : (file : List ℕ) → fclose file ≡ pos 0) where
  abbrev worker : List ℕ → Step
  worker = stlink_fread_ihex_worker fprintf fclose

  abbrev finalize : Step
  finalize = stlink_fread_ihex_finalize fprintf fclose

  abbrev writeline : Step
  writeline = stlink_fread_ihex_writeline fprintf fclose

  abbrev pub flushed : WorkerArg → WorkerArg
  flushed arg = record arg {
    file = arg.file ++ line_text arg;
    addr = add32 arg.addr (length arg.buf);
    lba = segment_of arg.addr;
    buf = [];
  }

  abbrev pub pushed : ℕ → WorkerArg → WorkerArg
  pushed b arg = record arg { buf = arg.buf ++ (b ∷ []) }

  abbrev close : Step
  close a = (is_count (fclose a.file) 0, a)

  pub finalize-done :
      (arg : WorkerArg)
      → arg.addr < 2 ^ 32
      → 0 < length arg.buf
      → length arg.buf ≤ 16
      → finalize arg ≡ (true, record (flushed arg) { file = arg.file ++ line_text arg ++ eof_text })
  unfolding stlink_fread_ihex_finalize
  finalize-done arg h used short =
      let arg₂ = record (flushed arg) { file = arg.file ++ line_text arg ++ eof_text } in
      then_true (writeline &&then print fprintf fclose 13 eof_text) close arg arg₂ (
        then_true writeline (print fprintf fclose 13 eof_text) arg (flushed arg)
          (writeline_lem fprintf fclose prints arg h used (omega arith))
        ∙ print_lem fprintf fclose prints 13 eof_text (flushed arg) refl)
      ∙ rw (closes (arg.file ++ line_text arg ++ eof_text)) refl

  -- A byte for a buffer that is full, and one for a buffer that is not.
  pub worker-full :
      (b : ℕ) (block : List ℕ) (arg : WorkerArg)
      → arg.addr < 2 ^ 32
      → length arg.buf ≡ 16
      → worker (b ∷ block) arg ≡ worker block (pushed b (flushed arg))
  unfolding stlink_fread_ihex_worker
  worker-full b block arg h full =
      let is_full : (length arg.buf == 16) ≡ true = ground arith in
      let push : Step = λ a. (true, pushed b a) in
      rw is_full (
        then_true (writeline &&then push) (worker block) arg (pushed b (flushed arg)) (
          then_true writeline push arg (flushed arg)
            (writeline_lem fprintf fclose prints arg h (omega arith) (omega arith))))

  pub worker-room :
      (b : ℕ) (block : List ℕ) (arg : WorkerArg)
      → length arg.buf < 16
      → worker (b ∷ block) arg ≡ worker block (pushed b arg)
  unfolding stlink_fread_ihex_worker
  worker-room b block arg room =
      let not_full : (length arg.buf == 16) ≡ false = ground arith in rw not_full refl
