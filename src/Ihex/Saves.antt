-- ===== src/Ihex/Saves.antt =====
-- common_legacy.c: what a run of the writer leaves in its file, and what the parser makes of it.
use mathlib.Core.List.{append_assoc, append-nil}
use libstlink.Prelude.{
  ℕ, suc, ◌+◌, ◌≤◌, ◌<◌, ◌^◌, ◌≡◌, ◌∙◌, refl, sym, ap, Bool, true, false, Bool-cases, inl, inr,
  some, ℤ, pos, List, [], ◌∷◌, ◌++◌, length, length-append, All, ltb, ltb→lt, ltb→le, arith,
}
use libstlink.Word.{add32}
use libstlink.Ihex.Writer.{
  WorkerArg, Step, ◌&&then◌, stlink_fread_ihex_worker, stlink_fread_ihex_finalize,
}
use libstlink.Ihex.Parser.{Image, parse_lines}
use libstlink.Ihex.Texts.{line_text}
use libstlink.Ihex.Segments.{All-append}
use libstlink.Ihex.Files.{joined}
use libstlink.Ihex.Effects.{segment_of, Fits, effect, recs_of, lines_effect, Fits-lba}
use libstlink.Ihex.Runs.{
  Parses, IsShort, eof_text, joined-recs_of, recs_of-IsShort, effect-append, flushed, pushed,
  finalize-done, worker-full, worker-room,
}

effect-lba :
    (scan : Bool) (a l : ℕ) (xs : List ℕ) (img : Image)
    → effect scan a xs (record img { lba = l }) ≡ record (effect scan a xs img) { lba = l }
effect-lba true a l xs img = refl
effect-lba false a l xs img = refl

lba_of :
    (scan : Bool) (a l : ℕ) (xs : List ℕ) (img : Image)
    → (effect scan a xs (record img { lba = l })).lba ≡ l
lba_of true a l xs img = refl
lba_of false a l xs img = refl

-- The parts of a range that fits.
Fits-first : (scan : Bool) (a n m : ℕ) (img : Image) → Fits scan a (n + m) img → Fits scan a n img
Fits-first true a n m img (low, high) = (low, omega arith)
Fits-first false a n m img fits = tt

Fits-rest :
    (scan : Bool) (a l m : ℕ) (xs : List ℕ) (img : Image)
    → a + length xs < 2 ^ 32
    → Fits scan a (length xs + suc m) img
    → Fits scan (add32 a (length xs)) (1 + m) (effect scan a xs (record img { lba = l }))
Fits-rest true a l m xs img room (low, high) = (omega arith, omega arith)
Fits-rest false a l m xs img room fits = tt

abbrev relabel : ℕ → Image → Image
relabel l img = record img { lba = l }

effect_join :
    (scan : Bool) (a s l : ℕ) (xs ys : List ℕ) (img : Image)
    → 0 < length ys
    → a + length xs < 2 ^ 32
    → Fits scan a (length xs + length ys) img
    → record (effect scan (add32 a (length xs)) ys (effect scan a xs (record img { lba = s }))) {
      lba = l;
    }
      ≡ record (effect scan a (xs ++ ys) img) { lba = l }
effect_join scan a s l xs ys img used room fits =
    let at : add32 a (length xs) ≡ a + length xs = omega arith in
    ap (λ n. relabel l (effect scan n ys (effect scan a xs (record img { lba = s })))) at
    ∙ effect-append scan a l xs ys (record img { lba = s }) used
        (Fits-lba scan a (length xs + length ys) img s fits)
    ∙ ap (relabel l) (effect-lba scan a s (xs ++ ys) img)

module _ (fprintf : List ℕ → List ℕ → ℤ × List ℕ) (fclose : List ℕ → ℤ)
    (prints : (file text : List ℕ) → fprintf file text ≡ (pos (length text), file ++ text))
    (closes : (file : List ℕ) → fclose file ≡ pos 0) where
  abbrev pub save : List ℕ → Step
  save block =
      stlink_fread_ihex_worker fprintf fclose block &&then stlink_fread_ihex_finalize fprintf fclose

  same_end :
      (xs ys : List ℕ) (arg arg' : WorkerArg)
      → stlink_fread_ihex_worker fprintf fclose xs arg
        ≡ stlink_fread_ihex_worker fprintf fclose ys arg'
      → save xs arg ≡ save ys arg'
  same_end xs ys arg arg' e =
      ap
        (λ r. elim r.0 as (λ ok. Bool × WorkerArg) [
          | true ↦ stlink_fread_ihex_finalize fprintf fclose r.1
          | false ↦ (false, r.1)
        ])
        e

  -- A run from a buffer that may hold some bytes already.
  abbrev pub Saves : List ℕ → WorkerArg → Type 0
  Saves block arg =
      (recs : List (List ℕ)) × (arg' : WorkerArg) × (save block arg ≡ (true, arg'))
      × (arg'.file ≡ arg.file ++ (joined recs ++ eof_text))
      × All IsShort recs
      × ((scan : Bool) (img : Image)
          → img.lba ≡ arg.lba
          → Fits scan arg.addr (length arg.buf + length block) img
          → Parses recs scan arg.addr (arg.buf ++ block) img)

  pub save_from :
      (block : List ℕ) (arg : WorkerArg)
      → All (λ b. b < 256) arg.buf
      → All (λ b. b < 256) block
      → length arg.buf ≤ 16
      → 0 < length arg.buf + length block
      → arg.addr + (length arg.buf + length block) ≤ 2 ^ 32
      → Saves block arg
  unfolding stlink_fread_ihex_worker parse_lines
  save_from [] arg small smalls short used room = (
    recs_of arg [],
    record (flushed fprintf fclose prints closes arg) {
      file = arg.file ++ line_text arg ++ eof_text;
    },
    finalize-done fprintf fclose prints closes arg (omega arith) (omega arith) short,
    append_assoc arg.file (line_text arg) eof_text
        ∙ ap (λ text. arg.file ++ (text ++ eof_text))
            (sym (joined-recs_of arg [] ∙ append-nil (line_text arg))),
    recs_of-IsShort arg [] short tt,
    λ scan img lba fits.
        let all : length arg.buf + 0 ≡ length arg.buf = omega arith in
        (
          segment_of arg.addr,
          lines_effect scan arg [] img small (omega arith) (omega arith) (omega arith) lba
                (rw all at fits)
              ∙ ap some (effect-lba scan arg.addr (segment_of arg.addr) arg.buf img)
              ∙ ap
                  (λ bytes.
                    some (record (effect scan arg.addr bytes img) { lba = segment_of arg.addr }))
                  (sym (append-nil arg.buf)),
        ),
  )
  save_from (b ∷ block) arg small (byte, smalls) short used room =
      elim (Bool-cases (ltb (length arg.buf) 16)) [
        | inl free ↦
            (let (recs, arg', run, file, shorts, parses) =
                save_from block (pushed fprintf fclose prints closes b arg)
                  (All-append arg.buf b small byte) smalls
                  (omega (arith, length-append arg.buf (b ∷ []), ltb→lt (length arg.buf) 16 free))
                  (omega (arith, length-append arg.buf (b ∷ [])))
                  (omega (arith, length-append arg.buf (b ∷ []))) in
              (
                recs,
                arg',
                same_end (b ∷ block) block arg _ (
                      worker-room fprintf fclose prints closes b block arg
                        (ltb→lt (length arg.buf) 16 free))
                    ∙ run,
                file,
                shorts,
                λ scan img lba fits.
                    let size : length (arg.buf ++ (b ∷ [])) + length block
                        ≡ length arg.buf + suc (length block) =
                      omega (arith, length-append arg.buf (b ∷ [])) in
                    let (l, e) = parses scan img lba (rw size fits) in
                    (
                      l,
                      e
                          ∙ ap (λ bytes. some (record (effect scan arg.addr bytes img) { lba = l }))
                              (append_assoc arg.buf (b ∷ []) block),
                    ),
              ))
        | inr filled ↦
            (let full : length arg.buf ≡ 16 = omega (arith, ltb→le (length arg.buf) 16 filled) in
              let (recs, arg', run, file, shorts, parses) =
                save_from block
                  (pushed fprintf fclose prints closes b (flushed fprintf fclose prints closes arg))
                  (byte, tt) smalls (omega arith) (omega arith) (omega arith) in
              (
                recs_of arg recs,
                arg',
                same_end (b ∷ block) block arg _
                      (worker-full fprintf fclose prints closes b block arg (omega arith) full)
                    ∙ run,
                file
                    ∙ append_assoc arg.file (line_text arg) (joined recs ++ eof_text)
                    ∙ ap (arg.file ++◌) (
                        sym (append_assoc (line_text arg) (joined recs) eof_text)
                        ∙ ap (λ text. text ++ eof_text) (sym (joined-recs_of arg recs))),
                recs_of-IsShort arg recs short shorts,
                λ scan img lba fits.
                    let img₁ =
                      effect scan arg.addr arg.buf (record img { lba = segment_of arg.addr }) in
                    let (l, e) =
                      parses scan img₁ (lba_of scan arg.addr (segment_of arg.addr) arg.buf img) (
                        Fits-rest scan arg.addr (segment_of arg.addr) (length block) arg.buf img
                          (omega arith) fits) in
                    (
                      l,
                      lines_effect scan arg recs img small (omega arith) (omega arith) (omega arith)
                            lba
                            (Fits-first scan arg.addr (length arg.buf) (suc (length block)) img
                              fits)
                          ∙ e
                          ∙ ap some (
                              effect_join scan arg.addr (segment_of arg.addr) l arg.buf (b ∷ block)
                                img (omega arith) (omega arith) fits),
                    ),
              ))
      ]
