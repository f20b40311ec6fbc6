-- ===== src/Ihex/Lines.antt =====
-- common_legacy.c: what the writer of Intel HEX files prints, line by line.
use mathlib.Core.List.{append_assoc, append-nil}
use libstlink.Prelude.{
  ℕ, ◌+◌, ◌*◌, ◌/◌, ◌%◌, ◌^◌, ◌<◌, ◌≡◌, ◌∙◌, refl, sym, ap, true, false, not, ◌==◌, ℤ, pos, List,
  [], ◌∷◌, ◌++◌, length, if◌then◌else◌, Bool-cases, inl, inr, ==_iff, bit_and, arith,
}
use libstlink.Word.{add32}
use libstlink.Word.Masks.{bit_and-high_half}
use libstlink.Ihex.Writer.{
  WorkerArg, Step, done, ◌&&then◌, print, hex2, cr_lf, complement, write_bytes,
  stlink_fread_ihex_newsegment, stlink_fread_ihex_writeline,
}
use libstlink.Ihex.Records.{hexes, total}
use libstlink.Ihex.Texts.{
  segment_bytes, data_bytes, closed_line, then_true, segment_text, segment_text_lem, set_lba,
  head_text, head_sum, data_text_lem, segment, line_text,
}

module _ (fprintf : List ℕ → List ℕ → ℤ × List ℕ) (fclose : List ℕ → ℤ)
    (prints : (file text : List ℕ) → fprintf file text ≡ (pos (length text), file ++ text)) where
  abbrev pub put : WorkerArg → List ℕ → WorkerArg
  put arg text = record arg { file = arg.file ++ text }

  pub print_lem :
      (count : ℕ) (text : List ℕ) (arg : WorkerArg)
      → length text ≡ count
      → print fprintf fclose count text arg ≡ (true, put arg text)
  print_lem count text arg e =
      let same : (length text == count) ≡ true = ground arith in
      rw (prints arg.file text, same) refl

  write_bytes_lem :
      (bs : List ℕ) (sum : ℕ) (arg : WorkerArg)
      → sum < 256
      → write_bytes fprintf fclose bs sum arg
        ≡ (true, put arg (hexes bs ++ (hex2 (complement ((sum + total bs) % 256)) ++ cr_lf)))
  unfolding write_bytes
  write_bytes_lem [] sum arg h =
      let same : (sum + total []) % 256 ≡ sum = omega arith in
      rw same (print_lem 4 (hex2 (complement sum) ++ cr_lf) arg refl)
  write_bytes_lem (b ∷ bs) sum arg h =
      let later = write_bytes_lem bs ((sum + b) % 256) (put arg (hex2 b)) (omega arith) in
      let same : ((sum + b) % 256 + total bs) % 256 ≡ (sum + total (b ∷ bs)) % 256 = omega arith in
      then_true (print fprintf fclose 2 (hex2 b))
        (write_bytes fprintf fclose bs ((sum + b) % 2 ^ 8)) arg (put arg (hex2 b))
        (print_lem 2 (hex2 b) arg refl)
      ∙ rw same at later
      ∙ ap (λ file. (true, record arg { file = file })) (append_assoc arg.file (hex2 b) _)

  newsegment_lem :
      (arg : WorkerArg)
      → arg.addr < 2 ^ 32
      → stlink_fread_ihex_newsegment fprintf fclose arg ≡ (
        true,
        record arg {
          file = arg.file ++ closed_line (segment_bytes arg.addr);
          lba = arg.addr / 65536 * 65536;
        },
      )
  unfolding stlink_fread_ihex_newsegment
  newsegment_lem arg h =
      then_true (print fprintf fclose 17 (segment_text arg.addr)) set_lba arg
        (put arg (segment_text arg.addr)) (print_lem 17 (segment_text arg.addr) arg refl)
      ∙ ap (λ lba. (true, record (put arg (segment_text arg.addr)) { lba = lba }))
          (bit_and-high_half arg.addr h)
      ∙ ap (λ text. (true, record (put arg text) { lba = arg.addr / 65536 * 65536 }))
          (segment_text_lem arg.addr h)

  abbrev segment_step : WorkerArg → Step
  segment_step arg =
      if not (arg.lba == bit_and arg.addr 0xffff0000)
      then stlink_fread_ihex_newsegment fprintf fclose
      else done

  abbrev segment_done : WorkerArg → WorkerArg
  segment_done arg = record arg { file = arg.file ++ segment arg; lba = arg.addr / 65536 * 65536 }

  segment_step-done :
      (arg : WorkerArg) → arg.addr < 2 ^ 32 → segment_step arg arg ≡ (true, segment_done arg)
  segment_step-done arg h =
      let mask = bit_and-high_half arg.addr h in
      elim (Bool-cases (arg.lba == arg.addr / 65536 * 65536)) [
        | inl same ↦
            rw (mask, same)
              (ap (λ file. (true, record arg { file = file })) (sym (append-nil arg.file))
                ∙ ap (λ lba. (true, record arg { file = arg.file ++ []; lba = lba }))
                    ((==_iff _ _).0 same))
        | inr other ↦ rw (mask, other) (newsegment_lem arg h)
      ]

  abbrev line_done : ℕ → Step
  line_done count a = (true, record a { addr = add32 a.addr count; buf = [] })

  pub writeline_lem :
      (arg : WorkerArg)
      → arg.addr < 2 ^ 32
      → 0 < length arg.buf
      → length arg.buf < 256
      → stlink_fread_ihex_writeline fprintf fclose arg ≡ (
        true,
        record arg {
          file = arg.file ++ line_text arg;
          addr = add32 arg.addr (length arg.buf);
          lba = arg.addr / 65536 * 65536;
          buf = [];
        },
      )
  unfolding stlink_fread_ihex_writeline
  writeline_lem arg h used short =
      let empty : (length arg.buf == 0) ≡ false = ground arith in
      let head = head_text (length arg.buf) arg.addr in
      let sum = head_sum (length arg.buf) arg.addr in
      let arg₁ = segment_done arg in
      let arg₂ = put arg₁ head in
      let print_head = print fprintf fclose 9 head in
      let print_bytes = write_bytes fprintf fclose arg.buf sum in
      let arg₃ =
        put arg₂ (hexes arg.buf ++ (hex2 (complement ((sum + total arg.buf) % 256)) ++ cr_lf)) in
      let run₁ = segment_step-done arg h in
      let run₂ =
        then_true (segment_step arg) print_head arg arg₁ run₁ ∙ print_lem 9 head arg₁ refl in
      let run₃ =
        then_true (segment_step arg &&then print_head) print_bytes arg arg₂ run₂
        ∙ write_bytes_lem arg.buf sum arg₂ (omega arith) in
      rw empty (
        then_true (segment_step arg &&then print_head &&then print_bytes)
          (line_done (length arg.buf)) arg arg₃ run₃
        ∙ ap
            (λ text. (
              true,
              record arg {
                file = text;
                addr = add32 arg.addr (length arg.buf);
                lba = arg.addr / 65536 * 65536;
                buf = [];
              },
            ))
            (append_assoc (arg.file ++ segment arg) head _
              ∙ ap ((arg.file ++ segment arg) ++◌) (data_text_lem arg.addr arg.buf)
              ∙ append_assoc arg.file (segment arg) (closed_line (data_bytes arg.addr arg.buf))))
