-- ===== src/Ihex/RoundTrip.antt =====
-- common_legacy.c: a file that the writer of the Intel HEX format has saved is read back.
use libstlink.Prelude.{
  replicate, ℕ, suc, ◌+◌, ◌-◌, ◌≤◌, ◌<◌, ◌^◌, ◌≡◌, ◌∙◌, refl, ap, min, max, Bool, true, false,
  Option-cases, inl, inr, some, none, ℤ, pos, List, [], ◌∷◌, ◌++◌, map, length, set, All, leb,
  arith,
}
use libstlink.Word.{add32, sub32, uint32_max}
use libstlink.Ihex.Writer.{
  WorkerArg, ◌&&then◌, stlink_fread_ihex_init, stlink_fread_ihex_worker, stlink_fread_ihex_finalize,
}
use libstlink.Ihex.Parser.{
  Image, parse_lines, lines, no_image, fill_image, stlink_parse_ihex, parse_line, take_record,
  strlen, trim, checksum, hex_at, stlink_parse_hex,
}
use libstlink.Ihex.Texts.{closed_line}
use libstlink.Ihex.Files.{joined, lines-joined}
use libstlink.Ihex.Effects.{write_at, effect}
use libstlink.Ihex.Runs.{Parses, IsShort, eof_text}
use libstlink.Ihex.Saves.{save_from}

parse_lines-append :
    (scan : Bool) (xs ys : List (List ℕ)) (img img' : Image)
    → parse_lines scan xs img ≡ some img'
    → parse_lines scan (xs ++ ys) img ≡ parse_lines scan ys img'
unfolding parse_lines
parse_lines-append scan [] ys img img' e =
    ap (λ o. parse_lines scan ys (elim o as (λ o. Image) [ none ↦ img | some i ↦ i ])) e
parse_lines-append scan (x ∷ xs) ys img img' e = elim (Option-cases (parse_line scan x img)) [
  | inl stops ↦ cc (rw (parse_lines, stops) at e)
  | inr (img₁, goes) ↦
      rw (parse_lines, goes) (parse_lines-append scan xs ys img₁ img' (rw (parse_lines, goes) at e))
]

lines-eof : lines 522 eof_text ≡ eof_text ∷ []
unfolding lines
lines-eof = refl

parse_line-eof :
    (scan : Bool) (img : Image)
    → parse_line scan eof_text img ≡ some (record img { eof_found = true })
unfolding parse_line strlen trim checksum hex_at stlink_parse_hex take_record
parse_line-eof scan img = refl

-- A pass over all lines of a file of the writer.
pass :
    (scan : Bool) (recs : List (List ℕ)) (addr : ℕ) (bytes : List ℕ) (img : Image)
    → All IsShort recs
    → Parses recs scan addr bytes img
    → (l : ℕ) × (parse_lines scan (lines 522 (joined recs ++ eof_text)) img
        ≡ some (record (effect scan addr bytes img) { lba = l; eof_found = true }))
unfolding parse_lines
pass scan recs addr bytes img shorts (l, e) = (
  l,
  ap (λ ls. parse_lines scan ls img)
        (lines-joined recs eof_text shorts ∙ ap (map closed_line recs ++◌) lines-eof)
      ∙ parse_lines-append scan (map closed_line recs) (eof_text ∷ []) img _ e
      ∙ rw (parse_line-eof scan (record (effect scan addr bytes img) { lba = l })) refl,
)

write_at-suc :
    (m : ℕ) (mem : List ℕ) (i : ℕ) (bs : List ℕ)
    → write_at (m ∷ mem) (suc i) bs ≡ m ∷ write_at mem i bs
write_at-suc m mem i [] = refl
write_at-suc m mem i (b ∷ bs) = write_at-suc m (set mem i b) (suc i) bs

-- Every byte of the memory is written.
write_at-all : (pattern : ℕ) (bs : List ℕ) → write_at (replicate (length bs) pattern) 0 bs ≡ bs
write_at-all pattern [] = refl
write_at-all pattern (b ∷ bs) =
    write_at-suc b (replicate (length bs) pattern) 0 bs ∙ ap (b ∷◌) (write_at-all pattern bs)

-- What the first pass finds in a file for these bytes.
abbrev found : ℕ → ℕ → ℕ → Image
found addr n l = record { begin = addr; last = addr + n - 1; eof_found = true; lba = l; bytes = [] }

first_pass :
    (recs : List (List ℕ)) (addr : ℕ) (bytes : List ℕ)
    → All IsShort recs
    → addr + length bytes < 2 ^ 32
    → Parses recs false addr bytes no_image
    → (l : ℕ) × (parse_lines false (lines 522 (joined recs ++ eof_text)) no_image
        ≡ some (found addr (length bytes) l))
first_pass recs addr bytes shorts room parses =
    let (l, e) = pass false recs addr bytes no_image shorts parses in
    let low : min uint32_max addr ≡ addr = omega arith in
    let high : max 0 (addr + length bytes - 1) ≡ addr + length bytes - 1 = omega arith in
    (l, rw (low, high) at e)

fill_image-found :
    (file : List (List ℕ)) (pattern addr l : ℕ) (bytes : List ℕ) (full : Image)
    → 2 ≤ length bytes
    → addr + length bytes < 2 ^ 32
    → parse_lines true file
        (record (found addr (length bytes) l) { lba = 0; bytes = replicate (length bytes) pattern })
      ≡ some full
    → fill_image file pattern (some (found addr (length bytes) l))
      ≡ some (full.begin, length bytes, full.bytes)
unfolding fill_image
fill_image-found file pattern addr l bytes full several room e =
    let size : add32 (sub32 (addr + length bytes - 1) addr) 1 ≡ length bytes = omega arith in
    let some_data : leb (addr + length bytes - 1) addr ≡ false = ground arith in
    rw (some_data, size, e) (ap (λ n. some (full.begin, n, full.bytes)) size)

fill_image-one_byte :
    (file : List (List ℕ)) (pattern addr l : ℕ)
    → fill_image file pattern (some (found addr 1 l)) ≡ none
unfolding fill_image
fill_image-one_byte file pattern addr l =
    let no_data : leb (addr + 1 - 1) addr ≡ true = ground arith in rw no_data refl

module _ (fprintf : List ℕ → List ℕ → ℤ × List ℕ) (fclose : List ℕ → ℤ)
    (prints : (file text : List ℕ) → fprintf file text ≡ (pos (length text), file ++ text))
    (closes : (file : List ℕ) → fclose file ≡ pos 0) where
  -- Where fprintf appends its text to the file and fclose succeeds, the writer saves two bytes or more
  -- that end below 2^32 in a file that `stlink_parse_ihex` reads as the same bytes at the same
  -- address, whatever the pattern of the erased flash.
  pub stlink_parse_ihex-stlink_fread_ihex :
      (addr : ℕ) (bytes : List ℕ) (pattern : ℕ)
      → All (λ b. b < 256) bytes
      → 2 ≤ length bytes
      → addr + length bytes < 2 ^ 32
      → (arg : WorkerArg) × ((stlink_fread_ihex_worker fprintf fclose bytes
              &&then stlink_fread_ihex_finalize fprintf fclose)
            (stlink_fread_ihex_init addr)
          ≡ (true, arg))
        × (stlink_parse_ihex arg.file pattern ≡ some (addr, length bytes, bytes))
  unfolding stlink_parse_ihex
  stlink_parse_ihex-stlink_fread_ihex addr bytes pattern small several room =
      let (recs, arg, run, file, shorts, parses) =
        save_from fprintf fclose prints closes bytes (stlink_fread_ihex_init addr) tt small
          (omega arith) (omega arith) (omega arith) in
      let read = lines 522 (joined recs ++ eof_text) in
      let (l, first) = first_pass recs addr bytes shorts room (parses false no_image refl tt) in
      let img = record (found addr (length bytes) l) {
        lba = 0;
        bytes = replicate (length bytes) pattern;
      } in
      let (k, second) =
        pass true recs addr bytes img shorts (parses true img refl (omega arith, omega arith)) in
      let start : addr - addr ≡ 0 = omega arith in
      (
        arg,
        run,
        ap (λ text. stlink_parse_ihex text pattern) file
            ∙ ap (fill_image read pattern) first
            ∙ fill_image-found read pattern addr l bytes _ several room second
            ∙ ap (λ mem. some (addr, length bytes, mem))
                (ap (λ n. write_at (replicate (length bytes) pattern) n bytes) start
                  ∙ write_at-all pattern bytes),
      )

  -- Where fprintf appends its text to the file and fclose succeeds, the writer saves a single byte
  -- below the last address in a file that `stlink_parse_ihex` refuses.
  pub stlink_parse_ihex-one_byte :
      (addr byte pattern : ℕ)
      → byte < 256
      → addr + 1 < 2 ^ 32
      → (arg : WorkerArg) × ((stlink_fread_ihex_worker fprintf fclose (byte ∷ [])
              &&then stlink_fread_ihex_finalize fprintf fclose)
            (stlink_fread_ihex_init addr)
          ≡ (true, arg))
        × (stlink_parse_ihex arg.file pattern ≡ none)
  unfolding stlink_parse_ihex
  stlink_parse_ihex-one_byte addr byte pattern small room =
      let (recs, arg, run, file, shorts, parses) =
        save_from fprintf fclose prints closes (byte ∷ []) (stlink_fread_ihex_init addr) tt
          (small, tt) (omega arith) (omega arith) (omega arith) in
      let (l, first) =
        first_pass recs addr (byte ∷ []) shorts room (parses false no_image refl tt) in
      (
        arg,
        run,
        ap (λ text. stlink_parse_ihex text pattern) file
            ∙ ap (fill_image (lines 522 (joined recs ++ eof_text)) pattern) first
            ∙ fill_image-one_byte (lines 522 (joined recs ++ eof_text)) pattern addr l,
      )
