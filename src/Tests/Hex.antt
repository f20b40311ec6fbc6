-- ===== src/Tests/Hex.antt =====
-- A file of the Intel HEX format.
use libstlink.Prelude.{ℕ, ◌≡◌, refl, true, some, none, ℤ, pos, List, [], ◌∷◌, ◌++◌, length, arith}
use libstlink.Ihex.Writer.{
  WorkerArg, ◌&&then◌, stlink_fread_ihex_init, stlink_fread_ihex_worker, stlink_fread_ihex_finalize,
}
use libstlink.Ihex.Parser.{
  stlink_parse_ihex, lines, fill_image, parse_lines, parse_line, take_record, strlen, trim,
  checksum, hex_at, stlink_parse_hex, store, widen,
}
use libstlink.Ihex.RoundTrip.{stlink_parse_ihex-stlink_fread_ihex, stlink_parse_ihex-one_byte}

abbrev prints : List ℕ → List ℕ → ℤ × List ℕ
prints file text = (pos (length text), file ++ text)

abbrev closes : List ℕ → ℤ
closes file = pos 0

-- Bytes on both sides of the end of a segment.
abbrev some_bytes : List ℕ
some_bytes = 1 ∷ 2 ∷ 3 ∷ 4 ∷ 5 ∷ 6 ∷ 7 ∷ 8 ∷ 9 ∷ 10 ∷ 11 ∷ 12 ∷ 13 ∷ 14 ∷ 15 ∷ 16 ∷ 17 ∷ 255 ∷ []

stlink_parse_ihex-stlink_fread_ihex_example :
    (arg : WorkerArg) × ((stlink_fread_ihex_worker prints closes some_bytes
          &&then stlink_fread_ihex_finalize prints closes)
        (stlink_fread_ihex_init 0x0800fffe)
      ≡ (true, arg))
    × (stlink_parse_ihex arg.file 255 ≡ some (0x0800fffe, 18, some_bytes))
stlink_parse_ihex-stlink_fread_ihex_example =
    stlink_parse_ihex-stlink_fread_ihex prints closes (λ file text. refl) (λ file. refl) 0x0800fffe
      some_bytes 255
      (
        omega arith,
        (
          omega arith,
          (
            omega arith,
            (
              omega arith,
              (
                omega arith,
                (
                  omega arith,
                  (
                    omega arith,
                    (
                      omega arith,
                      (
                        omega arith,
                        (
                          omega arith,
                          (
                            omega arith,
                            (
                              omega arith,
                              (
                                omega arith,
                                (
                                  omega arith,
                                  (omega arith, (omega arith, (omega arith, (omega arith, tt)))),
                                ),
                              ),
                            ),
                          ),
                        ),
                      ),
                    ),
                  ),
                ),
              ),
            ),
          ),
        ),
      )
      (omega arith) (omega arith)

stlink_parse_ihex-one_byte_example :
    (arg : WorkerArg) × ((stlink_fread_ihex_worker prints closes (7 ∷ [])
          &&then stlink_fread_ihex_finalize prints closes)
        (stlink_fread_ihex_init 0x08000000)
      ≡ (true, arg))
    × (stlink_parse_ihex arg.file 255 ≡ none)
stlink_parse_ihex-one_byte_example =
    stlink_parse_ihex-one_byte prints closes (λ file text. refl) (λ file. refl) 0x08000000 7 255
      (omega arith) (omega arith)

-- A data record without bytes at the address 0 makes the last address 0xffffffff, and the size of the
-- memory wraps around to 0.
empty_record_size :
    stlink_parse_ihex
      (b':' ∷ b'0' ∷ b'0' ∷ b'0' ∷ b'0' ∷ b'0' ∷ b'0' ∷ b'0' ∷ b'0' ∷ b'0' ∷ b'0' ∷ 10 ∷ b':' ∷ b'0'
        ∷ b'0' ∷ b'0' ∷ b'0' ∷ b'0' ∷ b'0' ∷ b'0' ∷ b'1' ∷ b'F' ∷ b'F' ∷ 10 ∷ [])
      255
    ≡ some (0, 0, [])
unfolding stlink_parse_ihex lines fill_image parse_lines parse_line take_record strlen trim checksum
    hex_at stlink_parse_hex store widen
empty_record_size = refl
