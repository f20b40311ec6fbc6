-- ===== src/Flash/Verify/Compares.antt =====
-- common_flash.c: what the result of `stlink_verify_write_flash` says of the memory.
use libstlink.Prelude.{
  ℕ, zero, suc, ◌+◌, ◌-◌, ◌%◌, ◌^◌, ◌≤◌, ◌<◌, ◌≡◌, ◌↔◌, inl, inr, refl, ap, ◌∙◌, true, false, some,
  List, ◌∷◌, ℤ, success, failure, arith, length, drop, ltb, ltb→lt, ltb→le, Bool-cases,
}
use libstlink.Word.{add32, sub32, clear}
use libstlink.Word.Align.{clear-three}
use libstlink.Stlink.{Stlink, read_mem32, then_run}
use libstlink.Stlink.ReadWrite.{stlink_read_mem32}
use libstlink.Flash.Verify.{
  same_bytes, align_size, chunk_of, verify_size, verify_from, stlink_verify_write_flash,
}
use libstlink.Flash.Verify.Memory.{
  Reads, Matches, stlink_read_mem32-Reads, same_bytes-Matches, go_on, elim-go_on,
}
use libstlink.Flash.Verify.Bytes.{window, align_size_lem}

-- The rounds from two neighbouring ranges are those of the whole range.
Matches-split :
    (mem : ℕ → ℕ) (address : ℕ) (bytes : List ℕ) (a b c : ℕ)
    → Matches mem address bytes a b
    → Matches mem address bytes b c
    → Matches mem address bytes a c
Matches-split mem address bytes a b c f g i low high = elim (Bool-cases (ltb i b)) [
  | inl below ↦ f i low (ground arith)
  | inr above ↦ g i (ground arith) high
]

-- The sizes of a round: it compares at least one byte, and reads whole words.
record Round (chunk address off len : ℕ) : Type 0 where
  aligned : ℕ
  skip : ℕ
  cmp : ℕ
  size : ℕ
  aligned_eq : clear (add32 address off) 3 ≡ aligned
  skip_eq : sub32 (add32 address off) aligned ≡ skip
  cmp_eq : verify_size chunk skip off len ≡ cmp
  size_eq : align_size (add32 skip cmp) % 2 ^ 16 ≡ size
  next_eq : add32 off cmp ≡ off + cmp
  address_eq : aligned + skip ≡ address + off
  some_byte : 0 < cmp
  inside : off + cmp ≤ len
  start : aligned % 4 ≡ 0
  whole : size % 4 ≡ 0
  room : skip + cmp ≤ size

to-Round :
    (chunk address off len : ℕ)
    → 4 ≤ chunk
    → chunk ≤ 0x1800
    → off < len
    → address + len + chunk < 2 ^ 32
    → Round chunk address off len
to-Round chunk address off len low high h small =
    let ra = address + off in
    let ra_eq : add32 address off ≡ ra = omega arith in
    let down : clear (add32 address off) 3 ≡ ra - ra % 4 =
      rw ra_eq (clear-three ra (omega arith)) in
    let skip_is : sub32 (add32 address off) (ra - ra % 4) ≡ ra % 4 = omega arith in
    let cmp = verify_size chunk (ra % 4) off len in
    let cmp_is : (0 < cmp) × (off + cmp ≤ len) × (cmp ≤ 0x1800) = ground arith in
    let total : add32 (ra % 4) cmp ≡ ra % 4 + cmp = omega (arith, cmp_is) in
    let up = align_size_lem (ra % 4 + cmp) (omega (arith, cmp_is)) in
    let size_is : align_size (add32 (ra % 4) cmp) % 2 ^ 16 ≡ align_size (ra % 4 + cmp) =
      rw total (omega (arith, up, cmp_is)) in
    record {
      aligned = ra - ra % 4;
      skip = ra % 4;
      cmp = cmp;
      size = align_size (ra % 4 + cmp);
      aligned_eq = down;
      skip_eq = skip_is;
      cmp_eq = refl;
      size_eq = size_is;
      next_eq = omega (arith, cmp_is);
      address_eq = omega arith;
      some_byte = cmp_is.0;
      inside = cmp_is.1;
      start = omega arith;
      whole = up.0;
      room = up.1;
    }

module _ (mem : ℕ → ℕ) (address : ℕ) (bytes : List ℕ) (chunk : ℕ) where
  -- The context after the read of a round.
  abbrev after_read : {off : ℕ} → Stlink → Round chunk address off (length bytes) → Stlink
  after_read sl round = record sl {
    q_buf = window mem round.aligned round.size;
    history = read_mem32 round.aligned round.size ∷ sl.history;
  }

  -- A round reads, compares, and goes on or fails.
  verify-Round :
      (fuel off : ℕ) (sl : Stlink) (round : Round chunk address off (length bytes))
      → Reads mem sl.backend
      → ltb off (length bytes) ≡ true
      → verify_from (suc fuel) chunk address bytes (length bytes) off sl
        ≡ go_on
            (same_bytes round.cmp
              (drop round.skip (window mem round.aligned round.size))
              (drop off bytes))
            (verify_from fuel chunk address bytes (length bytes) (off + round.cmp))
            (after_read sl round)
  unfolding verify_from
  verify-Round fuel off sl round reads go =
      let same =
        same_bytes round.cmp (drop round.skip (window mem round.aligned round.size))
          (drop off bytes) in
      let next : add32 off (
            verify_size chunk (sub32 (add32 address off) (clear (add32 address off) 3)) off
              (length bytes))
          ≡ off + round.cmp =
        rw (round.aligned_eq, round.skip_eq, round.cmp_eq) round.next_eq in
      rw (verify_from, go, round.aligned_eq, round.skip_eq, round.cmp_eq, round.size_eq)
        (then_run (stlink_read_mem32 round.aligned round.size) {sl = sl}
            (stlink_read_mem32-Reads sl mem round.aligned round.size reads round.start round.whole)
            _
          ∙ elim-go_on same _ _ (after_read sl round)
              (ap (λ (x : ℕ). verify_from fuel chunk address bytes (length bytes) x) next))

  -- The loop from an offset on: it ends, and tells whether the bytes from there on match.
  verify_from_iff :
      (fuel off : ℕ) (sl : Stlink)
      → 4 ≤ chunk
      → chunk ≤ 0x1800
      → address + length bytes + chunk < 2 ^ 32
      → Reads mem sl.backend
      → off ≤ length bytes
      → length bytes < fuel + off
      → (r : ℤ) × (sl' : Stlink) × (verify_from fuel chunk address bytes (length bytes) off sl
          ≡ some (r, sl'))
        × ((r ≡ success) ↔ Matches mem address bytes off (length bytes))
  unfolding verify_from
  verify_from_iff zero off sl low high small reads inside enough = absurd (omega arith)
  verify_from_iff (suc fuel) off sl low high small reads inside enough =
      elim (Bool-cases (ltb off (length bytes))) [
        | inr stop ↦ (
          success,
          sl,
          ended fuel off sl stop,
          ((λ e i lo hi. absurd (omega (arith, ltb→le off (length bytes) stop))), λ f. refl),
        )
        | inl go ↦
            let round =
              to-Round chunk address off (length bytes) low high (ltb→lt off (length bytes) go)
                small in
            let ran = verify-Round fuel off sl round reads go in
            let compared =
              same_bytes-Matches mem address bytes off round.aligned round.skip round.cmp round.size
                round.address_eq round.room round.inside in
            let (r, sl', rest, tells) =
              verify_from_iff fuel (off + round.cmp) (after_read sl round) low high small reads
                round.inside (omega (arith, round.some_byte)) in
            elim (Bool-cases (
              same_bytes round.cmp (drop round.skip (window mem round.aligned round.size))
                (drop off bytes))) [
                  | inl same ↦ (
                    r,
                    sl',
                    ran ∙ rw same rest,
                    (
                      (λ e.
                          Matches-split mem address bytes off (off + round.cmp) (length bytes)
                            (compared.0 same) (tells.0 e)),
                      λ f. tells.1 (λ i lo hi. f i (omega arith) hi),
                    ),
                  )
                  | inr differs ↦ (
                    failure,
                    after_read sl round,
                    ran ∙ rw differs refl,
                    (
                      (λ e. cc e),
                      λ f.
                          let round_same =
                            compared.1 (λ i lo hi. f i lo (omega (arith, round.inside))) in
                          cc (differs, round_same),
                    ),
                  )
                ]
      ]
    where
      ended :
          (fuel off : ℕ) (sl : Stlink)
          → ltb off (length bytes) ≡ false
          → verify_from (suc fuel) chunk address bytes (length bytes) off sl ≡ some (success, sl)
      ended fuel off sl stop = rw (verify_from, stop) refl

-- Where the backend reads a memory in whole words, the verification of data in a 32-bit address range ends with any
-- fuel of more rounds than bytes, and its result is 0 just where every byte of the data is the byte
-- of the memory at its address, for addresses of any alignment and pages of at least 4 bytes.
pub stlink_verify_write_flash_iff :
    (mem : ℕ → ℕ) (fuel address : ℕ) (bytes : List ℕ) (sl : Stlink)
    → Reads mem sl.backend
    → 4 ≤ sl.flash_pgsz
    → address + length bytes + 0x1800 < 2 ^ 32
    → length bytes < fuel
    → (r : ℤ) × (sl' : Stlink) × (stlink_verify_write_flash fuel address bytes (length bytes) sl
        ≡ some (r, sl'))
      × ((r ≡ success) ↔ Matches mem address bytes 0 (length bytes))
unfolding stlink_verify_write_flash
stlink_verify_write_flash_iff mem fuel address bytes sl reads page small enough =
    let size : (4 ≤ chunk_of sl) × (chunk_of sl ≤ 0x1800) = ground arith in
    verify_from_iff mem address bytes (chunk_of sl) fuel 0 sl size.0 size.1 (omega (arith, size.1))
      reads (omega arith) (omega arith)
