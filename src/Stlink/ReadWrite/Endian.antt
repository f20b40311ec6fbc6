-- ===== src/Stlink/ReadWrite/Endian.antt =====
-- read_write.c: a word that is written little-endian is read back, and the bytes of a word that is
-- read are written back.
use libstlink.Prelude.{
  ℕ, ◌+◌, ◌*◌, ◌%◌, ◌^◌, ◌≤◌, ◌<◌, ◌≡◌, refl, ◌∙◌, List, [], ◌∷◌, bit_or, arith, length, All,
}
use libstlink.Word.{shl32, shr32}
use libstlink.Word.Bits.{bit_or-eq-add}
use libstlink.Stlink.ReadWrite.{read_uint16, write_uint16, read_uint32, write_uint32}

join_two : (a b : ℕ) → a < 256 → b < 256 → bit_or a (b * 2 ^ 8 % 2 ^ 16) ≡ a + b * 2 ^ 8
join_two a b ha hb =
    let e : b * 2 ^ 8 % 2 ^ 16 ≡ b * 2 ^ 8 = omega arith in rw e (bit_or-eq-add 8 a b ha)

pub join_four :
    (a b c d : ℕ)
    → a < 256
    → b < 256
    → c < 256
    → d < 256
    → bit_or (bit_or (bit_or a (shl32 b 8)) (shl32 c 16)) (shl32 d 24)
      ≡ a + b * 2 ^ 8 + c * 2 ^ 16 + d * 2 ^ 24
join_four a b c d ha hb hc hd =
    let e₁ : shl32 b 8 ≡ b * 2 ^ 8 = omega arith in
    let e₂ : shl32 c 16 ≡ c * 2 ^ 16 = omega arith in
    let e₃ : shl32 d 24 ≡ d * 2 ^ 24 = omega arith in
    rw (e₁, bit_or-eq-add 8 a b ha)
      (rw (e₂, bit_or-eq-add 16 (a + b * 2 ^ 8) c (omega arith))
        (rw (e₃, bit_or-eq-add 24 (a + b * 2 ^ 8 + c * 2 ^ 16) d (omega arith)) refl))

-- A 16-bit value written to a buffer with room for it is read back from its start.
pub read_uint16-write_uint16 :
    (buf : List ℕ) (ui : ℕ)
    → 2 ≤ length buf
    → ui < 2 ^ 16
    → read_uint16 (write_uint16 buf ui) 0 ≡ ui
unfolding read_uint16 write_uint16
read_uint16-write_uint16 [] ui room h = absurd (omega arith)
read_uint16-write_uint16 (a ∷ []) ui room h = absurd (omega arith)
read_uint16-write_uint16 (a ∷ b ∷ rest) ui room h =
    join_two (ui % 256) (shr32 ui 8 % 256) (omega arith) (omega arith) ∙ omega arith

-- A 32-bit value written to a buffer with room for it is read back from its start.
pub read_uint32-write_uint32 :
    (buf : List ℕ) (ui : ℕ)
    → 4 ≤ length buf
    → ui < 2 ^ 32
    → read_uint32 (write_uint32 buf ui) 0 ≡ ui
unfolding read_uint32 write_uint32
read_uint32-write_uint32 [] ui room h = absurd (omega arith)
read_uint32-write_uint32 (a ∷ []) ui room h = absurd (omega arith)
read_uint32-write_uint32 (a ∷ b ∷ []) ui room h = absurd (omega arith)
read_uint32-write_uint32 (a ∷ b ∷ c ∷ []) ui room h = absurd (omega arith)
read_uint32-write_uint32 (a ∷ b ∷ c ∷ d ∷ rest) ui room h =
    join_four (ui % 256) (shr32 ui 8 % 256) (shr32 ui 16 % 256) (shr32 ui 24 % 256) (omega arith)
      (omega arith) (omega arith) (omega arith)
    ∙ omega arith

-- The word read from the start of a buffer of bytes, written back there, leaves the buffer as it was.
pub write_uint32-read_uint32 :
    (buf : List ℕ)
    → 4 ≤ length buf
    → All (λ byte. byte < 256) buf
    → write_uint32 buf (read_uint32 buf 0) ≡ buf
unfolding read_uint32 write_uint32
write_uint32-read_uint32 [] room h = absurd (omega arith)
write_uint32-read_uint32 (a ∷ []) room h = absurd (omega arith)
write_uint32-read_uint32 (a ∷ b ∷ []) room h = absurd (omega arith)
write_uint32-read_uint32 (a ∷ b ∷ c ∷ []) room h = absurd (omega arith)
write_uint32-read_uint32 (a ∷ b ∷ c ∷ d ∷ rest) room (ha, (hb, (hc, (hd, _)))) =
    let w = a + b * 2 ^ 8 + c * 2 ^ 16 + d * 2 ^ 24 in
    let e₀ : w % 2 ^ 8 ≡ a = omega arith in
    let e₁ : shr32 w 8 % 2 ^ 8 ≡ b = omega arith in
    let e₂ : shr32 w 16 % 2 ^ 8 ≡ c = omega arith in
    let e₃ : shr32 w 24 % 2 ^ 8 ≡ d = omega arith in rw (join_four a b c d ha hb hc hd) (cc)
