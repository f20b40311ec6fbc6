-- ===== src/Gdb/Remote/Loop.antt =====
-- gdb-remote.c: what the receive loop does with a whole packet, from any checksum that it starts with.
use mathlib.Core.List.{append_assoc, append-nil}
use native.Mathlib.Nat.{add-zero, zero-add}
use libstlink.Prelude.{
  ℕ, suc, ◌+◌, ◌%◌, ◌≡◌, ◌≢◌, refl, ◌∙◌, true, List, [], ◌∷◌, ◌++◌, pos, arith, ◌==◌, if◌then◌else◌,
  length, All, ◌<◌, ◌^◌, some, false, ltb, Bool-cases, inl, inr,
}
use libstlink.Word.{add32}
use libstlink.Gdb.Remote.{
  Conn, sum_bytes, Recv, waiting, in_packet, cksum_value, recv_loop, alloc_step, returned,
  write_conn,
}

abbrev pub NoHash : List ℕ → Type 0
NoHash = All (λ c. c ≢ b'#')

abbrev pub NoDollar : List ℕ → Type 0
NoDollar = All (λ c. c ≢ b'$')

-- The state inside a packet, and between packets.
abbrev pub inside : ℕ → ℕ → List ℕ → ℕ → ℕ → Recv
inside size idx packet cksum rc = record {
  state = in_packet;
  packet_size = size;
  packet_idx = idx;
  packet = packet;
  cksum = cksum;
  recv_cksum = rc;
}

abbrev pub between : ℕ → ℕ → ℕ → Recv
between size cksum rc = record {
  state = waiting;
  packet_size = size;
  packet_idx = 0;
  packet = [];
  cksum = cksum;
  recv_cksum = rc;
}

-- '$' chars '#' and two characters.
abbrev pub frame : List ℕ → ℕ → ℕ → List ℕ → List ℕ
frame chars h₁ h₂ rest = b'$' ∷ (chars ++ (b'#' ∷ h₁ ∷ h₂ ∷ rest))

-- The buffer size after the bytes are stored.
pub grown : ℕ → ℕ → List ℕ → ℕ
grown size idx [] = size
grown size idx (c ∷ cs) = grown (if idx + 1 == size then size + alloc_step else size) (idx + 1) cs

-- The write position stays inside a buffer that does not wrap around.
pub grown-room : (size idx : ℕ) (cs : List ℕ) → idx < size → idx + length cs < grown size idx cs
unfolding grown
grown-room size idx [] room = omega arith
grown-room size idx (c ∷ cs) room =
    let more : idx + 1 < (if idx + 1 == size then size + alloc_step else size) = ground arith in
    omega
      (arith, grown-room (if idx + 1 == size then size + alloc_step else size) (idx + 1) cs more)

module _ (conn : Conn) (alloc : (n : ℕ) → conn.can_alloc n ≡ true) where
  recv_store :
      (c : ℕ) (rest packet : List ℕ) (size idx cksum rc : ℕ)
      → c ≢ b'#'
      → idx < size
      → idx + 1 + alloc_step < 2 ^ 32
      → recv_loop (c ∷ rest) (inside size idx packet cksum rc) conn
        ≡ recv_loop rest
            (inside
              (if idx + 1 == size then size + alloc_step else size)
              (idx + 1)
              (packet ++ c ∷ [])
              ((cksum + c) % 256)
              rc)
            conn
  unfolding recv_loop
  recv_store c rest packet size idx cksum rc h room small =
      let data_byte : (c == b'#') ≡ false = ground arith in
      let inside_buffer : ltb idx size ≡ true = ground arith in
      let next_idx : add32 idx 1 ≡ idx + 1 = omega arith in
      elim (Bool-cases (idx + 1 == size)) [
        | inr fits ↦ rw (recv_loop, data_byte, inside_buffer, next_idx, fits) refl
        | inl full ↦
            let next_size : add32 size alloc_step ≡ size + alloc_step = ground arith in
            rw
              (
                recv_loop,
                data_byte,
                inside_buffer,
                next_idx,
                full,
                next_size,
                alloc (size + alloc_step),
              )
              refl
      ]

  recv_inside :
      (chars rest packet : List ℕ) (size idx cksum rc : ℕ)
      → NoHash chars
      → idx < size
      → idx + length chars + alloc_step < 2 ^ 32
      → recv_loop (chars ++ rest) (inside size idx packet cksum rc) conn
        ≡ recv_loop rest
            (inside
              (grown size idx chars)
              (idx + length chars)
              (packet ++ chars)
              (sum_bytes cksum chars)
              rc)
            conn
  unfolding grown sum_bytes
  recv_inside [] rest packet size idx cksum rc h room small = rw (append-nil, add-zero) refl
  recv_inside (c ∷ cs) rest packet size idx cksum rc (h, hs) room small =
      let size' = if idx + 1 == size then size + alloc_step else size in
      let assoc : (packet ++ c ∷ []) ++ cs ≡ packet ++ c ∷ cs = append_assoc packet (c ∷ []) cs in
      let count : idx + 1 + length cs ≡ idx + suc (length cs) = omega arith in
      let more : idx + 1 < size' = ground arith in
      let first = recv_store c (cs ++ rest) packet size idx cksum rc h room (omega arith) in
      first
      ∙ recv_inside cs rest (packet ++ c ∷ []) size' (idx + 1) ((cksum + c) % 256) rc hs more
          (omega arith)
      ∙ rw (assoc, count) refl

  peer_takes :
      (bytes : List ℕ) (w : ℕ)
      → conn.writes ≡ suc w
      → write_conn conn.writes bytes conn
        ≡ (true, record conn { output = conn.output ++ bytes; writes = w })
  unfolding write_conn
  peer_takes bytes w room = rw (room, write_conn) refl

  -- A whole packet with its two characters reaches the comparison of the checksums.
  pub recv_accepts :
      (chars rest : List ℕ) (h₁ h₂ size cksum rc w : ℕ)
      → NoHash chars
      → cksum_value h₁ h₂ ≡ sum_bytes cksum chars
      → conn.writes ≡ suc w
      → 0 < size
      → length chars < 2 ^ 31
      → recv_loop (frame chars h₁ h₂ rest) (between size cksum rc) conn
        ≡ some (
          pos (length chars),
          chars,
          record conn { input = rest; output = conn.output ++ b'+' ∷ []; writes = w },
        )
  unfolding recv_loop
  recv_accepts chars rest h₁ h₂ size cksum rc w h good room some_size small =
      let run =
        recv_inside chars (b'#' ∷ h₁ ∷ h₂ ∷ rest) [] size 0 cksum rc h some_size (omega arith) in
      let same : (cksum_value h₁ h₂ == sum_bytes cksum chars) ≡ true = ground (arith, good) in
      let inside_buffer : ltb (length chars) (grown size 0 chars) ≡ true =
        ground (arith, grown-room size 0 chars some_size) in
      let wrote = peer_takes (b'+' ∷ []) w room in
      let positive : ltb (length chars) 0x80000000 ≡ true = ground arith in
      run ∙ rw (recv_loop, same, wrote, returned, zero-add, inside_buffer, positive) (rw wrote refl)

  pub recv_refuses :
      (chars rest : List ℕ) (h₁ h₂ size cksum rc w : ℕ)
      → NoHash chars
      → cksum_value h₁ h₂ ≢ sum_bytes cksum chars
      → conn.writes ≡ suc w
      → 0 < size
      → length chars + alloc_step < 2 ^ 32
      → recv_loop (frame chars h₁ h₂ rest) (between size cksum rc) conn
        ≡ recv_loop rest
            (between (grown size 0 chars) (sum_bytes cksum chars) h₁)
            (record conn { output = conn.output ++ b'-' ∷ []; writes = w })
  unfolding recv_loop
  recv_refuses chars rest h₁ h₂ size cksum rc w h bad room some_size small =
      let run =
        recv_inside chars (b'#' ∷ h₁ ∷ h₂ ∷ rest) [] size 0 cksum rc h some_size (omega arith) in
      run ∙ ground arith

  -- What comes before the first '$' is skipped.
  pub recv_noise :
      (noise rest : List ℕ) (size cksum rc : ℕ)
      → NoDollar noise
      → recv_loop (noise ++ rest) (between size cksum rc) conn
        ≡ recv_loop rest (between size cksum rc) conn
  unfolding recv_loop
  recv_noise [] rest size cksum rc h = refl
  recv_noise (c ∷ cs) rest size cksum rc (h, hs) =
      ground (arith, recv_noise cs rest size cksum rc hs)
