-- ===== src/Gdb/Remote/Retransmit.antt =====
-- gdb-remote.c: `goto start` after a refused packet leaves `cksum` as it is, so the next packet is
-- checked against the sum of both.
use libstlink.Prelude.{
  ℕ, suc, ◌+◌, ◌/◌, ◌%◌, ◌^◌, ◌<◌, ◌≡◌, ◌≢◌, refl, ◌∙◌, true, List, [], ◌∷◌, ◌++◌, arith, sym, ap,
  length,
}
use libstlink.Gdb.Remote.{
  Conn, hex_digit, sum_bytes, packet_of, cksum_value, recv_start, recv_loop, gdb_recv_packet,
}
use libstlink.Gdb.Remote.Checksum.{cksum_value-hex_digit, sum_bytes-lt, sum_bytes-carry}
use libstlink.Gdb.Remote.Loop.{NoHash, frame, between, grown, grown-room, recv_refuses}
use libstlink.Gdb.Remote.RoundTrip.{packet_of-frame}

-- A sum that starts from another value than 0 differs from the checksum that is sent.
carried_sum : (k : ℕ) (good : List ℕ) → k < 256 → k ≢ 0 → sum_bytes 0 good ≢ sum_bytes k good
carried_sum k good h nonzero e =
    let carry : sum_bytes k good ≡ (k + sum_bytes 0 good) % 256 =
      (let same : (k + 0) % 256 ≡ k = omega arith in rw same at (sum_bytes-carry k 0 good)) in
    nonzero (omega (arith, carry, e, sum_bytes-lt 0 good (omega arith)))

-- After a packet that arrived with a wrong checksum, and whose bytes do not sum up to 0 as uint8_t, a
-- correct packet is refused too, where both have fewer than 2^31 bytes, the buffer can always grow, and the
-- peer takes both answers: both packets are answered by '-', and the loop still waits for a packet. So
-- a retransmission, which is a correct packet, is not received.
pub retransmission_refused :
    (conn : Conn) (corrupt good rest : List ℕ) (h₁ h₂ w : ℕ)
    → ((n : ℕ) → conn.can_alloc n ≡ true)
    → NoHash corrupt
    → NoHash good
    → cksum_value h₁ h₂ ≢ sum_bytes 0 corrupt
    → sum_bytes 0 corrupt ≢ 0
    → conn.input ≡ frame corrupt h₁ h₂ (packet_of good ++ rest)
    → conn.writes ≡ suc (suc w)
    → length corrupt < 2 ^ 31
    → length good < 2 ^ 31
    → (size cksum rc : ℕ) × (gdb_recv_packet conn
        ≡ recv_loop rest
            (between size cksum rc)
            (record conn { output = (conn.output ++ b'-' ∷ []) ++ b'-' ∷ []; writes = w }))
unfolding gdb_recv_packet
retransmission_refused conn corrupt good rest h₁ h₂ w alloc c₁ c₂ wrong nonzero reads room small₁
      small₂ =
    let s = sum_bytes 0 corrupt in
    let g = sum_bytes 0 good in
    let first =
      recv_refuses conn alloc corrupt (packet_of good ++ rest) h₁ h₂ 1025 0 0 (suc w) c₁ wrong room
        (omega arith) (omega arith) in
    let sent = cksum_value-hex_digit g (sum_bytes-lt 0 good (omega arith)) in
    let differs = carried_sum s good (sum_bytes-lt 0 corrupt (omega arith)) nonzero in
    let conn' = record conn { output = conn.output ++ b'-' ∷ []; writes = suc w } in
    let second =
      recv_refuses conn' alloc good rest (hex_digit (g / 2 ^ 4)) (hex_digit (g % 2 ^ 4))
        (grown 1025 0 corrupt) s h₁ w c₂ (λ e. differs (sym sent ∙ e)) refl
        (omega (arith, grown-room 1025 0 corrupt (omega arith))) (omega arith) in
    (
      grown (grown 1025 0 corrupt) 0 good,
      sum_bytes s good,
      hex_digit (g / 2 ^ 4),
      rw (alloc 1025) (
          ap (λ bytes. recv_loop bytes recv_start conn) reads
          ∙ first
          ∙ rw (packet_of-frame good rest) second),
    )
