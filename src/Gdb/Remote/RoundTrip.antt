-- ===== src/Gdb/Remote/RoundTrip.antt =====
-- gdb-remote.c: what `gdb_send_packet` sends is what `gdb_recv_packet` receives.
use mathlib.Core.List.{append_assoc, append-nil}
use libstlink.Prelude.{
  ℕ, zero, suc, ◌+◌, ◌/◌, ◌%◌, ◌^◌, ◌≡◌, ◌≢◌, refl, ap, ◌∙◌, true, List, [], ◌∷◌, ◌++◌, pos, arith,
  length, All, ◌<◌, some,
}
use libstlink.Gdb.Remote.{
  Conn, hex_digit, sum_bytes, packet_of, gdb_recv_packet, send_loop, gdb_send_packet,
}
use libstlink.Gdb.Remote.Checksum.{cksum_value-hex_digit, sum_bytes-lt}
use libstlink.Gdb.Remote.Loop.{NoHash, NoDollar, frame, recv_accepts, recv_noise}

-- A packet with more bytes behind it, as a frame.
pub packet_of-frame :
    (chars rest : List ℕ)
    → packet_of chars ++ rest
      ≡ frame chars
          (hex_digit (sum_bytes 0 chars / 2 ^ 4))
          (hex_digit (sum_bytes 0 chars % 2 ^ 4))
          rest
unfolding packet_of
packet_of-frame chars rest = ap (◌∷◌ b'$') (append_assoc chars _ rest)

-- Whatever stands before the first '$', a packet of bytes other than '#' is received as it was
-- given to the sender and acknowledged by '+'; what follows it stays to be read. The packet has fewer
-- than 2^31 bytes with its frame, the buffer can always grow, and the peer takes the answer.
pub gdb_recv_packet-packet_of :
    (conn : Conn) (noise chars rest : List ℕ) (w : ℕ)
    → ((n : ℕ) → conn.can_alloc n ≡ true)
    → NoDollar noise
    → NoHash chars
    → conn.input ≡ noise ++ (packet_of chars ++ rest)
    → conn.writes ≡ suc w
    → length chars + 4 < 2 ^ 31
    → gdb_recv_packet conn
      ≡ some (
        pos (length chars),
        chars,
        record conn { input = rest; output = conn.output ++ b'+' ∷ []; writes = w },
      )
unfolding gdb_recv_packet
gdb_recv_packet-packet_of conn noise chars rest w alloc quiet clean reads room small =
    simp (alloc 1025, reads, packet_of-frame chars rest)
      (recv_noise conn alloc noise _ 1025 0 0 quiet
        ∙ recv_accepts conn alloc chars rest _ _ 1025 0 0 w clean
            (cksum_value-hex_digit (sum_bytes 0 chars) (sum_bytes-lt 0 chars (omega arith))) room
            (omega arith) (omega arith))

-- A packet written n times.
abbrev pub repeated : ℕ → List ℕ → List ℕ
repeated zero packet = []
repeated (suc n) packet = packet ++ repeated n packet

send_loop-repeated :
    (packet naks rest : List ℕ) (conn : Conn) (w : ℕ)
    → All (λ c. c ≢ b'+') naks
    → conn.writes ≡ length naks + suc w
    → send_loop packet (naks ++ (b'+' ∷ rest)) conn ≡ (
      pos 0,
      record conn {
        input = rest;
        output = conn.output ++ repeated (suc (length naks)) packet;
        writes = w;
      },
    )
unfolding send_loop
send_loop-repeated packet [] rest conn w h room = ground (arith, append-nil packet)
send_loop-repeated packet (c ∷ naks) rest conn w (h, hs) room =
    let conn' = record conn {
      input = naks ++ (b'+' ∷ rest);
      output = conn.output ++ packet;
      writes = length naks + suc w;
    } in
    ground (
      arith,
      send_loop-repeated packet naks rest conn' w hs refl,
      append_assoc conn.output packet (repeated (suc (length naks)) packet),
    )

-- The packet is sent once for each answer of the peer up to its first '+', nothing else is sent, and
-- the result is 0; the answers read are those up to that '+'. The peer takes that many writes.
pub gdb_send_packet-repeated :
    (conn : Conn) (chars naks rest : List ℕ) (w : ℕ)
    → All (λ c. c ≢ b'+') naks
    → conn.input ≡ naks ++ (b'+' ∷ rest)
    → conn.writes ≡ length naks + suc w
    → gdb_send_packet chars conn ≡ (
      pos 0,
      record conn {
        input = rest;
        output = conn.output ++ repeated (suc (length naks)) (packet_of chars);
        writes = w;
      },
    )
unfolding gdb_send_packet
gdb_send_packet-repeated conn chars naks rest w h reads room =
    simp reads (send_loop-repeated (packet_of chars) naks rest conn w h room)
