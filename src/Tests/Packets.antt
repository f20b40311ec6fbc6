-- ===== src/Tests/Packets.antt =====
-- gdb-remote.c and read_write.c on concrete packets and buffers.
use libstlink.Prelude.{length, ℕ, ◌≡◌, refl, true, List, [], ◌∷◌, ◌++◌, pos, arith, ℤ, some, ◌⊎◌}
use libstlink.Word.{as_int32}
use libstlink.Strto.{strtoul}
use libstlink.Gdb.Remote.{
  Conn, sum_bytes, packet_of, cksum_value, recv_loop, broken, gdb_recv_packet,
}
use libstlink.Gdb.Remote.Loop.{NoHash, frame, between}
use libstlink.Gdb.Remote.Sound.{gdb_recv_packet-Sound}
use libstlink.Gdb.Remote.RoundTrip.{gdb_recv_packet-packet_of}
use libstlink.Gdb.Remote.Retransmit.{retransmission_refused}
use libstlink.Gdb.Remote.Buffer.{gdb_recv_packet_inside}
use libstlink.Stlink.ReadWrite.{read_uint32}

-- "OK"
abbrev reply : List ℕ
reply = b'O' ∷ b'K' ∷ []

abbrev socket : List ℕ → ℕ → Conn
socket input writes = record { input = input; output = []; writes = writes; can_alloc = λ n. true }

packet_of-reply : packet_of reply ≡ b'$' ∷ b'O' ∷ b'K' ∷ b'#' ∷ b'9' ∷ b'a' ∷ []
unfolding packet_of
packet_of-reply = refl

strtoul_prefix : strtoul (b'0' ∷ b'x' ∷ b'1' ∷ b'F' ∷ b' ' ∷ []) 16 ≡ (31, b' ' ∷ [])
unfolding strtoul
strtoul_prefix = refl

strtoul_minus : strtoul (b'-' ∷ b'1' ∷ []) 10 ≡ (0xffffffffffffffff, [])
unfolding strtoul
strtoul_minus = refl

-- "+$OK#9a" and the next byte.
abbrev arriving : Conn
arriving = socket (b'+' ∷ (packet_of reply ++ b'+' ∷ [])) 1

gdb_recv_packet-packet_of_example :
    gdb_recv_packet arriving
    ≡ some (pos 2, reply, record arriving { input = b'+' ∷ []; output = b'+' ∷ []; writes = 0 })
gdb_recv_packet-packet_of_example =
    gdb_recv_packet-packet_of arriving (b'+' ∷ []) reply (b'+' ∷ []) 0 (λ n. refl) (omega arith, tt)
      (omega arith, (omega arith, tt)) refl refl (omega arith)

-- Refused once, then taken.
abbrev answering : Conn
answering = socket (b'-' ∷ b'+' ∷ b'$' ∷ []) 3

-- "OJ" with the checksum of "OK", and the packet sent again.
abbrev corrupt : List ℕ
corrupt = b'O' ∷ b'J' ∷ []

abbrev resending : Conn
resending = socket (frame corrupt b'9' b'a' (packet_of reply ++ [])) 2

wrong_cksum : (cksum_value b'9' b'a' ≡ 0x9a) × (sum_bytes 0 corrupt ≡ 0x99)
unfolding cksum_value sum_bytes
wrong_cksum = (refl, refl)

retransmission_refused_example :
    (size cksum rc : ℕ) × (gdb_recv_packet resending
      ≡ recv_loop []
          (between size cksum rc)
          (record resending { output = b'-' ∷ b'-' ∷ []; writes = 0 }))
retransmission_refused_example =
    retransmission_refused resending corrupt reply [] b'9' b'a' 0 (λ n. refl)
      (omega arith, (omega arith, tt)) (omega arith, (omega arith, tt)) (omega (arith, wrong_cksum))
      (omega (arith, wrong_cksum)) refl refl (omega arith) (omega arith)

gdb_recv_packet_inside_example :
    (code : ℤ) × (packet : List ℕ) × (conn' : Conn) × (gdb_recv_packet resending
      ≡ some (code, packet, conn'))
unfolding packet_of
gdb_recv_packet_inside_example = gdb_recv_packet_inside resending (omega arith)

abbrev bytes : List ℕ
bytes = 0x12 ∷ 0x34 ∷ 0x56 ∷ 0x78 ∷ []

read_bytes : read_uint32 bytes 0 ≡ 0x78563412
unfolding read_uint32
read_bytes = refl

gdb_recv_packet-Sound_example :
    (pos 2 ≡ broken) ⊎ ((pos 2 ≡ as_int32 (length reply)) × NoHash reply)
gdb_recv_packet-Sound_example =
    gdb_recv_packet-Sound arriving
      (record arriving { input = b'+' ∷ []; output = b'+' ∷ []; writes = 0 }) (pos 2) reply
      gdb_recv_packet-packet_of_example
