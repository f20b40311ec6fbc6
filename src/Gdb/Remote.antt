-- ===== src/Gdb/Remote.antt =====
-- .deprecated/src/st-util/gdb-remote.c: packets of the gdb remote protocol over a socket.
pub mod Checksum
pub mod Loop
pub mod RoundTrip
pub mod Retransmit
pub mod Buffer
pub mod Sound
use libstlink.Prelude.{
  ℕ, zero, suc, ◌+◌, ◌-◌, ◌/◌, ◌%◌, ◌^◌, Bool, true, false, List, [], ◌∷◌, ◌++◌, ℤ, pos, negsuc,
  ltb, ◌==◌, if◌then◌else◌, Option, none, some,
}
use libstlink.Word.{add32, as_int32}
use libstlink.Strto.{strtoul}

-- The socket and the allocator: the bytes that the peer sends before it closes the connection, the
-- bytes sent to it, how many more writes it takes, and the sizes for which `realloc` succeeds.
pub record Conn : Type 0 where
  pub input : List ℕ
  pub output : List ℕ
  pub writes : ℕ
  pub can_alloc : ℕ → Bool

-- `return (-2)`: the connection or the memory failed.
abbrev pub broken : ℤ
broken = negsuc 1

abbrev pub hex_digit : ℕ → ℕ
hex_digit d = if ltb d 10 then b'0' + d else b'a' + (d - 10)

-- The sum of the bytes as uint8_t.
unfoldable pub sum_bytes : ℕ → List ℕ → ℕ
sum_bytes cksum [] = cksum
sum_bytes cksum (c ∷ cs) = sum_bytes ((cksum + c) % 2 ^ 8) cs

-- '$' data '#' and the checksum in hex.
unfoldable pub packet_of : List ℕ → List ℕ
unfolding sum_bytes
packet_of chars =
    let cksum = sum_bytes 0 chars in
    b'$' ∷ (chars ++ (b'#' ∷ hex_digit (cksum / 2 ^ 4) ∷ hex_digit (cksum % 2 ^ 4) ∷ []))

-- One `write` of a whole buffer; it fails when the peer takes no more.
unfoldable pub write_conn : ℕ → List ℕ → Conn → Bool × Conn
write_conn zero bytes conn = (false, conn)
write_conn (suc left) bytes conn =
    (true, record conn { output = conn.output ++ bytes; writes = left })

-- The loop of `gdb_send_packet` over the answers of the peer, which are the bytes of `conn.input`: the
-- packet is sent again until the answer is '+'.
unfoldable pub send_loop : List ℕ → List ℕ → Conn → ℤ × Conn
unfolding write_conn
send_loop packet [] conn =
    let (done, conn') = write_conn conn.writes packet conn in (broken, record conn' { input = [] })
send_loop packet (ack ∷ rest) conn =
    let (done, conn') = write_conn conn.writes packet conn in
    let again = send_loop packet rest (record conn' { input = rest }) in
    if done
    then (if ack == b'+' then (pos 0, record conn' { input = rest }) else again)
    else (broken, conn')

unfoldable pub gdb_send_packet : List ℕ → Conn → ℤ × Conn
unfolding packet_of send_loop
gdb_send_packet chars conn = send_loop (packet_of chars) conn.input conn

abbrev pub alloc_step : ℕ
alloc_step = 1024

pub data RecvState : Type 0 where
  waiting in_packet cksum_1 cksum_2 : RecvState

-- The variables of `gdb_recv_packet`; `packet` holds the first `packet_idx` bytes of the buffer, and the two
-- sizes are of the type uint32_t.
pub record Recv : Type 0 where
  pub state : RecvState
  pub packet_size : ℕ
  pub packet_idx : ℕ
  pub packet : List ℕ
  pub cksum : ℕ
  pub recv_cksum : ℕ

abbrev pub recv_start : Recv
recv_start = record {
  state = waiting;
  packet_size = alloc_step + 1;
  packet_idx = 0;
  packet = [];
  cksum = 0;
  recv_cksum = 0;
}

-- What one byte does.
pub data Event : Type 0 where
  -- The loop goes on.
  next : Recv → Event
  -- `realloc` failed.
  no_memory : Event
  -- The byte would be written behind the end of the buffer, which has no defined outcome.
  overrun : Event
  -- The packet is complete, with the checksum that was sent.
  complete : Recv → ℕ → Event

-- The buffer grows when it is full. Its size wraps around at 2^32.
unfoldable pub grow : (ℕ → Bool) → Recv → Event
grow can_alloc r =
    let size = add32 r.packet_size alloc_step in
    if r.packet_idx == r.packet_size
    then (if can_alloc size then next (record r { packet_size = size }) else no_memory)
    else next r

-- packet_buffer[packet_idx++] = c
abbrev pub with_byte : ℕ → Recv → Recv
with_byte c r = record r {
  packet = r.packet ++ c ∷ [];
  packet_idx = add32 r.packet_idx 1;
  cksum = (r.cksum + c) % 2 ^ 8;
}

-- State 1.
unfoldable pub store : (ℕ → Bool) → ℕ → Recv → Event
unfolding grow
store can_alloc c r =
    if ltb r.packet_idx r.packet_size then grow can_alloc (with_byte c r) else overrun

-- The two characters as strtoul reads them at base 16, cut to uint8_t.
unfoldable pub cksum_value : ℕ → ℕ → ℕ
unfolding strtoul
cksum_value c₁ c₂ = (strtoul (c₁ ∷ c₂ ∷ []) 16).0 % 2 ^ 8

unfoldable pub step_in : (ℕ → Bool) → RecvState → ℕ → Recv → Event
unfolding store
step_in can_alloc waiting c r = if c == b'$' then next (record r { state = in_packet }) else next r
step_in can_alloc in_packet c r =
    if c == b'#' then next (record r { state = cksum_1 }) else store can_alloc c r
step_in can_alloc cksum_1 c r = next (record r { recv_cksum = c; state = cksum_2 })
step_in can_alloc cksum_2 c r = complete r (cksum_value r.recv_cksum c)

-- `goto start`: the buffer stays, and so does `cksum`.
abbrev pub restart : Recv → Recv
restart r = record r { state = waiting; packet_idx = 0; packet = [] }

-- packet_buffer[packet_idx] = 0, inside the buffer, and the result: packet_idx as int32_t.
abbrev pub returned : Recv → Conn → Option (ℤ × List ℕ × Conn)
returned r conn =
    if ltb r.packet_idx r.packet_size then some (as_int32 r.packet_idx, r.packet, conn) else none

-- The result of the function, with the packet itself. A wrong checksum is answered by '-', and the loop
-- starts again. `none`: a byte is written behind the end of the buffer.
unfoldable pub recv_loop : List ℕ → Recv → Conn → Option (ℤ × List ℕ × Conn)
unfolding step_in write_conn
recv_loop [] r conn = some (broken, [], record conn { input = [] })
recv_loop (c ∷ rest) r conn = elim (step_in conn.can_alloc r.state c r) [
  | next r' ↦ recv_loop rest r' conn
  | no_memory ↦ some (broken, [], record conn { input = rest })
  | overrun ↦ none
  | complete r' sent ↦
      let (nacked, conn₁) = write_conn conn.writes (b'-' ∷ []) conn in
      let (acked, conn₂) = write_conn conn.writes (b'+' ∷ []) conn in
      elim (sent == r'.cksum) [
        | false ↦ elim nacked [
          | true ↦ recv_loop rest (restart r') conn₁
          | false ↦ some (broken, [], record conn { input = rest })
        ]
        | true ↦ elim acked [
          | true ↦ returned r' (record conn₂ { input = rest })
          | false ↦ some (broken, [], record conn { input = rest })
        ]
      ]
]

unfoldable pub gdb_recv_packet : Conn → Option (ℤ × List ℕ × Conn)
unfolding recv_loop
gdb_recv_packet conn =
    if conn.can_alloc (alloc_step + 1)
    then recv_loop conn.input recv_start conn
    else some (broken, [], conn)

-- `poll` reports something to read when there is a byte, or when the peer has closed.
interrupt_in : Bool → List ℕ → Conn → ℤ × Conn
interrupt_in closed [] conn = (if closed then broken else pos 0, conn)
interrupt_in closed (c ∷ rest) conn =
    (if c == 3 then pos 1 else pos 0, record conn { input = rest })

unfoldable pub gdb_check_for_interrupt : Bool → Conn → ℤ × Conn
unfolding interrupt_in
gdb_check_for_interrupt closed conn = interrupt_in closed conn.input conn
