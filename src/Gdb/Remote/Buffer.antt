-- ===== src/Gdb/Remote/Buffer.antt =====
-- gdb-remote.c: the bytes of a packet stay inside the buffer.
use libstlink.Prelude.{
  ℕ, ◌+◌, ◌^◌, ◌≤◌, ◌<◌, ◌≡◌, ◌⊎◌, inl, inr, refl, Bool, true, some, List, [], ◌∷◌, ℤ, arith,
  length, length-append, ltb, ◌==◌, Bool-cases,
}
use libstlink.Word.{as_int32}
use libstlink.Gdb.Remote.{
  Conn, broken, Recv, RecvState, waiting, in_packet, cksum_1, cksum_2, Event, next, no_memory,
  overrun, complete, write_conn, alloc_step, step_in, recv_start, restart, returned, recv_loop,
  gdb_recv_packet,
}

pub Event-cases :
    (e : Event)
    → ((r : Recv) × (e ≡ next r))
      ⊎ ((e ≡ no_memory) ⊎ ((e ≡ overrun) ⊎ ((r : Recv) × (sent : ℕ) × (e ≡ complete r sent))))
Event-cases (next r) = inl (r, refl)
Event-cases no_memory = inr (inl refl)
Event-cases overrun = inr (inr (inl refl))
Event-cases (complete r sent) = inr (inr (inr (r, sent, refl)))

-- There is room for one more byte, or for the final NUL, and no more than n bytes stand in the buffer.
record Fits (n : ℕ) (r : Recv) : Type 0 where
  room : r.packet_idx < r.packet_size
  filled : length r.packet ≡ r.packet_idx
  few : r.packet_idx ≤ n

abbrev EventFits : ℕ → Event → Type 0
EventFits n (next r) = Fits n r
EventFits n no_memory = Unit
EventFits n overrun = ⊥
EventFits n (complete r sent) = Fits n r

-- A byte that is read keeps the write position inside the buffer, where its size does not wrap around.
step_in-Fits :
    (can_alloc : ℕ → Bool) (s : RecvState) (c n : ℕ) (r : Recv)
    → Fits n r
    → n + 1 + alloc_step < 2 ^ 32
    → EventFits (n + 1) (step_in can_alloc s c r)
unfolding step_in
step_in-Fits can_alloc waiting c n r h small = ground arith
step_in-Fits can_alloc in_packet c n r h small = ground (arith, length-append r.packet (c ∷ []))
step_in-Fits can_alloc cksum_1 c n r h small = ground arith
step_in-Fits can_alloc cksum_2 c n r h small = ground arith

-- The loop from any place where the bytes to come leave the size of the buffer below 2^32.
recv_loop-Fits :
    (input : List ℕ) (n : ℕ) (r : Recv) (conn : Conn)
    → Fits n r
    → n + length input + alloc_step < 2 ^ 32
    → (code : ℤ) × (packet : List ℕ) × (conn' : Conn) × (recv_loop input r conn
        ≡ some (code, packet, conn'))
unfolding recv_loop
recv_loop-Fits [] n r conn h small = (broken, [], record conn { input = [] }, refl)
recv_loop-Fits (c ∷ rest) n r conn h small =
    let fits = step_in-Fits conn.can_alloc r.state c n r h (omega arith) in
    elim (Event-cases (step_in conn.can_alloc r.state c r)) [
      | inl (r', ev) ↦
          let (code, packet, conn', ran) =
            recv_loop-Fits rest (n + 1) r' conn (rw ev at fits) (omega arith) in
          (code, packet, conn', rw (recv_loop, ev) ran)
      | inr (inl ev) ↦ (broken, [], record conn { input = rest }, rw (recv_loop, ev) refl)
      | inr (inr (inl ev)) ↦ absurd (rw ev at fits)
      | inr (inr (inr (r', sent, ev))) ↦
          let fits' : Fits (n + 1) r' = rw ev at fits in
          let (nacked, conn₁) = write_conn conn.writes (b'-' ∷ []) conn in
          let (acked, conn₂) = write_conn conn.writes (b'+' ∷ []) conn in
          let inside : ltb r'.packet_idx r'.packet_size ≡ true = ground (arith, fits'.room) in
          elim (Bool-cases (sent == r'.cksum)) [
            | inl same ↦ elim (Bool-cases acked) [
              | inl took ↦ (
                as_int32 r'.packet_idx,
                r'.packet,
                record conn₂ { input = rest },
                rw (recv_loop, ev, same, took, returned, inside) refl,
              )
              | inr broke ↦
                  (broken, [], record conn { input = rest }, rw (recv_loop, ev, same, broke) refl)
            ]
            | inr differs ↦ elim (Bool-cases nacked) [
              | inl took ↦
                  let again : Fits (n + 1) (restart r') = record {
                    room = omega (arith, fits'.room);
                    filled = refl;
                    few = omega arith;
                  } in
                  let (code, packet, conn', ran) =
                    recv_loop-Fits rest (n + 1) (restart r') conn₁ again (omega arith) in
                  (code, packet, conn', rw (recv_loop, ev, differs, took) ran)
              | inr broke ↦ (
                broken,
                [],
                record conn { input = rest },
                rw (recv_loop, ev, differs, broke) refl,
              )
            ]
          ]
    ]

-- Where at most 2^32 - 1025 bytes arrive, whatever they are, whichever sizes can be allocated and whatever
-- the peer takes, gdb_recv_packet returns without writing a byte behind the end of its buffer: not one of the
-- data, over any number of refused packets, and not the final NUL.
pub gdb_recv_packet_inside :
    (conn : Conn)
    → length conn.input + 1024 < 2 ^ 32
    → (code : ℤ) × (packet : List ℕ) × (conn' : Conn) × (gdb_recv_packet conn
        ≡ some (code, packet, conn'))
unfolding gdb_recv_packet
gdb_recv_packet_inside conn small = elim (Bool-cases (conn.can_alloc (alloc_step + 1))) [
  | inl fits ↦
      let (code, packet, conn', ran) =
        recv_loop-Fits conn.input 0 recv_start conn
          (record { room = omega arith; filled = refl; few = omega arith }) (omega arith) in
      (code, packet, conn', rw (gdb_recv_packet, fits) ran)
  | inr fails ↦ (broken, [], conn, rw (gdb_recv_packet, fails) refl)
]
