-- ===== src/Gdb/Remote/Sound.antt =====
-- gdb-remote.c: what a packet that is received looks like, whatever the peer sends.
use mathlib.Core.Path.{subst}
use libstlink.Prelude.{
  ℕ, ◌^◌, ◌<◌, ◌≡◌, ◌≢◌, ◌⊎◌, inl, inr, refl, sym, ap, Bool, Option, none, some, List, [], ◌∷◌,
  ◌++◌, ℤ, arith, length, length-append, Bool-cases, ltb, ◌==◌,
}
use libstlink.Word.{add32, as_int32}
use libstlink.Gdb.Remote.{
  Conn, broken, Recv, RecvState, waiting, in_packet, cksum_1, cksum_2, Event, next, no_memory,
  overrun, complete, write_conn, grow, store, with_byte, alloc_step, step_in, recv_start, restart,
  returned, recv_loop, gdb_recv_packet,
}
use libstlink.Gdb.Remote.Buffer.{Event-cases}
use libstlink.Gdb.Remote.Loop.{NoHash}

-- The bytes stored so far. The size of the buffer is a uint32_t.
record Sound (r : Recv) : Type 0 where
  size_fits : r.packet_size < 2 ^ 32
  filled : length r.packet ≡ r.packet_idx
  clean : NoHash r.packet

abbrev EventSound : Event → Type 0
EventSound (next r) = Sound r
EventSound no_memory = Unit
EventSound overrun = Unit
EventSound (complete r sent) = Sound r

NoHash-append : (xs : List ℕ) (c : ℕ) → NoHash xs → c ≢ b'#' → NoHash (xs ++ c ∷ [])
NoHash-append [] c h k = (k, tt)
NoHash-append (x ∷ xs) c (h, hs) k = (h, NoHash-append xs c hs k)

grow-Sound : (can_alloc : ℕ → Bool) (r : Recv) → Sound r → EventSound (grow can_alloc r)
unfolding grow
grow-Sound can_alloc r h = elim (Bool-cases (r.packet_idx == r.packet_size)) [
  | inr room ↦ rw (grow, room) h
  | inl full ↦ elim (Bool-cases (can_alloc (add32 r.packet_size alloc_step))) [
    | inl grows ↦
        rw (grow, full, grows)
          (record { size_fits = omega arith; filled = h.filled; clean = h.clean })
    | inr fails ↦ rw (grow, full, fails) tt
  ]
]

store-Sound :
    (can_alloc : ℕ → Bool) (c : ℕ) (r : Recv)
    → Sound r
    → c ≢ b'#'
    → EventSound (store can_alloc c r)
unfolding store
store-Sound can_alloc c r h k = elim (Bool-cases (ltb r.packet_idx r.packet_size)) [
  | inl inside ↦
      let filled : length (r.packet ++ c ∷ []) ≡ add32 r.packet_idx 1 =
        ground (arith, length-append r.packet (c ∷ []), h.filled, h.size_fits) in
      rw (store, inside)
        (grow-Sound can_alloc (with_byte c r) (record {
          size_fits = h.size_fits;
          filled = filled;
          clean = NoHash-append r.packet c h.clean k;
        }))
  | inr outside ↦ rw (store, outside) tt
]

step_in-Sound :
    (can_alloc : ℕ → Bool) (s : RecvState) (c : ℕ) (r : Recv)
    → Sound r
    → EventSound (step_in can_alloc s c r)
unfolding step_in
step_in-Sound can_alloc waiting c r h = elim (Bool-cases (c == b'$')) [
  | inl e ↦ rw (step_in, e) (record { size_fits = h.size_fits; filled = h.filled; clean = h.clean })
  | inr e ↦ rw (step_in, e) h
]
step_in-Sound can_alloc in_packet c r h = elim (Bool-cases (c == b'#')) [
  | inl e ↦ rw (step_in, e) (record { size_fits = h.size_fits; filled = h.filled; clean = h.clean })
  | inr e ↦ rw (step_in, e) (store-Sound can_alloc c r h (ground arith))
]
step_in-Sound can_alloc cksum_1 c r h = record {
  size_fits = h.size_fits;
  filled = h.filled;
  clean = h.clean;
}
step_in-Sound can_alloc cksum_2 c r h = h

-- What the function may give.
abbrev pub IsReceived : ℤ → List ℕ → Type 0
IsReceived code packet = (code ≡ broken) ⊎ ((code ≡ as_int32 (length packet)) × NoHash packet)

abbrev pub AllReceived : Option (ℤ × List ℕ × Conn) → Type 0
AllReceived none = Unit
AllReceived (some (code, packet, conn)) = IsReceived code packet

returned-Received : (r : Recv) (conn : Conn) → Sound r → AllReceived (returned r conn)
returned-Received r conn h = elim (Bool-cases (ltb r.packet_idx r.packet_size)) [
  | inl inside ↦ rw (returned, inside) (inr (ap as_int32 (sym h.filled), h.clean))
  | inr outside ↦ rw (returned, outside) tt
]

recv_loop-Sound :
    (input : List ℕ) (r : Recv) (conn : Conn) → Sound r → AllReceived (recv_loop input r conn)
unfolding recv_loop
recv_loop-Sound [] r conn h = inl refl
recv_loop-Sound (c ∷ rest) r conn h =
    let sound = step_in-Sound conn.can_alloc r.state c r h in
    elim (Event-cases (step_in conn.can_alloc r.state c r)) [
      | inl (r', ev) ↦ rw (recv_loop, ev) (recv_loop-Sound rest r' conn (rw ev at sound))
      | inr (inl ev) ↦ rw (recv_loop, ev) (inl refl)
      | inr (inr (inl ev)) ↦ rw (recv_loop, ev) tt
      | inr (inr (inr (r', sent, ev))) ↦
          let sound' : Sound r' = rw ev at sound in
          let (nacked, conn₁) = write_conn conn.writes (b'-' ∷ []) conn in
          let (acked, conn₂) = write_conn conn.writes (b'+' ∷ []) conn in
          elim (Bool-cases (sent == r'.cksum)) [
            | inl same ↦ elim (Bool-cases acked) [
              | inl took ↦
                  rw (recv_loop, ev, same, took)
                    (returned-Received r' (record conn₂ { input = rest }) sound')
              | inr broke ↦ rw (recv_loop, ev, same, broke) (inl refl)
            ]
            | inr differs ↦ elim (Bool-cases nacked) [
              | inl took ↦
                  rw (recv_loop, ev, differs, took)
                    (recv_loop-Sound rest (restart r') conn₁
                      (record { size_fits = sound'.size_fits; filled = refl; clean = tt }))
              | inr broke ↦ rw (recv_loop, ev, differs, broke) (inl refl)
            ]
          ]
    ]

-- Whatever the peer sends and whatever can be allocated, when the function returns, its result is -2, or
-- it is the length of the packet as an int32_t, and the packet has no '#'. So the result is the length
-- itself for packets below 2^31 bytes, and negative from there on.
pub gdb_recv_packet-Sound :
    (conn conn' : Conn) (code : ℤ) (packet : List ℕ)
    → gdb_recv_packet conn ≡ some (code, packet, conn')
    → (code ≡ broken) ⊎ ((code ≡ as_int32 (length packet)) × NoHash packet)
unfolding gdb_recv_packet
gdb_recv_packet-Sound conn conn' code packet e =
    subst AllReceived e (elim (Bool-cases (conn.can_alloc 1025)) [
      | inl fits ↦
          rw (gdb_recv_packet, fits)
            (recv_loop-Sound conn.input recv_start conn
              (record { size_fits = omega arith; filled = refl; clean = tt }))
      | inr fails ↦ rw (gdb_recv_packet, fails) (inl refl)
    ])
