-- ===== src/Trace/Follows.antt =====
-- trace.c: the decoder follows the packets of the stream.
use mathlib.Core.List.{append_assoc, append-nil}
use libstlink.Prelude.{
  ℕ, ◌≡◌, ◌∙◌, refl, sym, ap, List, [], ◌∷◌, ◌++◌, length, All, bit_and, ◌==◌, Bool-cases, inl, inr,
  arith,
}
use libstlink.Trace.{
  Trace, TraceState, frame_state, update_trace_idle, update_in, update_trace, update_all,
}
use libstlink.Trace.Packets.{
  Packet, IsPacket, Continued, payload_size, packet_bytes, stream, target_bytes,
}
use libstlink.Trace.Steps.{
  At, At-refl, step_At, update_all-append, skip_state, idle_source, idle_other,
}

-- The bytes that continue a packet.
rest_run :
    (c : ℕ) (rest out : List ℕ) (t : Trace)
    → Continued c rest
    → At (frame_state c) out t
    → At TraceState.idle out (update_all t rest)
unfolding update_all update_in At
rest_run c [] out t last at = rw last at at
rest_run c (b ∷ bs) out t (more, continued) at =
    rest_run b bs out (update_trace t b) continued
      (step_At TraceState.skip_frame (frame_state b) out out t b (λ u o. (refl, o)) (rw more at at))

-- The bytes of a payload, from the state that counts them.
run_1 :
    (payload out : List ℕ) (t : Trace)
    → length payload ≡ 1
    → At TraceState.skip_1 out t
    → At TraceState.idle out (update_all t payload)
unfolding update_all update_in
run_1 [] out t size at = absurd (omega arith)
run_1 (a ∷ []) out t size at =
    step_At TraceState.skip_1 TraceState.idle out out t a
      (λ u o. At-refl TraceState.idle out _ refl o) at
run_1 (a ∷ b ∷ payload) out t size at = absurd (omega arith)

run_2 :
    (payload out : List ℕ) (t : Trace)
    → length payload ≡ 2
    → At TraceState.skip_2 out t
    → At TraceState.idle out (update_all t payload)
unfolding update_all update_in
run_2 [] out t size at = absurd (omega arith)
run_2 (a ∷ payload) out t size at = run_1 payload out (update_trace t a) (omega arith) (
    step_At TraceState.skip_2 TraceState.skip_1 out out t a
      (λ u o. At-refl TraceState.skip_1 out _ refl o) at)

run_4 :
    (payload out : List ℕ) (t : Trace)
    → length payload ≡ 4
    → At TraceState.skip_4 out t
    → At TraceState.idle out (update_all t payload)
unfolding update_all update_in
run_4 [] out t size at = absurd (omega arith)
run_4 (a ∷ []) out t size at = absurd (omega arith)
run_4 (a ∷ b ∷ payload) out t size at =
    run_2 payload out (update_trace (update_trace t a) b) (omega arith) (
      step_At TraceState.skip_3 TraceState.skip_2 out out (update_trace t a) b
        (λ u o. At-refl TraceState.skip_2 out _ refl o)
        (step_At TraceState.skip_4 TraceState.skip_3 out out t a
          (λ u o. At-refl TraceState.skip_3 out _ refl o) at))

skip_run :
    (c : ℕ) (payload out : List ℕ) (t : Trace)
    → length payload ≡ payload_size c
    → At (skip_state (bit_and c 3)) out t
    → At TraceState.idle out (update_all t payload)
skip_run c payload out t size at = elim (Bool-cases (bit_and c 3 == 1)) [
  | inl one ↦ run_1 payload out t (rw one at size) (rw one at at)
  | inr not_one ↦ elim (Bool-cases (bit_and c 3 == 2)) [
    | inl two ↦ run_2 payload out t (rw (not_one, two) at size) (rw (not_one, two) at at)
    | inr not_two ↦
        run_4 payload out t (rw (not_one, not_two) at size) (rw (not_one, not_two) at at)
  ]
]

packet_run :
    (p : Packet) (out : List ℕ) (t : Trace)
    → IsPacket p
    → At TraceState.idle out t
    → At TraceState.idle (out ++ target_bytes (p ∷ [])) (update_all t (packet_bytes p))
unfolding update_all update_in update_trace_idle
packet_run (Packet.target b) out t ok at =
    step_At TraceState.target_source TraceState.idle out (out ++ (b ∷ [])) (update_trace t 1) b
      (λ u o. At-refl TraceState.idle (out ++ (b ∷ [])) _ refl (ap (λ l. l ++ (b ∷ [])) o))
      (step_At TraceState.idle TraceState.target_source out out t 1
        (λ u o. At-refl TraceState.target_source out _ refl o) at)
packet_run (Packet.source c payload) out t (no_target, src, size) at = rw (append-nil out) (
    skip_run c payload out (update_trace t c) size (
      step_At TraceState.idle (skip_state (bit_and c 3)) out out t c
        (λ u o. idle_source c out u no_target src o) at))
packet_run (Packet.other c rest) out t (no_target, no_source, continued) at = rw (append-nil out) (
    rest_run c rest out (update_trace t c) continued (
      step_At TraceState.idle (frame_state c) out out t c
        (λ u o. idle_other c out u no_target no_source o) at))

target_bytes-cons :
    (p : Packet) (ps : List Packet)
    → target_bytes (p ∷ ps) ≡ target_bytes (p ∷ []) ++ target_bytes ps
target_bytes-cons (Packet.target b) ps = refl
target_bytes-cons (Packet.source c payload) ps = refl
target_bytes-cons (Packet.other c rest) ps = refl

-- From the idle state, the decoder prints the bytes of the target, one for each packet with
-- the header 0x01. It prints nothing for every other packet, those of two and of four bytes of the first port
-- (headers 0x02 and 0x03) among them, skips its payload or its continuation, and is idle again.
pub update_all-stream :
    (ps : List Packet) (t : Trace)
    → All IsPacket ps
    → t.state ≡ TraceState.idle
    → ((update_all t (stream ps)).state ≡ TraceState.idle)
      × ((update_all t (stream ps)).output ≡ t.output ++ target_bytes ps)
unfolding At update_all
update_all-stream [] t ok idle = (idle, sym (append-nil t.output))
update_all-stream (p ∷ ps) t (ok, oks) idle =
    let (state, output) = packet_run p t.output t ok (idle, refl) in
    let (state', output') = update_all-stream ps (update_all t (packet_bytes p)) oks state in
    let e = update_all-append t (packet_bytes p) (stream ps) in
    (
      ap (λ u. u.state) e ∙ state',
      ap (λ u. u.output) e
          ∙ output'
          ∙ ap (λ l. l ++ target_bytes ps) output
          ∙ append_assoc t.output (target_bytes (p ∷ [])) (target_bytes ps)
          ∙ ap (t.output ++◌) (sym (target_bytes-cons p ps)),
    )
