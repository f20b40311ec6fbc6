-- ===== src/Trace.antt =====
-- .deprecated/src/st-trace/trace.c: the decoder of the trace stream of the target. Warnings are left
-- out; the characters printed are the field `output`.
pub mod Packets
pub mod Steps
pub mod Follows
pub mod Overflow
use libstlink.Prelude.{
  ℕ, ◌+◌, ◌-◌, ◌/◌, ◌%◌, ◌^◌, ◌&&◌, ◌||◌, Bool, true, false, not, List, [], ◌∷◌, ◌++◌, ℤ, pos,
  negsuc, bit_and, bit_or, get_or, set, take, ◌==◌, if◌then◌else◌,
}
use libstlink.Word.{add32, shl32, shr32, is_set}

-- TRACE_OP_*
abbrev pub is_overflow : ℕ → Bool
is_overflow c = c == 0x70

abbrev pub is_local_time : ℕ → Bool
is_local_time c = (bit_and c 0x0f == 0) && not (bit_and c 0x70 == 0)

abbrev pub is_extension : ℕ → Bool
is_extension c = bit_and c 0x0b == 0x08

abbrev pub is_global_time : ℕ → Bool
is_global_time c = bit_and c 0xdf == 0x94

abbrev pub is_source : ℕ → Bool
is_source c = not (bit_and c 0x03 == 0)

abbrev pub is_sw_source : ℕ → Bool
is_sw_source c = not (bit_and c 0x03 == 0) && (bit_and c 0x04 == 0)

abbrev pub is_target_source : ℕ → Bool
is_target_source c = c == 0x01

abbrev pub continuation : ℕ → Bool
continuation c = is_set (bit_and c 0x80)

pub data TraceState : Type 0 where
  unknown idle target_source skip_frame skip_4 skip_3 skip_2 skip_1 : TraceState

-- st_trace_t without the time of the start, and what is printed.
pub record Trace : Type 0 where
  pub state : TraceState
  pub count_raw_bytes : ℕ
  pub count_target_data : ℕ
  pub count_time_packets : ℕ
  pub count_hw_overflow : ℕ
  pub count_sw_overflow : ℕ
  pub count_error : ℕ
  pub unknown_opcodes : List ℕ
  pub unknown_sources : ℕ
  pub output : List ℕ

abbrev pub frame_state : ℕ → TraceState
frame_state c = if continuation c then TraceState.skip_frame else TraceState.idle

-- unknown_opcodes[c / 8] |= (1 << c % 8)
abbrev pub mark_opcode : List ℕ → ℕ → List ℕ
mark_opcode opcodes c =
    set opcodes (c / 8) (bit_or (get_or opcodes (c / 8) 0) (2 ^ (c % 8)) % 2 ^ 8)

-- The tests behind the one on the sources, and what they leave.
unfoldable pub update_other : Trace → ℕ → TraceState × Trace
update_other t c =
    if is_local_time c || is_global_time c
    then (frame_state c, record t { count_time_packets = add32 t.count_time_packets 1 })
    else if is_extension c
    then (frame_state c, t)
    else (
      frame_state c,
      record t {
        count_hw_overflow =
            if is_overflow c then add32 t.count_hw_overflow 1 else t.count_hw_overflow;
        unknown_opcodes = mark_opcode t.unknown_opcodes c;
        count_error = add32 t.count_error 1;
      },
    )

abbrev pub mark_source : Trace → ℕ → Trace
mark_source t c =
    if is_sw_source c
    then record t { unknown_sources = bit_or t.unknown_sources (shl32 1 (shr32 c 3)) }
    else t

unfoldable pub update_source : Trace → ℕ → TraceState × Trace
unfolding update_other
update_source t c =
    let size = bit_and c 0x03 in
    if size == 1
    then (TraceState.skip_1, t)
    else if size == 2
    then (TraceState.skip_2, t)
    else if size == 3
    then (TraceState.skip_4, t)
    else update_other t c

unfoldable pub update_trace_idle : Trace → ℕ → TraceState × Trace
unfolding update_source update_other
update_trace_idle t c =
    if is_target_source c
    then (TraceState.target_source, t)
    else if is_source c
    then update_source (mark_source t c) c
    else update_other t c

-- The states from which a byte is taken, and whether the decoder finds its place by it.
abbrev pub synchronised : TraceState → ℕ → TraceState
synchronised TraceState.unknown c =
    if is_target_source c || is_local_time c || is_global_time c
    then TraceState.idle
    else TraceState.unknown
synchronised s c = s

unfoldable pub update_in : TraceState → Trace → ℕ → TraceState × Trace
unfolding update_trace_idle
update_in TraceState.idle t c = update_trace_idle t c
update_in TraceState.target_source t c = (
  TraceState.idle,
  record t { count_target_data = add32 t.count_target_data 1; output = t.output ++ (c ∷ []) },
)
update_in TraceState.skip_frame t c = (frame_state c, t)
update_in TraceState.skip_4 t c = (TraceState.skip_3, t)
update_in TraceState.skip_3 t c = (TraceState.skip_2, t)
update_in TraceState.skip_2 t c = (TraceState.skip_1, t)
update_in TraceState.skip_1 t c = (TraceState.idle, t)
update_in TraceState.unknown t c = (TraceState.unknown, t)

-- trace->state = update_trace(trace, c)
unfoldable pub update_trace : Trace → ℕ → Trace
unfolding update_in
update_trace t c =
    let s = synchronised t.state c in
    let (s', t') =
      update_in s (record t { count_raw_bytes = add32 t.count_raw_bytes 1; state = s }) c in
    record t' { state = s' }

-- The loop over the bytes that were read.
unfoldable pub update_all : Trace → List ℕ → Trace
unfolding update_trace
update_all t [] = t
update_all t (c ∷ cs) = update_all (update_trace t c) cs

abbrev pub trace_buf_len : ℕ
trace_buf_len = 8192

-- The length that stlink_trace_read gives, and the buffer.
unfoldable pub read_trace : ℤ → List ℕ → Trace → Bool × Trace
unfolding update_all
read_trace (negsuc n) bytes t = (false, t)
read_trace (pos n) bytes t =
    if n == 0
    then (true, t)
    else if n == trace_buf_len
    then (
      true,
      update_all
          (record t { count_sw_overflow = add32 t.count_sw_overflow 1; state = TraceState.unknown })
          bytes,
    )
    else (true, update_all t (take n bytes))
