-- ===== src/Tests/Decoder.antt =====
-- A stream of trace packets.
use libstlink.Prelude.{◌≡◌, refl, List, [], ◌∷◌, ◌++◌}
use libstlink.Trace.{Trace, TraceState, update_all}
use libstlink.Trace.Packets.{Packet, stream, target_bytes}
use libstlink.Trace.Follows.{update_all-stream}
use libstlink.Trace.Overflow.{update_all-count_hw_overflow}

abbrev quiet : Trace
quiet = record {
  state = TraceState.idle;
  count_raw_bytes = 0;
  count_target_data = 0;
  count_time_packets = 0;
  count_hw_overflow = 0;
  count_sw_overflow = 0;
  count_error = 0;
  unknown_opcodes = [];
  unknown_sources = 0;
  output = [];
}

-- A byte of the target, a packet of two bytes, a timestamp of two bytes and another byte.
abbrev packets : List Packet
packets =
    Packet.target b'h'
    ∷ Packet.source 0x0a (7 ∷ 8 ∷ [])
    ∷ Packet.other 0xc0 (0x05 ∷ [])
    ∷ Packet.target b'i'
    ∷ []

update_all-stream_example :
    ((update_all quiet (stream packets)).state ≡ TraceState.idle)
    × ((update_all quiet (stream packets)).output ≡ quiet.output ++ target_bytes packets)
update_all-stream_example =
    update_all-stream packets quiet
      (tt, ((refl, refl, refl), ((refl, refl, (refl, refl)), (tt, tt)))) refl

update_all-count_hw_overflow_example :
    (update_all quiet (0x70 ∷ [])).count_hw_overflow ≡ quiet.count_hw_overflow
update_all-count_hw_overflow_example = update_all-count_hw_overflow (0x70 ∷ []) quiet
