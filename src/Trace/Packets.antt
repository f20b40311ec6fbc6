-- ===== src/Trace/Packets.antt =====
-- trace.c: the packets of a trace stream.
use libstlink.Prelude.{
  ℕ, ◌≡◌, true, false, List, [], ◌∷◌, ◌++◌, length, bit_and, ◌==◌, if◌then◌else◌,
}
use libstlink.Trace.{is_target_source, is_source, continuation}

-- A byte of the target behind the header 0x01, a packet of another source header with its payload, and a packet of another kind with
-- the bytes that continue it.
pub data Packet : Type 0 where
  target : ℕ → Packet
  source : ℕ → List ℕ → Packet
  other : ℕ → List ℕ → Packet

abbrev pub payload_size : ℕ → ℕ
payload_size c = if bit_and c 0x03 == 1 then 1 else if bit_and c 0x03 == 2 then 2 else 4

-- Every byte but the last has its highest bit set.
abbrev pub Continued : ℕ → List ℕ → Type 0
Continued c [] = continuation c ≡ false
Continued c (b ∷ bs) = (continuation c ≡ true) × Continued b bs

abbrev pub IsPacket : Packet → Type 0
IsPacket (Packet.target b) = Unit
IsPacket (Packet.source c payload) =
    (is_target_source c ≡ false) × (is_source c ≡ true) × (length payload ≡ payload_size c)
IsPacket (Packet.other c rest) =
    (is_target_source c ≡ false) × (is_source c ≡ false) × Continued c rest

abbrev pub packet_bytes : Packet → List ℕ
packet_bytes (Packet.target b) = 1 ∷ b ∷ []
packet_bytes (Packet.source c payload) = c ∷ payload
packet_bytes (Packet.other c rest) = c ∷ rest

abbrev pub stream : List Packet → List ℕ
stream [] = []
stream (p ∷ ps) = packet_bytes p ++ stream ps

-- The bytes of the target.
abbrev pub target_bytes : List Packet → List ℕ
target_bytes [] = []
target_bytes (Packet.target b ∷ ps) = b ∷ target_bytes ps
target_bytes (p ∷ ps) = target_bytes ps
