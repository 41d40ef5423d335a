-- ===== src/Input/Datagrams.antt =====
-- From the receiver's InputForwarder to the device: a serialized event is handled as that event.
use display_bridge.Prelude.{
  ℕ, ◌+◌, ◌<◌, ◌≡◌, refl, arith, false, List, [], ◌++◌, length, ltb, le→ltb, lt→ltb, ==_iff, ◌≢◌,
  ne→==,
}
use display_bridge.Protocol.{
  PacketHeader, InputEvent, packet_header_bytes, serialize_input_event, packet_header_at,
  packet_header_size, input_event_size, pkt_input_event, le_bytes,
}
use display_bridge.Protocol.Layout.{
  PacketFits, EventFits, packet_header_at-bytes, input_event_at-serialize, drop_packet_header,
}
use display_bridge.Input.{EventCodes, handle_input_event, handle_datagram}

long_datagram :
    (p : PacketHeader) (e : InputEvent) (rest : List ℕ)
    → ltb
        (length (packet_header_bytes p ++ (serialize_input_event e ++ rest)))
        (packet_header_size + input_event_size)
      ≡ false
unfolding packet_header_bytes serialize_input_event le_bytes
long_datagram p e rest = le→ltb _ 24 (omega arith)

-- A datagram that is a packet header of the input type and an event, as the receiver serializes
-- them, with anything after them, is handled as that very event; one that is shorter than 24 bytes
-- or has another packet type is dropped.
pub handle_datagram_lem :
    (codes : EventCodes) (p : PacketHeader) (e : InputEvent) (rest short other : List ℕ)
    → PacketFits p
    → EventFits e
    → p.packet_type ≡ pkt_input_event
    → length short < 24
    → (packet_header_at other).packet_type ≢ pkt_input_event
    → (handle_datagram codes (packet_header_bytes p ++ (serialize_input_event e ++ rest))
        ≡ handle_input_event codes e)
      × (handle_datagram codes short ≡ [])
      × (handle_datagram codes other ≡ [])
unfolding handle_datagram
handle_datagram_lem codes p e rest short other hp he kind h o = (
  rw
      (
        long_datagram p e rest,
        packet_header_at-bytes p (serialize_input_event e ++ rest) hp,
        drop_packet_header p (serialize_input_event e ++ rest),
        input_event_at-serialize e rest he,
        (==_iff p.packet_type pkt_input_event).1 kind,
      )
      refl,
  ground (arith, lt→ltb (length short) 24 h),
  ground (arith, ne→== (packet_header_at other).packet_type pkt_input_event o),
)
