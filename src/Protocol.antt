-- ===== src/Protocol.antt =====
-- The wire format: shared/protocol.h, and its mirror on the receiver,
-- mac/Sources/DisplayBridgeReceiver/Protocol.swift. The C side copies structs, which on its
-- little-endian hosts puts the low byte first, as the Swift side does explicitly. An `int16_t` is
-- its two's complement pattern.
pub mod Layout
use display_bridge.Prelude.{
  ℕ, zero, suc, ◌+◌, ◌*◌, ◌/◌, ◌%◌, Option, none, some, List, [], ◌∷◌, ◌++◌, ltb, if◌then◌else◌,
  length, take, drop,
}

-- The `n` low bytes of a number, low byte first.
unfoldable pub le_bytes : ℕ → ℕ → List ℕ
le_bytes zero v = []
le_bytes (suc n) v = (v % 256) ∷ le_bytes n (v / 256)

unfoldable pub le_value : List ℕ → ℕ
le_value [] = 0
le_value (b ∷ bs) = b + 256 * le_value bs

-- `loadLE` of `n` bytes at an offset.
unfoldable pub field : ℕ → ℕ → List ℕ → ℕ
unfolding le_value
field offset n bytes = le_value (take n (drop offset bytes))

-- `db_packet_header_t`
pub record PacketHeader : Type 0 where
  pub packet_type : ℕ
  pub flags : ℕ
  pub seq : ℕ
  pub timestamp : ℕ
  pub payload_size : ℕ
  pub reserved : ℕ

-- `db_video_header_t`
pub record VideoHeader : Type 0 where
  pub width : ℕ
  pub height : ℕ
  pub codec : ℕ
  pub keyframe : ℕ
  pub reserved : ℕ
  pub pts : ℕ

-- `db_input_event_t`
pub record InputEvent : Type 0 where
  pub event_type : ℕ
  pub reserved : ℕ
  pub x : ℕ
  pub y : ℕ
  pub value : ℕ

abbrev pub packet_header_size : ℕ
packet_header_size = 16

abbrev pub video_header_size : ℕ
video_header_size = 16

abbrev pub input_event_size : ℕ
input_event_size = 8

abbrev pub pkt_video_frame : ℕ
pkt_video_frame = 0x01

abbrev pub pkt_input_event : ℕ
pkt_input_event = 0x02

abbrev pub pkt_heartbeat : ℕ
pkt_heartbeat = 0x04

abbrev pub codec_hevc : ℕ
codec_hevc = 1

abbrev pub target_width : ℕ
target_width = 2880

abbrev pub target_height : ℕ
target_height = 1800

-- The bytes of the structs.
unfoldable pub packet_header_bytes : PacketHeader → List ℕ
unfolding le_bytes
packet_header_bytes p =
    le_bytes 1 p.packet_type
    ++ (le_bytes 1 p.flags
        ++ (le_bytes 2 p.seq
            ++ (le_bytes 4 p.timestamp ++ (le_bytes 4 p.payload_size ++ le_bytes 4 p.reserved))))

unfoldable pub video_header_bytes : VideoHeader → List ℕ
unfolding le_bytes
video_header_bytes v =
    le_bytes 2 v.width
    ++ (le_bytes 2 v.height
        ++ (le_bytes 1 v.codec
            ++ (le_bytes 1 v.keyframe ++ (le_bytes 2 v.reserved ++ le_bytes 8 v.pts))))

-- The casts of a buffer to `const db_packet_header_t *` and `const db_input_event_t *`.
unfoldable pub packet_header_at : List ℕ → PacketHeader
unfolding field
packet_header_at bytes = record {
  packet_type = field 0 1 bytes;
  flags = field 1 1 bytes;
  seq = field 2 2 bytes;
  timestamp = field 4 4 bytes;
  payload_size = field 8 4 bytes;
  reserved = field 12 4 bytes;
}

unfoldable pub input_event_at : List ℕ → InputEvent
unfolding field
input_event_at bytes = record {
  event_type = field 0 1 bytes;
  reserved = field 1 1 bytes;
  x = field 2 2 bytes;
  y = field 4 2 bytes;
  value = field 6 2 bytes;
}

-- `DBPacketHeader.init?(data:)` of the receiver.
unfoldable pub parse_packet_header : List ℕ → Option PacketHeader
unfolding packet_header_at
parse_packet_header bytes =
    if ltb (length bytes) packet_header_size then none else some (packet_header_at bytes)

-- `DBVideoHeader.init?(data:)`
unfoldable pub parse_video_header : List ℕ → Option VideoHeader
unfolding field
parse_video_header bytes =
    if ltb (length bytes) video_header_size
    then none
    else some (record {
      width = field 0 2 bytes;
      height = field 2 2 bytes;
      codec = field 4 1 bytes;
      keyframe = field 5 1 bytes;
      reserved = field 6 2 bytes;
      pts = field 8 8 bytes;
    })

-- `DBPacketHeader.serialize` and `DBInputEvent.serialize` of the receiver.
unfoldable pub serialize_input_event : InputEvent → List ℕ
unfolding le_bytes
serialize_input_event e =
    le_bytes 1 e.event_type
    ++ (le_bytes 1 e.reserved ++ (le_bytes 2 e.x ++ (le_bytes 2 e.y ++ le_bytes 2 e.value)))
