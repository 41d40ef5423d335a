-- ===== src/Protocol/Layout.antt =====
-- The structs of the wire format read back.
use display_bridge.Prelude.{
  ℕ, le→ltb, ltb, false, drop, ◌^◌, ◌<◌, ◌≡◌, refl, arith, some, List, ◌++◌, length,
}
use display_bridge.Protocol.{
  le_bytes, le_value, field, PacketHeader, VideoHeader, InputEvent, packet_header_bytes,
  video_header_bytes, packet_header_size, packet_header_at, parse_packet_header, parse_video_header,
  serialize_input_event, input_event_at,
}

-- The values that the fields of the structs can hold.
pub record PacketFits (p : PacketHeader) : Type 0 where
  pub type_fits : p.packet_type < 2 ^ 8
  pub flags_fits : p.flags < 2 ^ 8
  pub seq_fits : p.seq < 2 ^ 16
  pub timestamp_fits : p.timestamp < 2 ^ 32
  pub size_fits : p.payload_size < 2 ^ 32
  pub reserved_fits : p.reserved < 2 ^ 32

pub record VideoFits (v : VideoHeader) : Type 0 where
  pub width_fits : v.width < 2 ^ 16
  pub height_fits : v.height < 2 ^ 16
  pub codec_fits : v.codec < 2 ^ 8
  pub keyframe_fits : v.keyframe < 2 ^ 8
  pub reserved_fits : v.reserved < 2 ^ 16
  pub pts_fits : v.pts < 2 ^ 64

pub record EventFits (e : InputEvent) : Type 0 where
  pub type_fits : e.event_type < 2 ^ 8
  pub reserved_fits : e.reserved < 2 ^ 8
  pub x_fits : e.x < 2 ^ 16
  pub y_fits : e.y < 2 ^ 16
  pub value_fits : e.value < 2 ^ 16

one_byte : (v : ℕ) → v < 2 ^ 8 → le_value (le_bytes 1 v) ≡ v
unfolding le_bytes le_value
one_byte v h = omega arith

two_bytes : (v : ℕ) → v < 2 ^ 16 → le_value (le_bytes 2 v) ≡ v
unfolding le_bytes le_value
two_bytes v h = omega arith

four_bytes : (v : ℕ) → v < 2 ^ 32 → le_value (le_bytes 4 v) ≡ v
unfolding le_bytes le_value
four_bytes v h = omega arith

eight_bytes : (v : ℕ) → v < 2 ^ 64 → le_value (le_bytes 8 v) ≡ v
unfolding le_bytes le_value
eight_bytes v h = omega arith

pub packet_header_at-bytes :
    (p : PacketHeader) (rest : List ℕ)
    → PacketFits p
    → packet_header_at (packet_header_bytes p ++ rest) ≡ p
unfolding packet_header_at packet_header_bytes field le_bytes le_value
packet_header_at-bytes p rest h = λ i. record {
  packet_type = one_byte p.packet_type h.type_fits i;
  flags = one_byte p.flags h.flags_fits i;
  seq = two_bytes p.seq h.seq_fits i;
  timestamp = four_bytes p.timestamp h.timestamp_fits i;
  payload_size = four_bytes p.payload_size h.size_fits i;
  reserved = four_bytes p.reserved h.reserved_fits i;
}

-- The bytes after a packet header.
pub drop_packet_header :
    (p : PacketHeader) (rest : List ℕ)
    → drop packet_header_size (packet_header_bytes p ++ rest) ≡ rest
unfolding packet_header_bytes le_bytes
drop_packet_header p rest = refl

long_packet :
    (p : PacketHeader) (rest : List ℕ) → ltb (length (packet_header_bytes p ++ rest)) 16 ≡ false
unfolding packet_header_bytes le_bytes
long_packet p rest = le→ltb _ 16 (omega arith)

long_video :
    (v : VideoHeader) (rest : List ℕ) → ltb (length (video_header_bytes v ++ rest)) 16 ≡ false
unfolding video_header_bytes le_bytes
long_video v rest = le→ltb _ 16 (omega arith)

pub parse_packet_header-bytes :
    (p : PacketHeader) (rest : List ℕ)
    → PacketFits p
    → parse_packet_header (packet_header_bytes p ++ rest) ≡ some p
unfolding parse_packet_header
parse_packet_header-bytes p rest h = rw (long_packet p rest, packet_header_at-bytes p rest h) refl

pub parse_video_header-bytes :
    (v : VideoHeader) (rest : List ℕ)
    → VideoFits v
    → parse_video_header (video_header_bytes v ++ rest) ≡ some v
unfolding parse_video_header video_header_bytes field le_bytes le_value
parse_video_header-bytes v rest h = rw (long_video v rest) (λ i. some (record {
  width = two_bytes v.width h.width_fits i;
  height = two_bytes v.height h.height_fits i;
  codec = one_byte v.codec h.codec_fits i;
  keyframe = one_byte v.keyframe h.keyframe_fits i;
  reserved = two_bytes v.reserved h.reserved_fits i;
  pts = eight_bytes v.pts h.pts_fits i;
}))

-- A video header that is long enough is parsed to something, whatever its fields.
pub parse_video_header-some :
    (v : VideoHeader) (rest : List ℕ)
    → (w : VideoHeader) × (parse_video_header (video_header_bytes v ++ rest) ≡ some w)
unfolding parse_video_header
parse_video_header-some v rest = rw (long_video v rest) (_, refl)

-- An event that the receiver serializes is the one that the sender finds in the datagram.
pub input_event_at-serialize :
    (e : InputEvent) (rest : List ℕ)
    → EventFits e
    → input_event_at (serialize_input_event e ++ rest) ≡ e
unfolding input_event_at serialize_input_event field le_bytes le_value
input_event_at-serialize e rest h = λ i. record {
  event_type = one_byte e.event_type h.type_fits i;
  reserved = one_byte e.reserved h.reserved_fits i;
  x = two_bytes e.x h.x_fits i;
  y = two_bytes e.y h.y_fits i;
  value = two_bytes e.value h.value_fits i;
}
