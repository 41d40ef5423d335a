-- ===== src/Streamer/Wire.antt =====
-- What the receiver makes of the messages of streamer.c.
use native.Mathlib.Decide.{dec_lt}
use display_bridge.Prelude.{
  ℕ, ◌^◌, ◌≤◌, ◌<◌, ◌≡◌, refl, arith, true, some, List, [], ◌∷◌, ◌++◌, le→ltb, ◌==◌, if◌then◌else◌,
  length, take, drop, ap, ap₂, ◌∙◌, ◌-◌, zero, suc,
}
use display_bridge.Protocol.{
  PacketHeader, VideoHeader, packet_header_bytes, video_header_bytes, video_header_size, le_bytes,
}
use display_bridge.Protocol.Layout.{
  PacketFits, VideoFits, drop_packet_header, parse_packet_header-bytes, parse_video_header-bytes,
  parse_video_header-some,
}
use display_bridge.Streamer.{
  Streamer, SockStatus, message, max_frame_size, next_seq, send, video_message, video_packet,
  video_header, heartbeat_packet, transmit, send_heartbeat,
}
use display_bridge.Streamer.Receiver.{
  video_frame, heartbeat, receive_video, receive_packet, parse_message, max_buf_size, receive,
  max_data,
}

drop_video_header :
    (v : VideoHeader) (rest : List ℕ) → drop video_header_size (video_header_bytes v ++ rest) ≡ rest
unfolding video_header_bytes le_bytes
drop_video_header v rest = refl

flag_fits : (k : ℕ) → (if k == 0 then 0 else 1) < 2 ^ 8
flag_fits k = ground arith

pub video_packet-PacketFits :
    (s : Streamer) (size now : ℕ) → s.seq < 2 ^ 16 → PacketFits (video_packet s size now)
video_packet-PacketFits s size now h = record {
  type_fits = omega arith;
  flags_fits = omega arith;
  seq_fits = h;
  timestamp_fits = omega arith;
  size_fits = omega arith;
  reserved_fits = omega arith;
}

pub heartbeat_packet-PacketFits :
    (s : Streamer) (now : ℕ) → s.seq < 2 ^ 16 → PacketFits (heartbeat_packet s now)
heartbeat_packet-PacketFits s now h = record {
  type_fits = omega arith;
  flags_fits = omega arith;
  seq_fits = h;
  timestamp_fits = omega arith;
  size_fits = omega arith;
  reserved_fits = omega arith;
}

video_header-VideoFits :
    (pts is_keyframe : ℕ) → pts < 2 ^ 64 → VideoFits (video_header pts is_keyframe)
video_header-VideoFits pts is_keyframe h = record {
  width_fits = omega arith;
  height_fits = omega arith;
  codec_fits = omega arith;
  keyframe_fits = flag_fits is_keyframe;
  reserved_fits = omega arith;
  pts_fits = h;
}

parse_message-video :
    (s : Streamer) (size : ℕ) (data_bytes : List ℕ) (pts is_keyframe now : ℕ)
    → s.seq < 2 ^ 16
    → pts < 2 ^ 64
    → parse_message (
        packet_header_bytes (video_packet s size now)
        ++ (video_header_bytes (video_header pts is_keyframe) ++ data_bytes))
      ≡ video_frame (video_header pts is_keyframe) data_bytes
unfolding parse_message
parse_message-video s size data_bytes pts is_keyframe now hs hp =
    let p = video_packet s size now in
    let v = video_header pts is_keyframe in
    let body = video_header_bytes v ++ data_bytes in
    let parsed = parse_packet_header-bytes p body (video_packet-PacketFits s _ now hs) in
    let video = parse_video_header-bytes v data_bytes (video_header-VideoFits pts is_keyframe hp) in
    ap₂ receive_packet parsed (drop_packet_header p body)
    ∙ ap₂ receive_video video (drop_video_header v data_bytes)

-- Room for one header more.
abbrev header_more : ℕ → ℕ
header_more n =
    suc (suc (suc (suc (suc (suc (suc (suc (suc (suc (suc (suc (suc (suc (suc (suc n)))))))))))))))

-- The buffer has room for the headers and for `max_data` bytes.
take_headers :
    (p : PacketHeader) (v : VideoHeader) (data_bytes : List ℕ) (n : ℕ)
    → take
        (header_more (header_more n))
        (packet_header_bytes p ++ (video_header_bytes v ++ data_bytes))
      ≡ packet_header_bytes p ++ (video_header_bytes v ++ take n data_bytes)
unfolding packet_header_bytes video_header_bytes le_bytes
take_headers p v data_bytes n = refl

receive_lem :
    (p : PacketHeader) (v : VideoHeader) (data_bytes : List ℕ)
    → receive (packet_header_bytes p ++ (video_header_bytes v ++ data_bytes))
      ≡ parse_message (packet_header_bytes p ++ (video_header_bytes v ++ take max_data data_bytes))
unfolding receive
receive_lem p v data_bytes = ap parse_message (take_headers p v data_bytes max_data)

receive-video_message :
    (s : Streamer) (data_bytes : List ℕ) (pts is_keyframe now : ℕ)
    → s.seq < 2 ^ 16
    → pts < 2 ^ 64
    → receive (video_message s data_bytes pts is_keyframe now)
      ≡ video_frame (video_header pts is_keyframe) (take max_data data_bytes)
receive-video_message s data_bytes pts is_keyframe now hs hp =
    receive_lem (video_packet s (length data_bytes) now) (video_header pts is_keyframe) data_bytes
    ∙ parse_message-video s (length data_bytes) (take max_data data_bytes) pts is_keyframe now hs hp

take_header :
    (p : PacketHeader) (n : ℕ)
    → take (header_more n) (packet_header_bytes p) ≡ packet_header_bytes p ++ []
unfolding packet_header_bytes le_bytes
take_header p zero = refl
take_header p (suc n) = refl

pub receive-heartbeat :
    (s : Streamer) (now : ℕ)
    → s.seq < 2 ^ 16
    → receive (packet_header_bytes (heartbeat_packet s now)) ≡ heartbeat
unfolding receive parse_message
receive-heartbeat s now hs =
    let p = heartbeat_packet s now in
    ap parse_message (take_header p (max_buf_size - 16))
    ∙ ap₂ receive_packet (parse_packet_header-bytes p [] (heartbeat_packet-PacketFits s now hs))
        (drop_packet_header p [])

-- The data of a video message are found whatever its time, as far as the buffer has room.
pub receive-video_data :
    (s : Streamer) (data_bytes : List ℕ) (pts is_keyframe now : ℕ)
    → s.seq < 2 ^ 16
    → (v : VideoHeader) × (receive (video_message s data_bytes pts is_keyframe now)
        ≡ video_frame v (take max_data data_bytes))
unfolding parse_message
receive-video_data s data_bytes pts is_keyframe now hs =
    let p = video_packet s (length data_bytes) now in
    let header = video_header pts is_keyframe in
    let held = take max_data data_bytes in
    let body = video_header_bytes header ++ held in
    let parsed = parse_packet_header-bytes p body (video_packet-PacketFits s _ now hs) in
    let (v, video) = parse_video_header-some header held in
    (
      v,
      receive_lem p header data_bytes
          ∙ ap₂ receive_packet parsed (drop_packet_header p body)
          ∙ ap₂ receive_video video (drop_video_header header held),
    )

take_all : (n : ℕ) (xs : List ℕ) → length xs ≤ n → take n xs ≡ xs
take_all zero [] h = refl
take_all zero (x ∷ xs) h = absurd (omega arith)
take_all (suc n) [] h = refl
take_all (suc n) (x ∷ xs) h = ap (λ t. x ∷ t) (take_all n xs (omega (arith, h)))

-- What arrives of the data of a frame: all of them, or what the buffer has room for.
pub data Arrives (bytes data_bytes : List ℕ) (v : VideoHeader) : Type 0 where
  whole :
      length data_bytes ≤ max_data
      → receive bytes ≡ video_frame v data_bytes
      → Arrives bytes data_bytes v
  cut :
      max_data < length data_bytes
      → receive bytes ≡ video_frame v (take max_data data_bytes)
      → Arrives bytes data_bytes v

arrives :
    (bytes data_bytes : List ℕ) (v : VideoHeader)
    → receive bytes ≡ video_frame v (take max_data data_bytes)
    → Arrives bytes data_bytes v
arrives bytes data_bytes v e = elim (dec_lt max_data (length data_bytes)) [
  | yes h ↦ cut h e
  | no h ↦
      whole (omega (arith, h))
        (e ∙ ap (video_frame v) (take_all max_data data_bytes (omega (arith, h))))
]

-- A send to a connected client of a frame of at most 8 MiB with a 64-bit time, when SRT takes it
-- and the sequence number has 16 bits, is one message, in which the receiver finds the timestamp of
-- the frame, whether it is a key frame, and its very bytes if they are at most 8 MiB less the 32
-- bytes of the headers; of a longer frame it finds that many bytes and loses the rest. The sequence
-- number of the streamer goes up by one modulo `2 ^ 16`.
pub receive-send :
    (s : Streamer) (sock : ℕ) (data_bytes : List ℕ) (pts is_keyframe now : ℕ) (status : SockStatus)
    → s.client_sock ≡ some sock
    → s.connected ≡ true
    → s.seq < 2 ^ 16
    → pts < 2 ^ 64
    → length data_bytes ≤ max_frame_size
    → (bytes : List ℕ) × (send s data_bytes pts is_keyframe now true status
        ≡ record { success = true; streamer = next_seq s; effects = message sock bytes ∷ [] })
      × Arrives bytes data_bytes (video_header pts is_keyframe)
unfolding send transmit
receive-send s sock data_bytes pts is_keyframe now status client up hs hp fits = (
  video_message s data_bytes pts is_keyframe now,
  rw (client, up, le→ltb max_frame_size (length data_bytes) fits) refl,
  arrives _ data_bytes (video_header pts is_keyframe)
      (receive-video_message s data_bytes pts is_keyframe now hs hp),
)

-- A heartbeat to a connected client, when SRT takes it and the sequence number has 16 bits, is one
-- message, which the receiver knows as a heartbeat; it counts in the sequence numbers as a frame
-- does.
receive-send_heartbeat :
    (s : Streamer) (sock now : ℕ) (status : SockStatus)
    → s.client_sock ≡ some sock
    → s.connected ≡ true
    → s.seq < 2 ^ 16
    → (bytes : List ℕ) × (send_heartbeat s now true status
        ≡ record { success = true; streamer = next_seq s; effects = message sock bytes ∷ [] })
      × (receive bytes ≡ heartbeat)
unfolding send_heartbeat transmit
receive-send_heartbeat s sock now status client up hs =
    (packet_header_bytes (heartbeat_packet s now), rw (client, up) refl, receive-heartbeat s now hs)
