-- ===== src/Streamer.antt =====
-- The SRT side of the sender, ubuntu/src/streamer.c, for a streamer that `db_streamer_init` made.
-- What the SRT library and the clock answer are arguments; what is asked of SRT is a trace.
pub mod Receiver
pub mod Wire
pub mod Observer
pub mod Session
pub mod Sockets
pub mod Lifetime
use display_bridge.Prelude.{
  ℕ, ◌+◌, ◌-◌, ◌*◌, ◌^◌, Bool, true, false, not, ◌||◌, Option, none, some, List, [], ◌∷◌, ◌++◌, ltb,
  ◌==◌, if◌then◌else◌, length, u16, u32, u64,
}
use display_bridge.Protocol.{
  PacketHeader, VideoHeader, packet_header_bytes, video_header_bytes, video_header_size,
  pkt_video_frame, pkt_heartbeat, codec_hevc, target_width, target_height,
}

abbrev pub max_frame_size : ℕ
max_frame_size = 8 * 1024 * 1024

-- `struct db_streamer`; `none` is `SRT_INVALID_SOCK`. The listening socket and the send buffer are
-- there from `db_streamer_init` to `db_streamer_destroy`.
pub record Streamer : Type 0 where
  pub listen_sock : ℕ
  pub client_sock : Option ℕ
  pub connected : Bool
  pub seq : ℕ
  pub start_time_us : ℕ

-- `SRT_SOCKSTATUS`, with the states that the code does not name in one.
pub data SockStatus : Type 0 where
  srts_connected srts_broken srts_closed srts_nonexist srts_other : SockStatus

-- What is asked of SRT about client sockets.
pub data Effect : Type 0 where
  accepted closed : ℕ → Effect
  message : ℕ → List ℕ → Effect

-- The value that a function returns, 0 for `true` and -1 for `false`, with the state and the trace.
pub record Outcome : Type 0 where
  pub success : Bool
  pub streamer : Streamer
  pub effects : List Effect

abbrev pub lost : SockStatus → Bool
lost srts_broken = true
lost srts_closed = true
lost srts_nonexist = true
lost status = false

-- `connected = 0`, `srt_close` and `client_sock = SRT_INVALID_SOCK`.
abbrev pub drop_client : Streamer → Streamer
drop_client s = record s { client_sock = none; connected = false }

abbrev pub refused : Streamer → Outcome
refused s = record { success = false; streamer = s; effects = [] }

-- On the client socket, if there is one.
abbrev pub with_client : Option ℕ → Outcome → (ℕ → Outcome) → Outcome
with_client none otherwise act = otherwise
with_client (some sock) otherwise act = act sock

-- The first part of `db_streamer_accept`: a client that is still there is disconnected.
unfoldable pub disconnect : Streamer → Outcome
disconnect s =
    with_client s.client_sock (refused s)
      λ sock. record { success = false; streamer = drop_client s; effects = closed sock ∷ [] }

-- `db_streamer_accept`: whether the wait on the listening socket ends with an event, what
-- `srt_accept` gives, and the time after it.
unfoldable pub accept : Streamer → Bool → Option ℕ → ℕ → Outcome
unfolding disconnect
accept s false socket now = disconnect s
accept s true none now = disconnect s
accept s true (some sock) now = record {
  success = true;
  streamer = record s { client_sock = some sock; connected = true; seq = 0; start_time_us = now };
  effects = (disconnect s).effects ++ (accepted sock ∷ []);
}

-- The timestamp of a packet.
abbrev pub timestamp_at : Streamer → ℕ → ℕ
timestamp_at s now = u32 (u64 (now + 2 ^ 64 - s.start_time_us))

-- The headers that `db_streamer_send` and `db_streamer_send_heartbeat` fill in.
abbrev pub video_packet : Streamer → ℕ → ℕ → PacketHeader
video_packet s size now = record {
  packet_type = pkt_video_frame;
  flags = 0;
  seq = s.seq;
  timestamp = timestamp_at s now;
  payload_size = u32 (video_header_size + size);
  reserved = 0;
}

abbrev pub video_header : ℕ → ℕ → VideoHeader
video_header pts is_keyframe = record {
  width = target_width;
  height = target_height;
  codec = codec_hevc;
  keyframe = if is_keyframe == 0 then 0 else 1;
  reserved = 0;
  pts = pts;
}

abbrev pub heartbeat_packet : Streamer → ℕ → PacketHeader
heartbeat_packet s now = record {
  packet_type = pkt_heartbeat;
  flags = 0;
  seq = s.seq;
  timestamp = timestamp_at s now;
  payload_size = 0;
  reserved = 0;
}

-- The bytes of a video frame in the send buffer.
abbrev pub video_message : Streamer → List ℕ → ℕ → ℕ → ℕ → List ℕ
video_message s data_bytes pts is_keyframe now =
    packet_header_bytes (video_packet s (length data_bytes) now)
    ++ (video_header_bytes (video_header pts is_keyframe) ++ data_bytes)

-- `srt_sendmsg2` and what follows it, after `seq++`: `sent` is that it did not fail, `status` what
-- `srt_getsockstate` says if it did.
unfoldable pub transmit : Streamer → ℕ → List ℕ → Bool → SockStatus → Outcome
transmit s sock bytes true status = record {
  success = true;
  streamer = s;
  effects = message sock bytes ∷ [];
}
transmit s sock bytes false status =
    if lost status
    then record {
      success = false;
      streamer = drop_client s;
      effects = message sock bytes ∷ closed sock ∷ [];
    }
    else record { success = false; streamer = s; effects = message sock bytes ∷ [] }

abbrev pub next_seq : Streamer → Streamer
next_seq s = record s { seq = u16 (s.seq + 1) }

-- `db_streamer_send`
unfoldable pub send : Streamer → List ℕ → ℕ → ℕ → ℕ → Bool → SockStatus → Outcome
unfolding transmit
send s data_bytes pts is_keyframe now sent status =
    if not s.connected
    then refused s
    else with_client s.client_sock (refused s) λ sock.
      if ltb max_frame_size (length data_bytes)
      then refused s
      else transmit (next_seq s) sock (video_message s data_bytes pts is_keyframe now) sent status

-- `db_streamer_send_heartbeat`
unfoldable pub send_heartbeat : Streamer → ℕ → Bool → SockStatus → Outcome
unfolding transmit
send_heartbeat s now sent status =
    if not s.connected
    then refused s
    else with_client s.client_sock (refused s) λ sock.
      transmit (next_seq s) sock (packet_header_bytes (heartbeat_packet s now)) sent status

abbrev pub is_up : SockStatus → Bool
is_up srts_connected = true
is_up status = false

-- `db_streamer_is_connected`
unfoldable pub is_connected : Streamer → SockStatus → Outcome
is_connected s status = with_client s.client_sock (refused s) λ sock.
    if is_up status
    then record { success = true; streamer = s; effects = [] }
    else if lost status
    then record { success = false; streamer = drop_client s; effects = closed sock ∷ [] }
    else refused s
