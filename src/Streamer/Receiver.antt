-- ===== src/Streamer/Receiver.antt =====
-- The receiver's side of the wire, in mac/Sources/DisplayBridgeReceiver/SRTReceiver.swift: the buffer
-- of `recvLoop` and its switch on the type of a packet.
use display_bridge.Prelude.{
  ℕ, Option, none, some, List, ◌==◌, if◌then◌else◌, take, drop, ◌+◌, ◌-◌, ◌*◌,
}
use display_bridge.Protocol.{
  PacketHeader, VideoHeader, parse_packet_header, parse_video_header, packet_header_size,
  video_header_size, pkt_video_frame, pkt_heartbeat,
}

-- What a message is to the receiver.
pub data Received : Type 0 where
  video_frame : VideoHeader → List ℕ → Received
  heartbeat ignored : Received

-- A message with a video frame, with what its video header parses to.
abbrev pub receive_video : Option VideoHeader → List ℕ → Received
receive_video none hevc_data = ignored
receive_video (some v) hevc_data = video_frame v hevc_data

-- The switch on the packet type, with what the packet header parses to and the bytes after it.
abbrev pub receive_packet : Option PacketHeader → List ℕ → Received
receive_packet none body = ignored
receive_packet (some p) body =
    if p.packet_type == pkt_video_frame
    then receive_video (parse_video_header body) (drop video_header_size body)
    else if p.packet_type == pkt_heartbeat
    then heartbeat
    else ignored

-- `recvLoop` after `srt_recvmsg`, from the bytes that this has put into the buffer.
unfoldable pub parse_message : List ℕ → Received
parse_message bytes = receive_packet (parse_packet_header bytes) (drop packet_header_size bytes)

-- `maxBufSize`
abbrev pub max_buf_size : ℕ
max_buf_size = 8 * 1024 * 1024

-- The part of `recvLoop` from `srt_recvmsg` on. SRT gives a whole message, or as much of it as the
-- buffer has room for; the rest of the message is lost.
unfoldable pub receive : List ℕ → Received
unfolding parse_message
receive bytes = parse_message (take max_buf_size bytes)

-- What room there is for the data of a frame.
abbrev pub max_data : ℕ
max_data = max_buf_size - (packet_header_size + video_header_size)
