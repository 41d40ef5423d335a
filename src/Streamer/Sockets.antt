-- ===== src/Streamer/Sockets.antt =====
-- `db_streamer_init`, `db_streamer_get_stats` and `db_streamer_destroy` of ubuntu/src/streamer.c:
-- what they ask of SRT and of the allocator.
use display_bridge.Prelude.{
  ℕ, ◌+◌, ◌*◌, Bool, true, false, not, Option, none, some, List, [], ◌∷◌, if◌then◌else◌, u16,
}
use display_bridge.Calls.{Calls, done, tell, check}
use display_bridge.Protocol.{packet_header_size, video_header_size}
use display_bridge.Rate.{Stats}
use display_bridge.Streamer.{Streamer, max_frame_size}

-- The options that are set on the listening socket, with their values.
pub data SockOption : Type 0 where
  rcvsyn sndsyn latency message_api ipv6_only sndbuf sndtimeo : ℕ → SockOption
  transtype_file : SockOption

pub data SocketCall : Type 0 where
  calloc_streamer free_streamer free_send_buf : SocketCall
  malloc_send_buf : ℕ → SocketCall
  startup cleanup : SocketCall
  create_socket close_listener close_client : SocketCall
  setsockflag : SockOption → SocketCall
  -- The port.
  srt_bind : ℕ → SocketCall
  -- The backlog.
  srt_listen : ℕ → SocketCall

-- `SEND_BUF_SIZE`
abbrev pub send_buf_size : ℕ
send_buf_size = packet_header_size + video_header_size + max_frame_size

-- The options in the order in which they are set.
abbrev pub listener_options : ℕ → List SockOption
listener_options latency_ms =
    rcvsyn 1
    ∷ sndsyn 1
    ∷ latency latency_ms
    ∷ transtype_file
    ∷ message_api 1
    ∷ ipv6_only 0
    ∷ sndbuf (16 * 1024 * 1024)
    ∷ sndtimeo 50
    ∷ []

abbrev pub set_options {ℓ} :
    {A : Type ℓ} → List SockOption → Calls SocketCall A → Calls SocketCall A
set_options [] next = next
set_options (o ∷ os) next = tell (setsockflag o) (set_options os next)

-- The clean-up after a failed `srt_bind` or `srt_listen`.
abbrev pub close_and_free : Calls SocketCall (Option Streamer)
close_and_free =
    tell close_listener (tell free_send_buf (tell free_streamer (tell cleanup (done none))))

abbrev pub new_streamer : ℕ → ℕ → Streamer
new_streamer listen_sock now = record {
  listen_sock = listen_sock;
  client_sock = none;
  connected = false;
  seq = 0;
  start_time_us = now;
}

-- `db_streamer_init`, with the number of the socket that SRT gives and the time; `none` is `NULL`.
unfoldable pub streamer_init : ℕ → ℕ → ℕ → ℕ → Calls SocketCall (Option Streamer)
unfolding check
streamer_init listen_port latency_ms socket now = check calloc_streamer (done none) (
    check (malloc_send_buf send_buf_size) (tell free_streamer (done none)) (
      check startup (tell free_send_buf (tell free_streamer (done none))) (
        check create_socket (tell free_send_buf (tell free_streamer (tell cleanup (done none)))) (
          set_options (listener_options latency_ms) (
            check (srt_bind (u16 listen_port)) close_and_free
              (check (srt_listen 1) close_and_free (done (some (new_streamer socket now)))))))))

abbrev pub close_client_of : Option ℕ → Calls SocketCall Bool → Calls SocketCall Bool
close_client_of none next = next
close_client_of (some sock) next = tell close_client next

-- `db_streamer_destroy`
unfoldable pub streamer_destroy : Streamer → Calls SocketCall Bool
streamer_destroy s =
    close_client_of s.client_sock
      (tell close_listener (tell free_send_buf (tell cleanup (tell free_streamer (done true)))))

-- `db_streamer_get_stats`, for what `srt_bstats` gives.
unfoldable pub get_stats : Streamer → Option Stats → Option Stats
get_stats s perf =
    if not s.connected then none else elim s.client_sock [ none ↦ none | some sock ↦ perf ]
