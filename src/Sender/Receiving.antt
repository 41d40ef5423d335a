-- ===== src/Sender/Receiving.antt =====
-- What the receiver makes of all that the main loop hands to SRT.
use mathlib.Core.List.Sublist
use mathlib.Core.List.{Sublist, nil-sublist, eq-nil_of_sublist-nil}
use display_bridge.Prelude.{
  ℕ, ◌^◌, ◌<◌, ◌≡◌, refl, sym, subst, ap, ◌∙◌, Bool, true, false, not, Option, none, some, List, [],
  ◌∷◌, ◌++◌, take, ltb, if◌then◌else◌, length, append_assoc, append-nil, Bool-cases, inl, inr,
}
use display_bridge.Protocol.{packet_header_bytes}
use display_bridge.Streamer.{
  Streamer, SockStatus, Effect, accepted, closed, message, Outcome, accept, disconnect, send,
  send_heartbeat, is_connected, transmit, lost, next_seq, with_client, refused, max_frame_size,
  video_message, heartbeat_packet, drop_client, is_up,
}
use display_bridge.Streamer.Receiver.{Received, max_data, video_frame, heartbeat, ignored, receive}
use display_bridge.Streamer.Wire.{receive-video_data, receive-heartbeat}

-- The data of a video frame.
abbrev pub video_data : Received → List (List ℕ)
video_data (video_frame v data_bytes) = data_bytes ∷ []
video_data heartbeat = []
video_data ignored = []

-- The data of the video frames among the messages.
abbrev pub videos : List Effect → List (List ℕ)
videos [] = []
videos (message sock bytes ∷ es) = video_data (receive bytes) ++ videos es
videos (accepted sock ∷ es) = videos es
videos (closed sock ∷ es) = videos es

pub videos-append : (es fs : List Effect) → videos (es ++ fs) ≡ videos es ++ videos fs
videos-append [] fs = refl
videos-append (message sock bytes ∷ es) fs =
    ap (λ v. video_data (receive bytes) ++ v) (videos-append es fs)
    ∙ sym (append_assoc (video_data (receive bytes)) (videos es) (videos fs))
videos-append (accepted sock ∷ es) fs = videos-append es fs
videos-append (closed sock ∷ es) fs = videos-append es fs

videos-transmit :
    (s : Streamer) (sock : ℕ) (bytes : List ℕ) (sent : Bool) (status : SockStatus)
    → videos (transmit s sock bytes sent status).effects ≡ video_data (receive bytes)
unfolding transmit
videos-transmit s sock bytes true status = append-nil (video_data (receive bytes))
videos-transmit s sock bytes false status = elim (Bool-cases (lost status)) [
  | inl e ↦ rw e (append-nil (video_data (receive bytes)))
  | inr e ↦ rw e (append-nil (video_data (receive bytes)))
]

-- A call on the client socket, if there is one.
guarded-sublist :
    (connected : Bool) (client : Option ℕ) (s : Streamer) (act : ℕ → Outcome) (d : List (List ℕ))
    → ((sock : ℕ) → Sublist (videos (act sock).effects) d)
    → Sublist
        (videos (if not connected then refused s else with_client client (refused s) act).effects)
        d
guarded-sublist false client s act d h = nil-sublist d
guarded-sublist true none s act d h = nil-sublist d
guarded-sublist true (some sock) s act d h = h sock

large-sublist :
    (large : Bool) (s : Streamer) (o : Outcome) (d : List (List ℕ))
    → Sublist (videos o.effects) d
    → Sublist (videos (if large then refused s else o).effects) d
large-sublist true s o d h = nil-sublist d
large-sublist false s o d h = h

-- A frame is one video frame to the receiver, with its bytes as far as the receiver has room, or is not handed to SRT.
pub videos-send :
    (s : Streamer) (data_bytes : List ℕ) (pts is_keyframe now : ℕ) (sent : Bool)
    (status : SockStatus)
    → s.seq < 2 ^ 16
    → Sublist
        (videos (send s data_bytes pts is_keyframe now sent status).effects)
        (take max_data data_bytes ∷ [])
unfolding send
videos-send s data_bytes pts is_keyframe now sent status h =
    let bytes = video_message s data_bytes pts is_keyframe now in
    let (v, e) = receive-video_data s data_bytes pts is_keyframe now h in
    guarded-sublist s.connected s.client_sock s _ (take max_data data_bytes ∷ []) λ sock.
      large-sublist (ltb max_frame_size (length data_bytes)) s
        (transmit (next_seq s) sock bytes sent status) (take max_data data_bytes ∷ [])
        (subst (λ d. Sublist d (take max_data data_bytes ∷ []))
          (sym (videos-transmit (next_seq s) sock bytes sent status ∙ ap video_data e))
          (Sublist.refl (take max_data data_bytes ∷ [])))

pub videos-send_heartbeat :
    (s : Streamer) (now : ℕ) (sent : Bool) (status : SockStatus)
    → s.seq < 2 ^ 16
    → videos (send_heartbeat s now sent status).effects ≡ []
unfolding send_heartbeat
videos-send_heartbeat s now sent status h =
    let bytes = packet_header_bytes (heartbeat_packet s now) in
    eq-nil_of_sublist-nil (
      guarded-sublist s.connected s.client_sock s _ [] λ sock.
        subst (λ d. Sublist d [])
          (sym (
            videos-transmit (next_seq s) sock bytes sent status
            ∙ ap video_data (receive-heartbeat s now h)))
          (Sublist.refl []))

no_videos :
    (b c : Bool) (s t : Streamer) (sock : ℕ)
    → videos
        (if b
          then record { success = true; streamer = s; effects = [] }
          else if c
          then record { success = false; streamer = t; effects = closed sock ∷ [] }
          else refused s).effects
      ≡ []
no_videos true c s t sock = refl
no_videos false true s t sock = refl
no_videos false false s t sock = refl

pub videos-is_connected :
    (s : Streamer) (status : SockStatus) → videos (is_connected s status).effects ≡ []
unfolding is_connected
videos-is_connected s status = eq-nil_of_sublist-nil (
    guarded-sublist true s.client_sock s _ [] λ sock.
      subst (λ d. Sublist d [])
        (sym (no_videos (is_up status) (lost status) s (drop_client s) sock)) (Sublist.refl []))

videos-disconnect : (s : Streamer) → videos (disconnect s).effects ≡ []
unfolding disconnect
videos-disconnect s =
    eq-nil_of_sublist-nil (guarded-sublist true s.client_sock s _ [] λ sock. Sublist.refl [])

pub videos-accept :
    (s : Streamer) (event : Bool) (socket : Option ℕ) (now : ℕ)
    → videos (accept s event socket now).effects ≡ []
unfolding accept
videos-accept s false socket now = videos-disconnect s
videos-accept s true none now = videos-disconnect s
videos-accept s true (some sock) now =
    videos-append (disconnect s).effects (accepted sock ∷ [])
    ∙ ap (λ v. v ++ []) (videos-disconnect s)
