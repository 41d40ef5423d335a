-- ===== src/Streamer/Session.antt =====
-- The protocol that streamer.c keeps with SRT over a whole session, whatever SRT answers: a client
-- socket is used only between its acceptance and its close, and its messages are numbered.
use display_bridge.Prelude.{
  ℕ, ◌+◌, ◌≡◌, refl, sym, ap, ◌∙◌, arith, Bool, true, false, Option, none, some, List, [], ◌∷◌,
  ◌++◌, ◌==◌, ==_iff, if◌then◌else◌, length, u16, Bool-cases, inl, inr, append-nil,
}
use display_bridge.Protocol.{packet_header_bytes, PacketHeader}
use display_bridge.Protocol.Layout.{packet_header_at-bytes}
use display_bridge.Streamer.{
  Streamer, SockStatus, Effect, accepted, closed, message, Outcome, lost, drop_client, disconnect,
  accept, next_seq, transmit, send, send_heartbeat, is_connected, video_packet, heartbeat_packet,
  video_message, with_client, refused,
}
use display_bridge.Streamer.Wire.{video_packet-PacketFits, heartbeat_packet-PacketFits}
use display_bridge.Streamer.Observer.{seq_of, follow, held, view, IsValid, follow-append}

-- The calls of main.c, each with what SRT and the clock answer.
pub data Step : Type 0 where
  accepting : Bool → Option ℕ → ℕ → Step
  sending : List ℕ → ℕ → ℕ → ℕ → Bool → SockStatus → Step
  beating : ℕ → Bool → SockStatus → Step
  checking : SockStatus → Step

abbrev pub step : Streamer → Step → Outcome
step s (accepting event socket now) = accept s event socket now
step s (sending data_bytes pts is_keyframe now sent status) =
    send s data_bytes pts is_keyframe now sent status
step s (beating now sent status) = send_heartbeat s now sent status
step s (checking status) = is_connected s status

-- A run of calls: the streamer after it, and all that was asked of SRT.
abbrev pub session : Streamer → List Step → Streamer × List Effect
session s [] = (s, [])
session s (c ∷ calls) =
    let rest = session (step s c).streamer calls in (rest.0, (step s c).effects ++ rest.1)

-- What a call does is what the protocol allows.
pub record Keeps (s : Streamer) (r : Outcome) : Type 0 where
  pub valid : IsValid r.streamer
  pub allowed : follow (some (view s)) r.effects ≡ some (view r.streamer)

same : (n : ℕ) → (n == n) ≡ true
same n = (==_iff n n).1 refl

-- One message from a streamer that holds a socket.
message_allowed :
    (sock n : ℕ) (bytes : List ℕ) (es : List Effect)
    → seq_of bytes ≡ n
    → follow (some (some (sock, n))) (message sock bytes ∷ es)
      ≡ follow (some (some (sock, u16 (n + 1)))) es
message_allowed sock n bytes es e = rw (same sock, (==_iff (seq_of bytes) n).1 e, follow) refl

closed_allowed : (sock n : ℕ) → follow (some (some (sock, n))) (closed sock ∷ []) ≡ some none
closed_allowed sock n = rw (same sock, follow) refl

transmit-Keeps :
    (s : Streamer) (sock : ℕ) (bytes : List ℕ) (sent : Bool) (status : SockStatus)
    → IsValid s
    → s.client_sock ≡ some sock
    → seq_of bytes ≡ s.seq
    → Keeps s (transmit (next_seq s) sock bytes sent status)
unfolding transmit
transmit-Keeps s sock bytes true status v e n = record {
  valid = record { synced = v.synced; seq_in = omega arith };
  allowed = rw e (message_allowed sock s.seq bytes [] n);
}
transmit-Keeps s sock bytes false status v e n = elim (Bool-cases (lost status)) [
  | inl l ↦ rw l (record {
    valid = record { synced = refl; seq_in = omega arith };
    allowed = rw e (
        message_allowed sock s.seq bytes (closed sock ∷ []) n
        ∙ closed_allowed sock (u16 (s.seq + 1)));
  })
  | inr l ↦ rw l (record {
    valid = record { synced = v.synced; seq_in = omega arith };
    allowed = rw e (message_allowed sock s.seq bytes [] n);
  })
]

nothing-Keeps :
    (s : Streamer) (b : Bool)
    → IsValid s
    → Keeps s (record { success = b; streamer = s; effects = [] })
nothing-Keeps s b v = record { valid = v; allowed = refl }

dropped-Keeps :
    (s : Streamer) (sock : ℕ) (b : Bool)
    → IsValid s
    → s.client_sock ≡ some sock
    → Keeps s (record { success = b; streamer = drop_client s; effects = closed sock ∷ [] })
dropped-Keeps s sock b v e = record {
  valid = record { synced = refl; seq_in = v.seq_in };
  allowed = rw e (closed_allowed sock s.seq);
}

with_client-Keeps :
    (s : Streamer) (client : Option ℕ) (otherwise : Outcome) (act : ℕ → Outcome)
    → Keeps s otherwise
    → ((sock : ℕ) → client ≡ some sock → Keeps s (act sock))
    → Keeps s (with_client client otherwise act)
with_client-Keeps s none otherwise act h k = h
with_client-Keeps s (some sock) otherwise act h k = k sock refl

if-Keeps :
    (s : Streamer) (b : Bool) (x y : Outcome) → Keeps s x → Keeps s y → Keeps s (if b then x else y)
if-Keeps s true x y h k = h
if-Keeps s false x y h k = k

pub send-Keeps :
    (s : Streamer) (data_bytes : List ℕ) (pts is_keyframe now : ℕ) (sent : Bool)
    (status : SockStatus)
    → IsValid s
    → Keeps s (send s data_bytes pts is_keyframe now sent status)
unfolding send
send-Keeps s data_bytes pts is_keyframe now sent status v =
    let none_sent = nothing-Keeps s false v in
    if-Keeps s _ _ _ none_sent (
      with_client-Keeps s s.client_sock _ _ none_sent λ sock e. if-Keeps s _ _ _ none_sent (
        transmit-Keeps s sock (video_message s data_bytes pts is_keyframe now) sent status v e (
          ap (λ (p : PacketHeader). p.seq)
            (packet_header_at-bytes (video_packet s (length data_bytes) now) _
              (video_packet-PacketFits s (length data_bytes) now v.seq_in)))))

pub send_heartbeat-Keeps :
    (s : Streamer) (now : ℕ) (sent : Bool) (status : SockStatus)
    → IsValid s
    → Keeps s (send_heartbeat s now sent status)
unfolding send_heartbeat
send_heartbeat-Keeps s now sent status v =
    let none_sent = nothing-Keeps s false v in
    let bytes = packet_header_bytes (heartbeat_packet s now) in
    if-Keeps s _ _ _ none_sent (
      with_client-Keeps s s.client_sock _ _ none_sent λ sock e.
        transmit-Keeps s sock bytes sent status v e (
          ap seq_of (sym (append-nil bytes))
          ∙ ap (λ (p : PacketHeader). p.seq)
              (packet_header_at-bytes (heartbeat_packet s now) []
                (heartbeat_packet-PacketFits s now v.seq_in))))

pub is_connected-Keeps :
    (s : Streamer) (status : SockStatus) → IsValid s → Keeps s (is_connected s status)
unfolding is_connected
is_connected-Keeps s status v =
    with_client-Keeps s s.client_sock _ _ (nothing-Keeps s false v) λ sock e.
      if-Keeps s _ _ _ (nothing-Keeps s true v)
        (if-Keeps s _ _ _ (dropped-Keeps s sock false v e) (nothing-Keeps s false v))

disconnect-Keeps : (s : Streamer) → IsValid s → Keeps s (disconnect s)
unfolding disconnect
disconnect-Keeps s v =
    with_client-Keeps s s.client_sock _ _ (nothing-Keeps s false v)
      λ sock e. dropped-Keeps s sock false v e

view-disconnect : (s : Streamer) → view (disconnect s).streamer ≡ none
unfolding disconnect
view-disconnect s = go s.client_sock refl
  where
    go :
        (client : Option ℕ)
        → s.client_sock ≡ client
        → view
            (with_client client (refused s) λ sock. record {
              success = false;
              streamer = drop_client s;
              effects = closed sock ∷ [];
            }).streamer
          ≡ none
    go none e = ap (λ c. held c s.seq) e
    go (some sock) e = refl

pub accept-Keeps :
    (s : Streamer) (event : Bool) (socket : Option ℕ) (now : ℕ)
    → IsValid s
    → Keeps s (accept s event socket now)
unfolding accept
accept-Keeps s false socket now v = disconnect-Keeps s v
accept-Keeps s true none now v = disconnect-Keeps s v
accept-Keeps s true (some sock) now v = record {
  valid = record { synced = refl; seq_in = omega arith };
  allowed =
      follow-append (some (view s)) (disconnect s).effects (accepted sock ∷ [])
      ∙ ap (λ o. follow o (accepted sock ∷ []))
          ((disconnect-Keeps s v).allowed ∙ ap some (view-disconnect s));
}

step-Keeps : (s : Streamer) (c : Step) → IsValid s → Keeps s (step s c)
step-Keeps s (accepting event socket now) v = accept-Keeps s event socket now v
step-Keeps s (sending data_bytes pts is_keyframe now sent status) v =
    send-Keeps s data_bytes pts is_keyframe now sent status v
step-Keeps s (beating now sent status) v = send_heartbeat-Keeps s now sent status v
step-Keeps s (checking status) v = is_connected-Keeps s status v

-- Whatever SRT answers over a whole run of calls from a valid streamer, the observer never gives
-- up: at most one client socket is open at any time, none is used after its close or left open
-- when it is replaced, and the messages of each client are numbered from 0 on modulo `2 ^ 16`. At
-- the end the streamer holds the open socket and the next number, and is valid again.
session-follow :
    (calls : List Step) (s : Streamer)
    → IsValid s
    → (follow (some (view s)) (session s calls).1 ≡ some (view (session s calls).0))
      × IsValid (session s calls).0
session-follow [] s v = (refl, v)
session-follow (c ∷ calls) s v =
    let k = step-Keeps s c v in
    let rest = session-follow calls (step s c).streamer k.valid in
    (
      follow-append (some (view s)) (step s c).effects (session (step s c).streamer calls).1
          ∙ ap (λ o. follow o (session (step s c).streamer calls).1) k.allowed
          ∙ rest.0,
      rest.1,
    )
