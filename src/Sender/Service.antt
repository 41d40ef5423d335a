-- ===== src/Sender/Service.antt =====
-- The main loop keeps the protocol with SRT.
use display_bridge.Prelude.{
  ◌≡◌, refl, ap, ◌∙◌, Bool, true, false, Option, none, some, List, [], ◌∷◌, ◌++◌, ltb,
  if◌then◌else◌, length,
}
use display_bridge.Encoder.{Encoder}
use display_bridge.Rate.{elapsed, poll}
use display_bridge.Streamer.Sockets.{get_stats}
use display_bridge.Ring.{Frame}
use display_bridge.Streamer.{Streamer, Effect, Outcome, accept, send, send_heartbeat, is_connected}
use display_bridge.Streamer.Observer.{follow, view, IsValid, follow-append}
use display_bridge.Streamer.Session.{
  Keeps, send-Keeps, send_heartbeat-Keeps, is_connected-Keeps, accept-Keeps,
}
use display_bridge.Sender.Frames.{Source}
use display_bridge.Sender.Stream.{
  Loop, Round, Turn, turn, sent_turn, before, send_frame, keep_alive, send_or_keep, poll_stats,
  frame_turn, stream_round, stream_loop, Connection, start_loop, Served, served_by, serve_from,
  serve_one, serve_all,
}

-- What is asked of SRT from one streamer to another is what the protocol allows.
pub record Allowed (s t : Streamer) (effects : List Effect) : Type 0 where
  pub valid : IsValid t
  pub allowed : follow (some (view s)) effects ≡ some (view t)

none-Allowed : (s : Streamer) → IsValid s → Allowed s s []
none-Allowed s v = record { valid = v; allowed = refl }

Keeps→Allowed : (s : Streamer) (o : Outcome) → Keeps s o → Allowed s o.streamer o.effects
Keeps→Allowed s o k = record { valid = k.valid; allowed = k.allowed }

then-Allowed :
    (s t u : Streamer) (es fs : List Effect)
    → Allowed s t es
    → Allowed t u fs
    → Allowed s u (es ++ fs)
then-Allowed s t u es fs h k = record {
  valid = k.valid;
  allowed = follow-append (some (view s)) es fs ∙ ap (λ o. follow o fs) h.allowed ∙ k.allowed;
}

-- A turn from a streamer.
abbrev TurnFrom : Streamer → Turn → Type 0
TurnFrom s t = Allowed s t.loop.streamer t.effects

if-TurnFrom :
    (s : Streamer) (b : Bool) (x y : Turn)
    → TurnFrom s x
    → TurnFrom s y
    → TurnFrom s (if b then x else y)
if-TurnFrom s true x y h k = h
if-TurnFrom s false x y h k = k

if-first :
    {Q : Type 0} (s : Streamer) (b : Bool) (x y : Turn × Option Q)
    → TurnFrom s x.0
    → TurnFrom s y.0
    → TurnFrom s (if b then x else y).0
if-first s true x y h k = h
if-first s false x y h k = k

before-TurnFrom :
    (s t : Streamer) (es : List Effect) (x : Turn)
    → Allowed s t es
    → TurnFrom t x
    → TurnFrom s (before es x)
before-TurnFrom s t es x h k = then-Allowed s t x.loop.streamer es x.effects h k

send_frame-Allowed :
    (l : Loop) (r : Round) (f : Frame) → IsValid l.streamer → TurnFrom l.streamer (send_frame l r f)
unfolding send_frame
send_frame-Allowed l r f v =
    let k = send-Keeps l.streamer f.data_bytes f.pts f.is_keyframe r.now r.sent r.send_status v in
    let o = send l.streamer f.data_bytes f.pts f.is_keyframe r.now r.sent r.send_status in
    let sent = Keeps→Allowed l.streamer o k in
    let again = is_connected o.streamer r.second_status in
    let tested =
      Keeps→Allowed o.streamer again (is_connected-Keeps o.streamer r.second_status k.valid) in
    if-TurnFrom l.streamer o.success (sent_turn l r.sent_at o)
      (before o.effects (if again.success then sent_turn l r.sent_at again else turn false l again))
      sent
      (before-TurnFrom l.streamer o.streamer o.effects
        (if again.success then sent_turn l r.sent_at again else turn false l again) sent
        (if-TurnFrom o.streamer again.success (sent_turn l r.sent_at again) (turn false l again)
          tested tested))

keep_alive-Allowed :
    (l : Loop) (r : Round) → IsValid l.streamer → TurnFrom l.streamer (keep_alive l r)
unfolding keep_alive
keep_alive-Allowed l r v =
    let o = send_heartbeat l.streamer r.now r.sent r.send_status in
    let beat =
      Keeps→Allowed l.streamer o (send_heartbeat-Keeps l.streamer r.now r.sent r.send_status v) in
    if-TurnFrom l.streamer (ltb 1000000 (elapsed r.now l.last_send_time))
      (if o.success then sent_turn l r.now o else turn false l o)
      (record { goes_on = true; loop = l; effects = [] })
      (if-TurnFrom l.streamer o.success (sent_turn l r.now o) (turn false l o) beat beat)
      (none-Allowed l.streamer v)

send_or_keep-Allowed :
    (l : Loop) (r : Round) (popped : Option Frame)
    → IsValid l.streamer
    → TurnFrom l.streamer (send_or_keep l r popped)
send_or_keep-Allowed l r none v = keep_alive-Allowed l r v
send_or_keep-Allowed l r (some f) v =
    if-TurnFrom l.streamer (ltb 0 (length f.data_bytes)) (send_frame l r f) (keep_alive l r)
      (send_frame-Allowed l r f v) (keep_alive-Allowed l r v)

poll_stats-Allowed :
    (s : Streamer) (r : Round) (t : Turn) → TurnFrom s t → TurnFrom s (poll_stats r t)
poll_stats-Allowed s r t h =
    if-TurnFrom s t.goes_on
      (record t {
        loop = record t.loop {
          rate = poll t.loop.rate r.now_abs (get_stats t.loop.streamer r.perf);
        };
      })
      t h h

frame_turn-Allowed :
    {Q : Type 0} (s : Streamer) (o : Outcome) (l : Loop) (r : Round)
    (taken : Option (Option Frame × Q))
    → Allowed s l.streamer o.effects
    → TurnFrom s (frame_turn l r o taken).0
frame_turn-Allowed s o l r none k = k
frame_turn-Allowed s o l r (some (popped, q)) k =
    let t = send_or_keep l r popped in
    before-TurnFrom s l.streamer o.effects (poll_stats r t) k
      (poll_stats-Allowed l.streamer r t (send_or_keep-Allowed l r popped k.valid))

-- What a round of the main loop asks.
abbrev ServedFrom : Streamer → Served → Type 0
ServedFrom s x = Allowed s x.streamer x.effects

if-served :
    {Q : Type 0} (s : Streamer) (b : Bool) (x y : Served × Option Q)
    → ServedFrom s x.0
    → ServedFrom s y.0
    → ServedFrom s (if b then x else y).0
if-served s true x y h k = h
if-served s false x y h k = k

module _ {Q : Type 0} (frames : Source Q) where
  pub stream_round-Allowed :
      (l : Loop) (q : Q) (r : Round)
      → IsValid l.streamer
      → TurnFrom l.streamer (stream_round frames l q r).0
  unfolding stream_round
  stream_round-Allowed l q r v =
      let k = is_connected-Keeps l.streamer r.status v in
      let o = is_connected l.streamer r.status in
      let connected = Keeps→Allowed l.streamer o k in
      let here = record l { streamer = o.streamer } in
      if-first l.streamer o.success (frame_turn here r o (frames.take q r.around))
        (turn false l o, some q)
        (frame_turn-Allowed l.streamer o here r (frames.take q r.around) connected) connected

  stream_loop-Allowed :
      (rs : List Round) (l : Loop) (left : Option Q)
      → IsValid l.streamer
      → TurnFrom l.streamer (stream_loop frames l left rs).0
  unfolding stream_loop
  stream_loop-Allowed rs l none v = none-Allowed l.streamer v
  stream_loop-Allowed [] l (some q) v = none-Allowed l.streamer v
  stream_loop-Allowed (r ∷ rs) l (some q) v =
      let t = stream_round frames l q r in
      let k = stream_round-Allowed l q r v in
      let rest = stream_loop frames t.0.loop t.1 rs in
      if-first l.streamer t.0.goes_on (before t.0.effects rest.0, rest.1) t
        (before-TurnFrom l.streamer t.0.loop.streamer t.0.effects rest.0 k
          (stream_loop-Allowed rs t.0.loop t.1 k.valid))
        k

  serve_from-Allowed :
      (s : Streamer) (enc : Encoder) (c : Connection) (left : Option Q)
      → IsValid s
      → ServedFrom s (serve_from frames s enc c left).0
  serve_from-Allowed s enc c none v = none-Allowed s v
  serve_from-Allowed s enc c (some q) v =
      let o = accept s c.event c.socket c.accepted_at in
      let k = accept-Keeps s c.event c.socket c.accepted_at v in
      let start = start_loop o.streamer enc c.started_at in
      let t = stream_loop frames start (frames.flush_all q) c.rounds in
      if-served s o.success (served_by o.effects t.0, t.1)
        (record { streamer = o.streamer; encoder = enc; effects = o.effects }, some q)
        (then-Allowed s o.streamer t.0.loop.streamer o.effects t.0.effects (Keeps→Allowed s o k)
          (stream_loop-Allowed c.rounds start (frames.flush_all q) k.valid))
        (Keeps→Allowed s o k)

  pub serve_one-Allowed :
      (s : Streamer) (enc : Encoder) (q : Q) (c : Connection)
      → IsValid s
      → ServedFrom s (serve_one frames s enc q c).0
  unfolding serve_one
  serve_one-Allowed s enc q c v = serve_from-Allowed s enc c (frames.capture q c.waited) v

  -- In the main loop, whatever the frames are and whatever SRT, the clock and the capture thread do
  -- over any number of connections and rounds: the observer of SRT never gives up, so that at most
  -- one receiver is connected, none is sent to after its socket was closed or left open when it is
  -- replaced, and the frames and the heartbeats of each are numbered from 0 on modulo `2 ^ 16`. The
  -- streamer is valid after it.
  pub serve_all-follow :
      (cs : List Connection) (s : Streamer) (enc : Encoder) (left : Option Q)
      → IsValid s
      → let served = (serve_all frames s enc left cs).0 in
        (follow (some (view s)) served.effects ≡ some (view served.streamer))
        × IsValid served.streamer
  unfolding serve_all
  serve_all-follow cs s enc none v = (refl, v)
  serve_all-follow [] s enc (some q) v = (refl, v)
  serve_all-follow (c ∷ cs) s enc (some q) v =
      let one = serve_one frames s enc q c in
      let k = serve_one-Allowed s enc q c v in
      let rest = serve_all frames one.0.streamer one.0.encoder one.1 cs in
      let more = serve_all-follow cs one.0.streamer one.0.encoder one.1 k.valid in
      (
        follow-append (some (view s)) one.0.effects rest.0.effects
            ∙ ap (λ o. follow o rest.0.effects) k.allowed
            ∙ more.0,
        more.1,
      )
