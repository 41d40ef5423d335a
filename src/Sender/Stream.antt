-- ===== src/Sender/Stream.antt =====
-- The main loop of ubuntu/src/main.c: it accepts a receiver and sends it frames until it is gone.
-- What SRT, the clock and the capture thread do are arguments, and so are the rounds that
-- `g_running` allows; the frames come from a `Source`, the ring buffer or what stands for it.
use display_bridge.Prelude.{
  ℕ, Bool, true, false, Option, none, some, List, [], ◌∷◌, ◌++◌, ltb, if◌then◌else◌, length,
}
use display_bridge.Encoder.{Encoder}
use display_bridge.Gop.{force_idr}
use display_bridge.Rate.{Rate, Stats, connect, poll, elapsed}
use display_bridge.Ring.{Frame}
use display_bridge.Capture.Arrivals.{Arrival}
use display_bridge.Sender.Frames.{Source, Around}
use display_bridge.Streamer.{
  Streamer, SockStatus, Effect, Outcome, accept, send, send_heartbeat, is_connected,
}
use display_bridge.Streamer.Sockets.{get_stats}

-- What the stream loop keeps.
pub record Loop : Type 0 where
  pub streamer : Streamer
  pub rate : Rate
  pub last_send_time : ℕ

-- What one round meets: the state of the socket at its test; what the capture thread does; the time,
-- and what SRT does with a message, its state then and at the second test; and the statistics with
-- the time at which they are polled.
pub record Round : Type 0 where
  pub status : SockStatus
  pub around : Around
  pub now : ℕ
  pub sent : Bool
  pub send_status : SockStatus
  pub second_status : SockStatus
  pub sent_at : ℕ
  pub now_abs : ℕ
  pub perf : Option Stats

-- After a round: whether the loop goes on, and what was asked of SRT.
pub record Turn : Type 0 where
  pub goes_on : Bool
  pub loop : Loop
  pub effects : List Effect

abbrev pub turn : Bool → Loop → Outcome → Turn
turn goes_on l o = record {
  goes_on = goes_on;
  loop = record l { streamer = o.streamer };
  effects = o.effects;
}

abbrev pub sent_turn : Loop → ℕ → Outcome → Turn
sent_turn l time o = turn true (record l { last_send_time = time }) o

-- What was asked before a turn.
abbrev pub before : List Effect → Turn → Turn
before effects t = record t { effects = effects ++ t.effects }

-- A frame: when it cannot be sent and the receiver is gone, the loop is left, and otherwise the
-- frame is dropped.
unfoldable pub send_frame : Loop → Round → Frame → Turn
unfolding send is_connected
send_frame l r f =
    let o = send l.streamer f.data_bytes f.pts f.is_keyframe r.now r.sent r.send_status in
    let again = is_connected o.streamer r.second_status in
    if o.success
    then sent_turn l r.sent_at o
    else before o.effects
        (if again.success then sent_turn l r.sent_at again else turn false l again)

-- No frame: a heartbeat, if nothing was sent for more than a second.
unfoldable pub keep_alive : Loop → Round → Turn
unfolding send_heartbeat
keep_alive l r =
    let o = send_heartbeat l.streamer r.now r.sent r.send_status in
    if ltb 1000000 (elapsed r.now l.last_send_time)
    then (if o.success then sent_turn l r.now o else turn false l o)
    else record { goes_on = true; loop = l; effects = [] }

abbrev pub send_or_keep : Loop → Round → Option Frame → Turn
send_or_keep l r none = keep_alive l r
send_or_keep l r (some f) = if ltb 0 (length f.data_bytes) then send_frame l r f else keep_alive l r

-- The end of the round.
abbrev pub poll_stats : Round → Turn → Turn
poll_stats r t =
    if t.goes_on
    then record t {
      loop = record t.loop { rate = poll t.loop.rate r.now_abs (get_stats t.loop.streamer r.perf) };
    }
    else t

abbrev pub stops : Loop → List Effect → Turn
stops l effects = record { goes_on = false; loop = l; effects = effects }

-- The rest of a round, with the frame that was popped and the frames after it; `none` for the frames
-- is a store that C leaves undefined, after which nothing is done.
abbrev pub frame_turn :
    {Q : Type 0} → Loop → Round → Outcome → Option (Option Frame × Q) → Turn × Option Q
frame_turn l r o none = (stops l o.effects, none)
frame_turn l r o (some (popped, q)) =
    (before o.effects (poll_stats r (send_or_keep l r popped)), some q)

-- A round of the main loop: the pictures that come until a receiver is accepted and the frames are
-- flushed, what `srt_accept` does, the time after it, the time at which the stream loop starts, and
-- its rounds.
pub record Connection : Type 0 where
  pub waited : List Arrival
  pub event : Bool
  pub socket : Option ℕ
  pub accepted_at : ℕ
  pub started_at : ℕ
  pub rounds : List Round

-- The stream loop for a receiver that is accepted: the encoder starts again.
abbrev pub start_loop : Streamer → Encoder → ℕ → Loop
start_loop s enc now =
    let rate = connect enc now in
    record {
      streamer = s;
      rate = record rate { encoder = force_idr rate.encoder };
      last_send_time = now;
    }

-- The streamer and the encoder after a round of the main loop, and what was asked of SRT.
pub record Served : Type 0 where
  pub streamer : Streamer
  pub encoder : Encoder
  pub effects : List Effect

abbrev pub served_by : List Effect → Turn → Served
served_by effects t = record {
  streamer = t.loop.streamer;
  encoder = t.loop.rate.encoder;
  effects = effects ++ t.effects;
}

abbrev pub nothing_served : Streamer → Encoder → Served
nothing_served s enc = record { streamer = s; encoder = enc; effects = [] }

-- Each function also gives the frames after it.
module _ {Q : Type 0} (frames : Source Q) where
  -- A round of the stream loop.
  unfoldable pub stream_round : Loop → Q → Round → Turn × Option Q
  unfolding send_frame keep_alive is_connected
  stream_round l q r =
      let o = is_connected l.streamer r.status in
      if o.success
      then frame_turn (record l { streamer = o.streamer }) r o (frames.take q r.around)
      else (turn false l o, some q)

  -- The stream loop, for the rounds that come.
  unfoldable pub stream_loop : Loop → Option Q → List Round → Turn × Option Q
  unfolding stream_round
  stream_loop l none rounds = (stops l [], none)
  stream_loop l (some q) [] = (record { goes_on = true; loop = l; effects = [] }, some q)
  stream_loop l (some q) (r ∷ rs) =
      let (t, left) = stream_round l q r in
      let rest = stream_loop t.loop left rs in
      if t.goes_on then (before t.effects rest.0, rest.1) else (t, left)

  abbrev pub serve_from : Streamer → Encoder → Connection → Option Q → Served × Option Q
  serve_from s enc c none = (nothing_served s enc, none)
  serve_from s enc c (some q) =
      let o = accept s c.event c.socket c.accepted_at in
      let t = stream_loop (start_loop o.streamer enc c.started_at) (frames.flush_all q) c.rounds in
      if o.success
      then (served_by o.effects t.0, t.1)
      else (record { streamer = o.streamer; encoder = enc; effects = o.effects }, some q)

  -- A round of the main loop.
  unfoldable pub serve_one : Streamer → Encoder → Q → Connection → Served × Option Q
  unfolding accept stream_loop
  serve_one s enc q c = serve_from s enc c (frames.capture q c.waited)

  -- The main loop.
  unfoldable pub serve_all : Streamer → Encoder → Option Q → List Connection → Served × Option Q
  unfolding serve_one
  serve_all s enc none cs = (nothing_served s enc, none)
  serve_all s enc (some q) [] = (nothing_served s enc, some q)
  serve_all s enc (some q) (c ∷ cs) =
      let (served, left) = serve_one s enc q c in
      let rest = serve_all served.streamer served.encoder left cs in
      (record rest.0 { effects = served.effects ++ rest.0.effects }, rest.1)
