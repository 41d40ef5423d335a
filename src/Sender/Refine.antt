-- ===== src/Sender/Refine.antt =====
-- The main loop over the ring buffer does what it does over the queue.
use display_bridge.Prelude.{
  ◌≡◌, refl, sym, ap, ◌∙◌, Bool, true, false, ◌&&◌, Option, some, List, [], ◌∷◌, ◌++◌,
  if◌then◌else◌, and_both,
}
use display_bridge.Encoder.{Encoder}
use display_bridge.Ring.{Frame, RingBuffer, flush}
use display_bridge.Ring.Inv.{IsValid}
use display_bridge.Ring.Refine.{contents}
use display_bridge.Ring.Flush.{flush_lem, emptied}
use display_bridge.Streamer.{Streamer, Outcome, accept, is_connected}
use display_bridge.Capture.Arrivals.{all_found, Holds, capture_all-Holds, capture_all, queue_all}
use display_bridge.Sender.Frames.{
  flushed, ring_frames, queue_frames, ring_take, queue_take, in_time,
}
use display_bridge.Sender.Reading.{Gives, take-Gives}
use display_bridge.Sender.Same.{Same, Same-bind, Same-map, if-Same, left-Same, Holds-Same}
use display_bridge.Sender.Stream.{
  Loop, Round, turn, before, frame_turn, stream_round, stream_loop, Connection, start_loop, Served,
  served_by, serve_from, serve_one, serve_all, nothing_served,
}

some-Holds : (rb : RingBuffer) → IsValid rb → Holds (contents rb) (some rb)
some-Holds rb v = record { ring = rb; there = refl; valid = v; same = refl }

flush-Holds : (rb : RingBuffer) → IsValid rb → Holds [] (flushed (flush rb))
flush-Holds rb v =
    let (e, c, v') = flush_lem rb v in
    record { ring = emptied rb; there = ap flushed e; valid = v'; same = c }

frame_turn-Same :
    (l : Loop) (r : Round) (o : Outcome) (w : Option Frame × List Frame)
    (taken : Option (Option Frame × RingBuffer))
    → Gives w taken
    → Same (frame_turn l r o taken) (frame_turn l r o (some w))
frame_turn-Same l r o w taken g = record {
  value = ap (λ t. (frame_turn l r o t).0) g.there;
  queue = w.1;
  there = refl;
  holds = record {
    ring = g.ring;
    there = ap (λ t. (frame_turn l r o t).1) g.there;
    valid = g.valid;
    same = g.same;
  };
}

stream_round-Same :
    (l : Loop) (rb : RingBuffer) (r : Round)
    → IsValid rb
    → in_time r.around ≡ true
    → Same (stream_round ring_frames l rb r) (stream_round queue_frames l (contents rb) r)
unfolding stream_round ring_frames queue_frames
stream_round-Same l rb r v h =
    let o = is_connected l.streamer r.status in
    let here = record l { streamer = o.streamer } in
    if-Same o.success (frame_turn here r o (ring_take rb r.around)) (turn false l o, some rb)
      (frame_turn here r o (some (queue_take (contents rb) r.around)))
      (turn false l o, some (contents rb))
      (frame_turn-Same here r o (queue_take (contents rb) r.around) (ring_take rb r.around)
        (take-Gives rb r.around v h))
      (left-Same (turn false l o) (some rb) (contents rb) (some-Holds rb v))

-- Every round is in time.
abbrev rounds_in_time : List Round → Bool
rounds_in_time [] = true
rounds_in_time (r ∷ rs) = in_time r.around && rounds_in_time rs

stream_loop-Same :
    (rs : List Round) (l : Loop) (o : Option RingBuffer) (q : List Frame)
    → Holds q o
    → rounds_in_time rs ≡ true
    → Same (stream_loop ring_frames l o rs) (stream_loop queue_frames l (some q) rs)
unfolding stream_loop
stream_loop-Same [] l o q h e =
    Holds-Same (λ x. stream_loop ring_frames l x []) (λ x. stream_loop queue_frames l x []) o q
      (λ rb v.
        left-Same (record { goes_on = true; loop = l; effects = [] }) (some rb) (contents rb)
          (some-Holds rb v))
      h
stream_loop-Same (r ∷ rs) l o q h e =
    let both = and_both (in_time r.around) (rounds_in_time rs) e in
    Holds-Same (λ x. stream_loop ring_frames l x (r ∷ rs))
      (λ x. stream_loop queue_frames l x (r ∷ rs)) o q
      (λ rb v.
        Same-bind (stream_round ring_frames l rb r) (stream_round queue_frames l (contents rb) r)
          (λ t.
            let rest = stream_loop ring_frames t.0.loop t.1 rs in
            if t.0.goes_on then (before t.0.effects rest.0, rest.1) else t)
          (λ t.
            let rest = stream_loop queue_frames t.0.loop t.1 rs in
            if t.0.goes_on then (before t.0.effects rest.0, rest.1) else t)
          (stream_round-Same l rb r v both.0)
          (λ t left queue k.
            let x = stream_loop ring_frames t.loop left rs in
            let y = stream_loop queue_frames t.loop (some queue) rs in
            if-Same t.goes_on (before t.effects x.0, x.1) (t, left) (before t.effects y.0, y.1)
              (t, some queue)
              (Same-map (before t.effects) x y (stream_loop-Same rs t.loop left queue k both.1))
              (left-Same t left queue k)))
      h

abbrev connection_in_time : Connection → Bool
connection_in_time c = all_found c.waited && rounds_in_time c.rounds

serve_from-Same :
    (s : Streamer) (enc : Encoder) (c : Connection) (o : Option RingBuffer) (q : List Frame)
    → Holds q o
    → rounds_in_time c.rounds ≡ true
    → Same (serve_from ring_frames s enc c o) (serve_from queue_frames s enc c (some q))
unfolding ring_frames queue_frames
serve_from-Same s enc c o q h e =
    Holds-Same (serve_from ring_frames s enc c) (serve_from queue_frames s enc c) o q
      (λ rb v.
        let a = accept s c.event c.socket c.accepted_at in
        let start = start_loop a.streamer enc c.started_at in
        let x = stream_loop ring_frames start (flushed (flush rb)) c.rounds in
        let y = stream_loop queue_frames start (some []) c.rounds in
        let idle : Served = record { streamer = a.streamer; encoder = enc; effects = a.effects } in
        if-Same a.success (served_by a.effects x.0, x.1) (idle, some rb)
          (served_by a.effects y.0, y.1) (idle, some (contents rb))
          (Same-map (served_by a.effects) x y
            (stream_loop-Same c.rounds start (flushed (flush rb)) [] (flush-Holds rb v) e))
          (left-Same idle (some rb) (contents rb) (some-Holds rb v)))
      h

serve_one-Same :
    (s : Streamer) (enc : Encoder) (rb : RingBuffer) (c : Connection)
    → IsValid rb
    → connection_in_time c ≡ true
    → Same (serve_one ring_frames s enc rb c) (serve_one queue_frames s enc (contents rb) c)
unfolding serve_one ring_frames queue_frames
serve_one-Same s enc rb c v e =
    let both = and_both (all_found c.waited) (rounds_in_time c.rounds) e in
    serve_from-Same s enc c (capture_all (some rb) c.waited) (queue_all (contents rb) c.waited)
      (capture_all-Holds c.waited rb v both.0) both.1

-- The memory is there for every frame, and while an entry is read at most one picture comes.
abbrev pub all_in_time : List Connection → Bool
all_in_time [] = true
all_in_time (c ∷ cs) = connection_in_time c && all_in_time cs

serve_all-Same :
    (cs : List Connection) (s : Streamer) (enc : Encoder) (o : Option RingBuffer) (q : List Frame)
    → Holds q o
    → all_in_time cs ≡ true
    → Same (serve_all ring_frames s enc o cs) (serve_all queue_frames s enc (some q) cs)
unfolding serve_all
serve_all-Same [] s enc o q h e =
    Holds-Same (λ x. serve_all ring_frames s enc x []) (λ x. serve_all queue_frames s enc x []) o q
      (λ rb v. left-Same (nothing_served s enc) (some rb) (contents rb) (some-Holds rb v)) h
serve_all-Same (c ∷ cs) s enc o q h e =
    let both = and_both (connection_in_time c) (all_in_time cs) e in
    Holds-Same (λ x. serve_all ring_frames s enc x (c ∷ cs))
      (λ x. serve_all queue_frames s enc x (c ∷ cs)) o q
      (λ rb v.
        Same-bind (serve_one ring_frames s enc rb c) (serve_one queue_frames s enc (contents rb) c)
          (λ t.
            let rest = serve_all ring_frames t.0.streamer t.0.encoder t.1 cs in
            (record rest.0 { effects = t.0.effects ++ rest.0.effects }, rest.1))
          (λ t.
            let rest = serve_all queue_frames t.0.streamer t.0.encoder t.1 cs in
            (record rest.0 { effects = t.0.effects ++ rest.0.effects }, rest.1))
          (serve_one-Same s enc rb c v both.0)
          (λ t left queue k.
            Same-map (λ (x : Served). record x { effects = t.effects ++ x.effects })
              (serve_all ring_frames t.streamer t.encoder left cs)
              (serve_all queue_frames t.streamer t.encoder (some queue) cs)
              (serve_all-Same cs t.streamer t.encoder left queue k both.1)))
      h

-- The whole sender over its ring buffer, from the capture callback through `ring_pop` and the flush
-- to SRT, does what it does over the queue that drops its oldest frame: over any number of
-- connections and rounds, with pictures that come at any time, before, during and after each wait,
-- it asks the same of SRT, leaves the same streamer and encoder, and a ring that holds what the
-- queue does; and nothing is stored where it must not be. This holds from a valid ring, when
-- `malloc` finds memory and at most one picture comes between the return of `ring_pop` and the read
-- of its entry.
pub serve_all_refines :
    (cs : List Connection) (s : Streamer) (enc : Encoder) (rb : RingBuffer)
    → IsValid rb
    → all_in_time cs ≡ true
    → let code = serve_all ring_frames s enc (some rb) cs in
      let model = serve_all queue_frames s enc (some (contents rb)) cs in
      (code.0 ≡ model.0)
      × ((rb' : RingBuffer) × (code.1 ≡ some rb') × IsValid rb' × (model.1 ≡ some (contents rb')))
serve_all_refines cs s enc rb v e =
    let r = serve_all-Same cs s enc (some rb) (contents rb) (some-Holds rb v) e in
    (r.value, (r.holds.ring, r.holds.there, r.holds.valid, r.there ∙ ap some (sym r.holds.same)))
