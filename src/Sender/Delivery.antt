-- ===== src/Sender/Delivery.antt =====
-- From the capture callback to the receiver: what is shown comes in the order of the captures.
use mathlib.Core.List.Sublist
use mathlib.Core.List.{Sublist, sublist-append_left, nil-sublist}
use display_bridge.Prelude.{
  ℕ, ◌≡◌, sym, subst, ap, ◌∙◌, Bool, true, false, Option, none, some, List, [], ◌∷◌, ◌++◌,
  if◌then◌else◌,
}
use display_bridge.Encoder.{Encoder}
use display_bridge.Ring.{Frame, RingBuffer}
use display_bridge.Ring.Inv
use display_bridge.Ring.Refine.{contents}
use display_bridge.Streamer.{Streamer, Effect, accept, is_connected}
use display_bridge.Streamer.Observer.{IsValid}
use display_bridge.Streamer.Session.{is_connected-Keeps, accept-Keeps}
use display_bridge.Sender.Frames.{ring_frames, queue_frames, queue_take}
use display_bridge.Sender.Order.{
  data_in, data_of, deliveries, deliveries_around, Flow, chain, chain_quiet, queue_all-Flow,
  queue_take-Flow,
}
use display_bridge.Sender.Shown.{send_or_keep-Shows, poll_stats-Shows}
use display_bridge.Sender.Refine.{all_in_time, serve_all_refines}
use display_bridge.Sender.Receiving.{videos, videos-append, videos-is_connected, videos-accept}
use display_bridge.Sender.Service.{stream_round-Allowed, serve_one-Allowed}
use display_bridge.Sender.Stream.{
  Loop, Round, Turn, turn, before, send_or_keep, poll_stats, frame_turn, stream_round, stream_loop,
  Connection, start_loop, Served, serve_from, serve_one, serve_all, served_by,
}
use display_bridge.Capture.Arrivals.{queue_all}

abbrev data_left : Option (List Frame) → List (List ℕ)
data_left none = []
data_left (some q) = data_in q

-- From the frames that are left at one time to those at another.
abbrev Passes : Option (List Frame) → List (List ℕ) → List Effect → Option (List Frame) → Type 0
Passes from delivered_data effects to =
    Flow (data_left from) delivered_data (videos effects) (data_left to)

if-Passes :
    (b : Bool) (from : Option (List Frame)) (d : List (List ℕ)) (x y : Turn × Option (List Frame))
    → Passes from d x.0.effects x.1
    → Passes from d y.0.effects y.1
    → Passes from d (if b then x else y).0.effects (if b then x else y).1
if-Passes true from d x y h k = h
if-Passes false from d x y h k = k

then-Passes :
    (o p q : Option (List Frame)) (d e : List (List ℕ)) (es fs : List Effect)
    → Passes o d es p
    → Passes p e fs q
    → Passes o (d ++ e) (es ++ fs) q
then-Passes o p q d e es fs h k =
    subst (λ v. Flow (data_left o) (d ++ e) v (data_left q)) (sym (videos-append es fs))
      (chain (data_left o) d (videos es) (data_left p) e (videos fs) (data_left q) h k)

-- What is delivered later changes nothing.
weaker-Passes :
    (o p : Option (List Frame)) (d e : List (List ℕ)) (es : List Effect)
    → Passes o d es p
    → Passes o (d ++ e) es p
weaker-Passes o p d e es h =
    chain_quiet (data_left o) d (videos es) (data_left p) e (data_left p) h
      (sublist-append_left (data_left p) e)

-- Effects without a frame.
quiet-Passes :
    (o : Option (List Frame)) (d : List (List ℕ)) (es : List Effect)
    → videos es ≡ []
    → Passes o d es o
quiet-Passes o d es e =
    subst (λ v. Flow (data_left o) d v (data_left o)) (sym e) (sublist-append_left (data_left o) d)

stream_round-Passes :
    (l : Loop) (q : List Frame) (r : Round)
    → IsValid l.streamer
    → let x = stream_round queue_frames l q r in
      Passes (some q) (deliveries_around r.around) x.0.effects x.1
unfolding stream_round queue_frames
stream_round-Passes l q r v =
    let o = is_connected l.streamer r.status in
    let k = is_connected-Keeps l.streamer r.status v in
    let here = record l { streamer = o.streamer } in
    let w = queue_take q r.around in
    let t = send_or_keep here r w.0 in
    let d = deliveries_around r.around in
    let none_shown = videos-is_connected l.streamer r.status in
    let shown = poll_stats-Shows r t (data_of w.0) (send_or_keep-Shows here r w.0 k.valid) in
    if-Passes o.success (some q) d (frame_turn here r o (some w)) (turn false l o, some q)
      (subst (λ v. Flow (data_in q) d v (data_in w.1))
        (sym (
          videos-append o.effects (poll_stats r t).effects
          ∙ ap (λ v. v ++ videos (poll_stats r t).effects) none_shown))
        (Sublist.trans (Sublist.append shown (Sublist.refl (data_in w.1)))
          (queue_take-Flow r.around q)))
      (quiet-Passes (some q) d o.effects none_shown)

abbrev deliveries_in : List Round → List (List ℕ)
deliveries_in [] = []
deliveries_in (r ∷ rs) = deliveries_around r.around ++ deliveries_in rs

stream_loop-Passes :
    (rs : List Round) (l : Loop) (o : Option (List Frame))
    → IsValid l.streamer
    → let x = stream_loop queue_frames l o rs in Passes o (deliveries_in rs) x.0.effects x.1
unfolding stream_loop
stream_loop-Passes rs l none v = nil-sublist (deliveries_in rs)
stream_loop-Passes [] l (some q) v = sublist-append_left (data_in q) []
stream_loop-Passes (r ∷ rs) l (some q) v =
    let x = stream_round queue_frames l q r in
    let rest = stream_loop queue_frames x.0.loop x.1 rs in
    let d = deliveries_around r.around in
    let first = stream_round-Passes l q r v in
    let k = stream_round-Allowed queue_frames l q r v in
    if-Passes x.0.goes_on (some q) (d ++ deliveries_in rs) (before x.0.effects rest.0, rest.1) x
      (then-Passes (some q) x.1 rest.1 d (deliveries_in rs) x.0.effects rest.0.effects first
        (stream_loop-Passes rs x.0.loop x.1 k.valid))
      (weaker-Passes (some q) x.1 d (deliveries_in rs) x.0.effects first)

if-served :
    (b : Bool) (from : Option (List Frame)) (d : List (List ℕ)) (x y : Served × Option (List Frame))
    → Passes from d x.0.effects x.1
    → Passes from d y.0.effects y.1
    → Passes from d (if b then x else y).0.effects (if b then x else y).1
if-served true from d x y h k = h
if-served false from d x y h k = k

-- The queue is flushed when a receiver is accepted.
flush-Passes :
    (q : List Frame) (es : List Effect) → videos es ≡ [] → Passes (some q) [] es (some [])
flush-Passes q es e = subst (λ v. Flow (data_in q) [] v []) (sym e) (nil-sublist (data_in q ++ []))

serve_from-Passes :
    (s : Streamer) (enc : Encoder) (c : Connection) (q : List Frame)
    → IsValid s
    → let x = serve_from queue_frames s enc c (some q) in
      Passes (some q) (deliveries_in c.rounds) x.0.effects x.1
unfolding queue_frames
serve_from-Passes s enc c q v =
    let o = accept s c.event c.socket c.accepted_at in
    let k = accept-Keeps s c.event c.socket c.accepted_at v in
    let start = start_loop o.streamer enc c.started_at in
    let t = stream_loop queue_frames start (some []) c.rounds in
    let d = deliveries_in c.rounds in
    let no_video = videos-accept s c.event c.socket c.accepted_at in
    if-served o.success (some q) d (served_by o.effects t.0, t.1)
      (record { streamer = o.streamer; encoder = enc; effects = o.effects }, some q)
      (then-Passes (some q) (some []) t.1 [] d o.effects t.0.effects
        (flush-Passes q o.effects no_video) (stream_loop-Passes c.rounds start (some []) k.valid))
      (quiet-Passes (some q) d o.effects no_video)

-- What is delivered to the callback in a round of the main loop, and in all of them.
abbrev deliveries_of : Connection → List (List ℕ)
deliveries_of c = deliveries c.waited ++ deliveries_in c.rounds

abbrev pub all_deliveries : List Connection → List (List ℕ)
all_deliveries [] = []
all_deliveries (c ∷ cs) = deliveries_of c ++ all_deliveries cs

serve_one-Passes :
    (s : Streamer) (enc : Encoder) (c : Connection) (q : List Frame)
    → IsValid s
    → let x = serve_one queue_frames s enc q c in Passes (some q) (deliveries_of c) x.0.effects x.1
unfolding serve_one queue_frames
serve_one-Passes s enc c q v =
    let waited = queue_all q c.waited in
    let x = serve_from queue_frames s enc c (some waited) in
    chain (data_in q) (deliveries c.waited) [] (data_in waited) (deliveries_in c.rounds)
      (videos x.0.effects) (data_left x.1) (queue_all-Flow c.waited q)
      (serve_from-Passes s enc c waited v)

serve_all-Passes :
    (cs : List Connection) (s : Streamer) (enc : Encoder) (o : Option (List Frame))
    → IsValid s
    → let x = serve_all queue_frames s enc o cs in Passes o (all_deliveries cs) x.0.effects x.1
unfolding serve_all
serve_all-Passes cs s enc none v = nil-sublist (all_deliveries cs)
serve_all-Passes [] s enc (some q) v = sublist-append_left (data_in q) []
serve_all-Passes (c ∷ cs) s enc (some q) v =
    let x = serve_one queue_frames s enc q c in
    let rest = serve_all queue_frames x.0.streamer x.0.encoder x.1 cs in
    then-Passes (some q) x.1 rest.1 (deliveries_of c) (all_deliveries cs) x.0.effects rest.0.effects
      (serve_one-Passes s enc c q v)
      (serve_all-Passes cs x.0.streamer x.0.encoder x.1
        (serve_one-Allowed queue_frames s enc q c v).valid)

-- End to end, over any number of connections and rounds, whatever SRT, the clock, the encoder and
-- the capture thread do: the video frames that the receiver's parser finds in the messages handed to
-- SRT have, byte for byte, the data of frames that were queued at first or that the capture callback
-- was to deliver since, in that order and each at most once; of a frame longer than 8 MiB less the
-- 32 bytes of the headers they have as many bytes as that. Frames may be left out, as those that are
-- dropped or flushed are. This holds for a valid streamer and a valid ring, when `malloc` finds
-- memory and at most one picture comes between the return of `ring_pop` and the read of its entry.
pub receive-serve_all :
    (cs : List Connection) (s : Streamer) (enc : Encoder) (rb : RingBuffer)
    → IsValid s
    → Inv.IsValid rb
    → all_in_time cs ≡ true
    → Sublist
        (videos (serve_all ring_frames s enc (some rb) cs).0.effects)
        (data_in (contents rb) ++ all_deliveries cs)
receive-serve_all cs s enc rb v valid e =
    let model = serve_all queue_frames s enc (some (contents rb)) cs in
    let same = (serve_all_refines cs s enc rb valid e).0 in
    subst (λ (x : Served). Sublist (videos x.effects) (data_in (contents rb) ++ all_deliveries cs))
      (sym same)
      (Sublist.trans (sublist-append_left (videos model.0.effects) (data_left model.1))
        (serve_all-Passes cs s enc (some (contents rb)) v))
