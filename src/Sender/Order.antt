-- ===== src/Sender/Order.antt =====
-- The frames that come out of the queue are those that went in, in their order, some of them left
-- out: what is lost is dropped or flushed, and nothing is doubled or changed places.
use mathlib.Core.List.Sublist
use mathlib.Core.List.{Sublist, sublist-append_left, map-append}
use display_bridge.Prelude.{
  ℕ, subst, Bool, true, false, Option, none, some, List, [], ◌∷◌, ◌++◌, leb, if◌then◌else◌, drop,
  length, take, ℕ, append_assoc, append-nil, map,
}
use display_bridge.Ring.{Frame}
use display_bridge.Streamer.Receiver.{max_data}
use display_bridge.Ring.Queue
use display_bridge.Capture.Arrivals.{Arrival, delivered, queue_one, queue_all}
use display_bridge.Sender.Frames.{Around, queue_wait, queue_take}

-- The bytes of a frame that the receiver has room for, which are all of them up to 8 MiB less the
-- headers.
abbrev pub arriving : Frame → List ℕ
arriving f = take max_data f.data_bytes

abbrev pub data_in : List Frame → List (List ℕ)
data_in = map arriving

abbrev pub data_of : Option Frame → List (List ℕ)
data_of none = []
data_of (some f) = arriving f ∷ []

-- What the capture callback delivers.
abbrev pub deliveries : List Arrival → List (List ℕ)
deliveries [] = []
deliveries (a ∷ rest) = data_of (delivered a) ++ deliveries rest

abbrev pub deliveries_each : List (List Arrival) → List (List ℕ)
deliveries_each [] = []
deliveries_each (arrivals ∷ rest) = deliveries arrivals ++ deliveries_each rest

abbrev pub deliveries_around : Around → List (List ℕ)
deliveries_around a =
    deliveries a.earlier
    ++ ((deliveries_each a.signals ++ deliveries a.at_deadline) ++ deliveries a.meanwhile)

drop-sublist : (q : List Frame) → Sublist (data_in (drop 1 q)) (data_in q)
drop-sublist [] = Sublist.refl []
drop-sublist (f ∷ q) = Sublist.cons (arriving f) (Sublist.refl (data_in q))

push-sublist :
    (q : List Frame) (f : Frame)
    → Sublist (data_in (Queue.push q f)) (data_in q ++ (arriving f ∷ []))
unfolding Queue.push
push-sublist q f =
    rw (map-append)
      (Sublist.append (kept (leb Queue.capacity (length q))) (Sublist.refl (arriving f ∷ [])))
  where
    kept : (b : Bool) → Sublist (data_in (if b then drop 1 q else q)) (data_in q)
    kept true = drop-sublist q
    kept false = Sublist.refl (data_in q)

queue_one-sublist :
    (q : List Frame) (o : Option Frame) → Sublist (data_in (queue_one q o)) (data_in q ++ data_of o)
queue_one-sublist q none = sublist-append_left (data_in q) []
queue_one-sublist q (some f) = push-sublist q f

-- From a queue to a queue, with what is delivered and what comes out meanwhile.
abbrev pub Flow : List (List ℕ) → List (List ℕ) → List (List ℕ) → List (List ℕ) → Type 0
Flow before delivered_data out after = Sublist (out ++ after) (before ++ delivered_data)

pub chain :
    (q0 d1 out1 q1 d2 out2 q2 : List (List ℕ))
    → Flow q0 d1 out1 q1
    → Flow q1 d2 out2 q2
    → Flow q0 (d1 ++ d2) (out1 ++ out2) q2
chain q0 d1 out1 q1 d2 out2 q2 h k =
    rw (append_assoc, ← append_assoc q0 d1 d2)
      (Sublist.trans (Sublist.append (Sublist.refl out1) k)
        (rw (← append_assoc) (Sublist.append h (Sublist.refl d2))))

pub chain_quiet :
    (q0 d1 out q1 d2 q2 : List (List ℕ))
    → Flow q0 d1 out q1
    → Flow q1 d2 [] q2
    → Flow q0 (d1 ++ d2) out q2
chain_quiet q0 d1 out q1 d2 q2 h k =
    subst (λ o. Flow q0 (d1 ++ d2) o q2) (append-nil out) (chain q0 d1 out q1 d2 [] q2 h k)

pub queue_all-Flow :
    (arrivals : List Arrival) (q : List Frame)
    → Flow (data_in q) (deliveries arrivals) [] (data_in (queue_all q arrivals))
unfolding queue_all
queue_all-Flow [] q = sublist-append_left (data_in q) []
queue_all-Flow (a ∷ rest) q =
    let o = delivered a in
    chain_quiet (data_in q) (data_of o) [] (data_in (queue_one q o)) (deliveries rest) _
      (queue_one-sublist q o) (queue_all-Flow rest (queue_one q o))

queue_wait-Flow :
    (signals : List (List Arrival)) (at_deadline : List Arrival) (q : List Frame)
    → let w = queue_wait q signals at_deadline in
      Flow
        (data_in q)
        (deliveries_each signals ++ deliveries at_deadline)
        (data_of w.0)
        (data_in w.1)
unfolding queue_wait
queue_wait-Flow [] at_deadline [] = queue_all-Flow at_deadline []
queue_wait-Flow [] at_deadline (f ∷ q) = sublist-append_left (data_in (f ∷ q)) _
queue_wait-Flow (arrivals ∷ signals) at_deadline (f ∷ q) = sublist-append_left (data_in (f ∷ q)) _
queue_wait-Flow (arrivals ∷ signals) at_deadline [] =
    let next = queue_all [] arrivals in
    rw (append_assoc) (
      chain [] (deliveries arrivals) [] (data_in next)
        (deliveries_each signals ++ deliveries at_deadline)
        (data_of (queue_wait next signals at_deadline).0)
        (data_in (queue_wait next signals at_deadline).1) (queue_all-Flow arrivals [])
        (queue_wait-Flow signals at_deadline next))

-- What `ring_pop` hands out is the next of what was queued and is delivered.
pub queue_take-Flow :
    (a : Around) (q : List Frame)
    → let w = queue_take q a in Flow (data_in q) (deliveries_around a) (data_of w.0) (data_in w.1)
unfolding queue_take
queue_take-Flow a q =
    let first = queue_all q a.earlier in
    let w = queue_wait first a.signals a.at_deadline in
    chain (data_in q) (deliveries a.earlier) [] (data_in first)
      ((deliveries_each a.signals ++ deliveries a.at_deadline) ++ deliveries a.meanwhile)
      (data_of w.0) (data_in (queue_all w.1 a.meanwhile)) (queue_all-Flow a.earlier q)
      (chain_quiet (data_in first) (deliveries_each a.signals ++ deliveries a.at_deadline)
        (data_of w.0) (data_in w.1) (deliveries a.meanwhile) (data_in (queue_all w.1 a.meanwhile))
        (queue_wait-Flow a.signals a.at_deadline first) (queue_all-Flow a.meanwhile w.1))
