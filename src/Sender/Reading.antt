-- ===== src/Sender/Reading.antt =====
-- The frame that the main loop reads through the pointer that `ring_pop` returned.
use display_bridge.Prelude.{
  ◌≡◌, sym, ap, ◌∙◌, ◌≤◌, arith, true, ◌&&◌, Option, none, some, List, ltb, ltb→lt, length,
  and_both,
}
use display_bridge.Ring.{Frame, RingBuffer, Popped, pop_wait}
use display_bridge.Ring.Inv.{IsValid, taken, taken-IsValid}
use display_bridge.Ring.Refine.{contents}
use display_bridge.Capture.Arrivals.{
  Arrival, queue_all, all_found, capture_all-Holds, capture_all-kept,
}
use display_bridge.Sender.Waiting.{Agrees, got, late, wait-Agrees}
use display_bridge.Sender.Frames.{
  Around, wakes, read_at, read_entry, pop_at, ring_take, queue_wait, queue_take, all_found_each,
  in_time,
}

-- What the queue gives, and the ring with the rest of it, if the code gives the same.
pub record Gives (w : Option Frame × List Frame) (o : Option (Option Frame × RingBuffer))
    : Type 0 where
  pub ring : RingBuffer
  pub there : o ≡ some (w.0, ring)
  pub valid : IsValid ring
  pub same : contents ring ≡ w.1

-- While at most one picture comes, the entry still has the frame that was popped.
read-Gives :
    (w : Option Frame × List Frame) (p : Popped) (meanwhile : List Arrival)
    → all_found meanwhile ≡ true
    → length meanwhile ≤ 1
    → Agrees w p
    → Gives (w.0, queue_all w.1 meanwhile) (read_entry p meanwhile)
unfolding read_entry
read-Gives w p meanwhile found few (got rb v busy e f) =
    let h = capture_all-Holds meanwhile (taken rb) (taken-IsValid v) found in
    let kept =
      capture_all-kept meanwhile (taken rb) rb.tail (taken-IsValid v) busy few found h.there in
    record {
      ring = h.ring;
      there =
          ap (λ x. read_entry x meanwhile) e
          ∙ ap (read_at (some rb.tail)) h.there
          ∙ ap (λ x. some (some x, h.ring)) kept
          ∙ ap (λ (x : Option Frame × List Frame). some (x.0, h.ring)) (sym f);
      valid = h.valid;
      same = h.same ∙ ap (λ (x : Option Frame × List Frame). queue_all x.1 meanwhile) (sym f);
    }
read-Gives w p meanwhile found few (late rb v e f) =
    let h = capture_all-Holds meanwhile rb v found in
    record {
      ring = h.ring;
      there =
          ap (λ x. read_entry x meanwhile) e
          ∙ ap (read_at none) h.there
          ∙ ap (λ (x : Option Frame × List Frame). some (x.0, h.ring)) (sym f);
      valid = h.valid;
      same = h.same ∙ ap (λ (x : Option Frame × List Frame). queue_all x.1 meanwhile) (sym f);
    }

-- `ring_pop` with all that happens around it gives what the queue gives.
pub take-Gives :
    (rb : RingBuffer) (a : Around)
    → IsValid rb
    → in_time a ≡ true
    → Gives (queue_take (contents rb) a) (ring_take rb a)
unfolding queue_take ring_take
take-Gives rb a v h =
    let (first, last) =
      and_both (all_found a.earlier && all_found_each a.signals)
        (all_found a.at_deadline && (all_found a.meanwhile && ltb (length a.meanwhile) 2)) h in
    let (earlier, signals) = and_both (all_found a.earlier) (all_found_each a.signals) first in
    let (deadline, rest) =
      and_both (all_found a.at_deadline) (all_found a.meanwhile && ltb (length a.meanwhile) 2)
        last in
    let (meanwhile, few) = and_both (all_found a.meanwhile) (ltb (length a.meanwhile) 2) rest in
    let start = capture_all-Holds a.earlier rb v earlier in
    let waited = wait-Agrees a.signals start.ring a.at_deadline start.valid signals deadline in
    let r =
      read-Gives (queue_wait (contents start.ring) a.signals a.at_deadline)
        (pop_wait start.ring 100 (wakes start.ring a.signals a.at_deadline)) a.meanwhile meanwhile
        (omega (arith, ltb→lt _ _ few)) waited in
    record {
      ring = r.ring;
      there =
          ap (λ o. pop_at o a) start.there
          ∙ r.there
          ∙ ap (λ q. some ((queue_wait q a.signals a.at_deadline).0, r.ring)) start.same;
      valid = r.valid;
      same =
          r.same
          ∙ ap (λ q. queue_all (queue_wait q a.signals a.at_deadline).1 a.meanwhile) start.same;
    }
