-- ===== src/Capture/Arrivals.antt =====
-- The capture thread beside the main thread: the pictures that its callback gets, one after the
-- other, and what is left of them in the ring and in the queue that the ring stands for.
use display_bridge.Prelude.{
  ℕ, ◌≡◌, ◌≢◌, refl, sym, ap, ◌∙◌, ◌≤◌, arith, Bool, true, ◌&&◌, inr, Option, none, some, List, [],
  ◌∷◌, ◌==◌, if◌then◌else◌, length, get_or, and_both,
}
use display_bridge.Protocol.{target_width, target_height}
use display_bridge.Ring.{Frame, Entry, RingBuffer, Pushed, pushed, no_memory, fault, push, no_entry}
use display_bridge.Ring.Queue
use display_bridge.Ring.Inv.{IsValid}
use display_bridge.Ring.Refine.{contents, push_refines}
use display_bridge.Ring.Lifetime.{push_one}
use display_bridge.Capture.{Encoded, encode_failed, no_output, encoded, frame_of, on_frame_captured}

-- A call of the callback: the picture, what the encoder answers, the time and what `malloc` does.
pub record Arrival : Type 0 where
  pub has_data : Bool
  pub width : ℕ
  pub height : ℕ
  pub answer : Encoded
  pub now : ℕ
  pub found : Bool

-- `on_frame_captured` goes on whatever `ring_push` returns; `none` is a store that C leaves
-- undefined.
abbrev pub ring_after : Pushed → Option RingBuffer
ring_after (pushed rb) = some rb
ring_after (no_memory rb) = some rb
ring_after fault = none

unfoldable pub capture_one : RingBuffer → Arrival → Pushed
unfolding on_frame_captured
capture_one rb a = (on_frame_captured rb a.has_data a.width a.height a.answer a.now a.found).ring

unfoldable pub capture_all : Option RingBuffer → List Arrival → Option RingBuffer
capture_all none arrivals = none
capture_all (some rb) [] = some rb
capture_all (some rb) (a ∷ rest) = capture_all (ring_after (capture_one rb a)) rest

-- The frame that a call of the callback is to deliver, if any.
abbrev encoded_frame : Encoded → ℕ → Option Frame
encoded_frame encode_failed now = none
encoded_frame no_output now = none
encoded_frame (encoded out_bytes is_keyframe) now =
    if length out_bytes == 0 then none else some (frame_of out_bytes now is_keyframe)

unfoldable pub delivered : Arrival → Option Frame
delivered a =
    if a.width == target_width && a.height == target_height
    then encoded_frame a.answer a.now
    else none

abbrev pub queue_one : List Frame → Option Frame → List Frame
queue_one q none = q
queue_one q (some f) = Queue.push q f

-- The queue after the calls.
unfoldable pub queue_all : List Frame → List Arrival → List Frame
unfolding delivered
queue_all q [] = q
queue_all q (a ∷ rest) = queue_all (queue_one q (delivered a)) rest

-- Every `malloc` finds memory.
abbrev pub all_found : List Arrival → Bool
all_found [] = true
all_found (a ∷ rest) = a.found && all_found rest

-- A frame, if there is one, is pushed.
abbrev pub push_frame : RingBuffer → Option Frame → Bool → Pushed
push_frame rb none found = pushed rb
push_frame rb (some f) found = push rb f found

-- `on_frame_captured` pushes the frame that it is to deliver, and leaves the ring alone otherwise.
captured_ring :
    (rb : RingBuffer) (has_data found : Bool) (width height now : ℕ) (answer : Encoded)
    → (on_frame_captured rb has_data width height answer now found).ring
      ≡ push_frame rb
          (if width == target_width && height == target_height
            then encoded_frame answer now
            else none)
          found
unfolding on_frame_captured
captured_ring rb has_data found width height now encode_failed = ground arith
captured_ring rb has_data found width height now no_output = ground arith
captured_ring rb has_data found width height now (encoded out_bytes is_keyframe) = ground arith

capture_one_lem :
    (rb : RingBuffer) (a : Arrival) → capture_one rb a ≡ push_frame rb (delivered a) a.found
unfolding capture_one delivered
capture_one_lem rb a = captured_ring rb a.has_data a.found a.width a.height a.now a.answer

-- A ring that stands for a queue.
pub record Holds (q : List Frame) (o : Option RingBuffer) : Type 0 where
  pub ring : RingBuffer
  pub there : o ≡ some ring
  pub valid : IsValid ring
  pub same : contents ring ≡ q

push_frame-Holds :
    (rb : RingBuffer) (o : Option Frame) (found : Bool)
    → IsValid rb
    → found ≡ true
    → Holds (queue_one (contents rb) o) (ring_after (push_frame rb o found))
push_frame-Holds rb none found v h = record { ring = rb; there = refl; valid = v; same = refl }
push_frame-Holds rb (some f) found v h =
    let (rb', e, v', c) = push_refines rb f found v (inr h) in
    record { ring = rb'; there = ap ring_after e; valid = v'; same = c }

capture_all-step :
    (rb : RingBuffer) {later : RingBuffer} (a : Arrival) (rest : List Arrival)
    → ring_after (push_frame rb (delivered a) a.found) ≡ some later
    → capture_all (some rb) (a ∷ rest) ≡ capture_all (some later) rest
unfolding capture_all
capture_all-step rb a rest e =
    ap (λ o. capture_all o rest) (ap ring_after (capture_one_lem rb a) ∙ e)

-- Whatever the callback gets and the encoder answers, when `malloc` finds memory the ring holds
-- what the queue does: the frames that are to be delivered, and no others.
pub capture_all-Holds :
    (arrivals : List Arrival) (rb : RingBuffer)
    → IsValid rb
    → all_found arrivals ≡ true
    → Holds (queue_all (contents rb) arrivals) (capture_all (some rb) arrivals)
unfolding queue_all
capture_all-Holds [] rb v h =
    unfold capture_all in record { ring = rb; there = refl; valid = v; same = refl }
capture_all-Holds (a ∷ rest) rb v h =
    let both = and_both a.found (all_found rest) h in
    let one = push_frame-Holds rb (delivered a) a.found v both.0 in
    let more = capture_all-Holds rest one.ring one.valid both.1 in
    record {
      ring = more.ring;
      there = capture_all-step rb a rest one.there ∙ more.there;
      valid = more.valid;
      same = more.same ∙ ap (λ q. queue_all q rest) one.same;
    }

-- The frame in slot `i`.
abbrev pub frame_at : RingBuffer → ℕ → Frame
frame_at rb i = (get_or rb.entries i no_entry).frame

some-injective {ℓ} : {A : Type ℓ} {a b : A} → some a ≡ some b → a ≡ b
some-injective h = cc

push_frame-kept :
    (rb : RingBuffer) (o : Option Frame) (found : Bool) (i : ℕ) {later : RingBuffer}
    → IsValid rb
    → rb.head ≢ i
    → found ≡ true
    → ring_after (push_frame rb o found) ≡ some later
    → frame_at later i ≡ frame_at rb i
push_frame-kept rb none found i v ne h e = ap (λ r. frame_at r i) (some-injective (sym e))
push_frame-kept rb (some f) found i v ne h e =
    let one = push_one rb f i v ne in
    let same = sym (ap (λ b. ring_after (push rb f b)) h ∙ ap ring_after one.returns) ∙ e in
    ap (λ r. frame_at r i) (some-injective (sym same)) ∙ ap (λ (x : Entry). x.frame) one.same

-- While at most one picture comes, a slot that is not the next to be written keeps its frame.
pub capture_all-kept :
    (arrivals : List Arrival) (rb : RingBuffer) (i : ℕ) {later : RingBuffer}
    → IsValid rb
    → rb.head ≢ i
    → length arrivals ≤ 1
    → all_found arrivals ≡ true
    → capture_all (some rb) arrivals ≡ some later
    → frame_at later i ≡ frame_at rb i
unfolding capture_all
capture_all-kept [] rb i v ne few h e = ap (λ r. frame_at r i) (some-injective (sym e))
capture_all-kept (a ∷ []) rb i {later} v ne few h e =
    let both = and_both a.found true h in
    let one = push_frame-Holds rb (delivered a) a.found v both.0 in
    push_frame-kept rb (delivered a) a.found i {later = later} v ne both.0
      (one.there ∙ sym (capture_all-step rb a [] one.there) ∙ e)
capture_all-kept (a ∷ b ∷ rest) rb i v ne few h e = absurd (omega arith)
