-- ===== src/Sender/Waiting.antt =====
-- The wait of `ring_pop` in the main loop, while pictures come.
use display_bridge.Prelude.{
  ℕ, ◌≡◌, ◌≢◌, refl, sym, ap, ◌∙◌, true, Option, none, some, List, [], ◌∷◌, and_both, inl, inr,
}
use display_bridge.Ring.{
  Frame, RingBuffer, Wake, timed_out, woken, Popped, entry, nothing, pop, pop_wait,
}
use display_bridge.Ring.Inv.{IsValid, taken, pop-empty}
use display_bridge.Ring.Refine.{contents, pop_refines}
use display_bridge.Capture.Arrivals.{
  Arrival, capture_all, queue_all, all_found, capture_all-Holds, frame_at,
}
use display_bridge.Sender.Frames.{wakes, queue_wait, all_found_each}

pop_wait-first :
    (rb : RingBuffer) {i : ℕ} {rb' : RingBuffer} (timeout_ms : ℕ) (ws : List Wake)
    → pop rb ≡ some (i, rb')
    → pop_wait rb timeout_ms ws ≡ entry i rb'
unfolding pop_wait
pop_wait-first rb timeout_ms [] e = rw (e, pop_wait) refl
pop_wait-first rb timeout_ms (timed_out later ∷ ws) e = rw (e, pop_wait) refl
pop_wait-first rb timeout_ms (woken later ∷ ws) e = rw (e, pop_wait) refl

pop_wait-timed_out :
    (rb later : RingBuffer) → pop rb ≡ none → pop_wait rb 100 (timed_out later ∷ []) ≡ nothing later
unfolding pop_wait
pop_wait-timed_out rb later e = rw (e, pop_wait) refl

pop_wait-woken :
    (rb later : RingBuffer) (ws : List Wake)
    → pop rb ≡ none
    → pop_wait rb 100 (woken later ∷ ws) ≡ pop_wait later 100 ws
unfolding pop_wait
pop_wait-woken rb later ws e = rw (e, pop_wait) refl

wakes-last :
    (rb : RingBuffer) {later : RingBuffer} (at_deadline : List Arrival)
    → capture_all (some rb) at_deadline ≡ some later
    → wakes rb [] at_deadline ≡ timed_out later ∷ []
unfolding wakes
wakes-last rb at_deadline e = rw (e, wakes) refl

wakes-more :
    (rb : RingBuffer) {later : RingBuffer} (arrivals : List Arrival) (signals : List (List Arrival))
    (at_deadline : List Arrival)
    → capture_all (some rb) arrivals ≡ some later
    → wakes rb (arrivals ∷ signals) at_deadline ≡ woken later ∷ wakes later signals at_deadline
unfolding wakes
wakes-more rb arrivals signals at_deadline e = rw (e, wakes) refl

-- `ring_pop` returns the slot of the frame that the queue gives, or nothing where it gives none.
pub data Agrees (w : Option Frame × List Frame) (p : Popped) : Type 0 where
  got :
      (rb : RingBuffer)
      → IsValid rb
      → rb.head ≢ rb.tail
      → p ≡ entry rb.tail (taken rb)
      → w ≡ (some (frame_at rb rb.tail), contents (taken rb))
      → Agrees w p
  late : (rb : RingBuffer) → IsValid rb → p ≡ nothing rb → w ≡ (none, contents rb) → Agrees w p

Agrees-≡ :
    {v w : Option Frame × List Frame} {p q : Popped} → w ≡ v → q ≡ p → Agrees v p → Agrees w q
Agrees-≡ e h (got rb valid busy f g) = got rb valid busy (h ∙ f) (e ∙ g)
Agrees-≡ e h (late rb valid f g) = late rb valid (h ∙ f) (e ∙ g)

queue_wait-timed_out :
    (q later : List Frame) (at_deadline : List Arrival)
    → q ≡ []
    → queue_all q at_deadline ≡ later
    → queue_wait q [] at_deadline ≡ (none, later)
unfolding queue_wait
queue_wait-timed_out [] later at_deadline c e = ap (λ r. (none, r)) e
queue_wait-timed_out (f ∷ q) later at_deadline c e = cc

queue_wait-woken :
    (q later : List Frame) (arrivals : List Arrival) (signals : List (List Arrival))
    (at_deadline : List Arrival)
    → q ≡ []
    → queue_all q arrivals ≡ later
    → queue_wait q (arrivals ∷ signals) at_deadline ≡ queue_wait later signals at_deadline
unfolding queue_wait
queue_wait-woken [] later arrivals signals at_deadline c e =
    ap (λ r. queue_wait r signals at_deadline) e
queue_wait-woken (f ∷ q) later arrivals signals at_deadline c e = cc

-- A frame is there.
first-Agrees :
    (rb : RingBuffer) (signals : List (List Arrival)) (at_deadline : List Arrival) (ws : List Wake)
    → IsValid rb
    → pop rb ≡ some (rb.tail, taken rb)
    → contents rb ≡ frame_at rb rb.tail ∷ contents (taken rb)
    → Agrees (queue_wait (contents rb) signals at_deadline) (pop_wait rb 100 ws)
first-Agrees rb signals at_deadline ws v e c =
    got rb v (λ h. cc (e, pop-empty rb h)) (pop_wait-first rb 100 ws e)
      (ap (λ q. queue_wait q signals at_deadline) c ∙ unfold queue_wait in refl)

-- The wait goes through the pictures that come as the queue does.
pub wait-Agrees :
    (signals : List (List Arrival)) (rb : RingBuffer) (at_deadline : List Arrival)
    → IsValid rb
    → all_found_each signals ≡ true
    → all_found at_deadline ≡ true
    → Agrees
        (queue_wait (contents rb) signals at_deadline)
        (pop_wait rb 100 (wakes rb signals at_deadline))
wait-Agrees [] rb at_deadline v hs hd = elim (pop_refines rb v) [
  | inl (c, e) ↦
      let h = capture_all-Holds at_deadline rb v hd in
      late h.ring h.valid
        (ap (pop_wait rb 100) (wakes-last rb at_deadline h.there) ∙ pop_wait-timed_out rb h.ring e)
        (queue_wait-timed_out (contents rb) (contents h.ring) at_deadline c (sym h.same))
  | inr (e, v', c) ↦ first-Agrees rb [] at_deadline (wakes rb [] at_deadline) v e c
]
wait-Agrees (arrivals ∷ signals) rb at_deadline v hs hd = elim (pop_refines rb v) [
  | inl (c, e) ↦
      let both = and_both (all_found arrivals) (all_found_each signals) hs in
      let h = capture_all-Holds arrivals rb v both.0 in
      Agrees-≡
        (queue_wait-woken (contents rb) (contents h.ring) arrivals signals at_deadline c
          (sym h.same))
        (ap (pop_wait rb 100) (wakes-more rb arrivals signals at_deadline h.there)
          ∙ pop_wait-woken rb h.ring (wakes h.ring signals at_deadline) e)
        (wait-Agrees signals h.ring at_deadline h.valid both.1 hd)
  | inr (e, v', c) ↦
      first-Agrees rb (arrivals ∷ signals) at_deadline (wakes rb (arrivals ∷ signals) at_deadline) v
        e c
]
