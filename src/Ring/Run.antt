-- ===== src/Ring/Run.antt =====
-- Whole histories of the ring buffer: the calls of both threads in the order in which they hold the
-- mutex, with what each returns.
use display_bridge.Prelude.{
  ℕ, ◌≡◌, refl, sym, ap, ◌∙◌, none, some, List, [], ◌∷◌, length, true, inl, inr, get_or,
}
use display_bridge.Ring.{Frame, RingBuffer, no_entry, pushed, no_memory, fault, push, pop, flush}
use display_bridge.Ring.Queue
use display_bridge.Ring.Inv.{IsValid, taken}
use display_bridge.Ring.Refine.{contents, push_refines, pop_refines}
use display_bridge.Ring.Flush.{flush_lem, emptied}

pub data Call : Type 0 where
  put : Frame → Call
  get flush_all : Call

pub data Reply : Type 0 where
  accepted rejected crashed no_frame_yet : Reply
  got : Frame → Reply
  discarded : ℕ → Reply

-- The ring buffer of main.c; every `malloc` finds memory.
unfoldable pub run : RingBuffer → List Call → List Reply
run rb [] = []
run rb (put f ∷ calls) = elim (push rb f true) [
  | pushed rb' ↦ accepted ∷ run rb' calls
  | no_memory rb' ↦ rejected ∷ run rb' calls
  | fault ↦ crashed ∷ []
]
run rb (get ∷ calls) = elim (pop rb) [
  | some (i, rb') ↦ got (get_or rb.entries i no_entry).frame ∷ run rb' calls
  | none ↦ no_frame_yet ∷ run rb calls
]
run rb (flush_all ∷ calls) = elim (flush rb) [
  | some (n, rb') ↦ discarded n ∷ run rb' calls
  | none ↦ crashed ∷ []
]

-- The queue that drops its oldest frame.
unfoldable pub queue_run : List Frame → List Call → List Reply
queue_run q [] = []
queue_run q (put f ∷ calls) = accepted ∷ queue_run (Queue.push q f) calls
queue_run q (get ∷ calls) = elim (Queue.pop q) [
  | some (f, q') ↦ got f ∷ queue_run q' calls
  | none ↦ no_frame_yet ∷ queue_run q calls
]
queue_run q (flush_all ∷ calls) = discarded (length q) ∷ queue_run [] calls

run-put :
    (rb : RingBuffer) {rb' : RingBuffer} (f : Frame) (calls : List Call)
    → push rb f true ≡ pushed rb'
    → run rb (put f ∷ calls) ≡ accepted ∷ run rb' calls
unfolding run
run-put rb f calls e = rw (e, run)

run-get :
    (rb : RingBuffer) {rb' : RingBuffer} {i : ℕ} (calls : List Call)
    → pop rb ≡ some (i, rb')
    → run rb (get ∷ calls) ≡ got (get_or rb.entries i no_entry).frame ∷ run rb' calls
unfolding run
run-get rb calls e = rw (e, run)

run-get_empty :
    (rb : RingBuffer) (calls : List Call)
    → pop rb ≡ none
    → run rb (get ∷ calls) ≡ no_frame_yet ∷ run rb calls
unfolding run
run-get_empty rb calls e = rw (e, run)

run-flush_all :
    (rb : RingBuffer) {rb' : RingBuffer} {n : ℕ} (calls : List Call)
    → flush rb ≡ some (n, rb')
    → run rb (flush_all ∷ calls) ≡ discarded n ∷ run rb' calls
unfolding run
run-flush_all rb calls e = rw (e, run)

queue_run-get :
    {q rest : List Frame} {f : Frame} (calls : List Call)
    → q ≡ f ∷ rest
    → queue_run q (get ∷ calls) ≡ got f ∷ queue_run rest calls
unfolding queue_run Queue.pop
queue_run-get calls e = rw e

queue_run-get_empty :
    {q : List Frame} (calls : List Call)
    → q ≡ []
    → queue_run q (get ∷ calls) ≡ no_frame_yet ∷ queue_run q calls
unfolding queue_run Queue.pop
queue_run-get_empty calls e = rw e

-- When `malloc` always finds memory, no history of calls tells a valid ring from the queue of its
-- frames: nothing is reordered, duplicated or corrupted, only the oldest frame of a full queue is
-- lost, and no call crashes.
pub run_refines :
    (calls : List Call) (rb : RingBuffer)
    → IsValid rb
    → run rb calls ≡ queue_run (contents rb) calls
run_refines [] rb v = unfold run queue_run in refl
run_refines (put f ∷ calls) rb v =
    let (rb', e, v', c) = push_refines rb f true v (inr refl) in
    run-put rb f calls e
    ∙ ap (λ r. accepted ∷ r) (run_refines calls rb' v' ∙ ap (λ q. queue_run q calls) c)
    ∙ unfold queue_run in refl
run_refines (get ∷ calls) rb v = elim (pop_refines rb v) [
  | inl (c, e) ↦
      run-get_empty rb calls e
      ∙ ap (λ r. no_frame_yet ∷ r) (run_refines calls rb v)
      ∙ sym (queue_run-get_empty calls c)
  | inr (e, v', c) ↦
      run-get rb calls e
      ∙ ap (λ r. got (get_or rb.entries rb.tail no_entry).frame ∷ r)
          (run_refines calls (taken rb) v')
      ∙ sym (queue_run-get calls c)
]
run_refines (flush_all ∷ calls) rb v =
    let (e, c, v') = flush_lem rb v in
    run-flush_all rb calls e
    ∙ ap (λ r. discarded (length (contents rb)) ∷ r)
        (run_refines calls (emptied rb) v' ∙ ap (λ q. queue_run q calls) c)
    ∙ unfold queue_run in refl
