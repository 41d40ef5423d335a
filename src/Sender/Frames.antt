-- ===== src/Sender/Frames.antt =====
-- The frames between the capture thread and the main loop of ubuntu/src/main.c: what the loop needs
-- of them, the ring buffer as the code has it, and the queue that it is to be.
use display_bridge.Prelude.{ℕ, Bool, true, Option, none, some, List, [], ◌∷◌, ◌&&◌, ltb, length}
use display_bridge.Ring.{
  Frame, RingBuffer, Wake, timed_out, woken, Popped, entry, nothing, waiting, pop_wait, flush,
}
use display_bridge.Capture.Arrivals.{Arrival, capture_all, queue_all, all_found, frame_at}

-- What the capture thread does around one `ring_pop`: the pictures that come before it, before each
-- signal that ends a wait, before the deadline, and after its return until the entry is read.
pub record Around : Type 0 where
  pub earlier : List Arrival
  pub signals : List (List Arrival)
  pub at_deadline : List Arrival
  pub meanwhile : List Arrival

-- The operations of the main loop on the frames; `none` is a store that C leaves undefined.
pub record Source (Q : Type 0) : Type 0 where
  pub capture : Q → List Arrival → Option Q
  pub take : Q → Around → Option (Option Frame × Q)
  pub flush_all : Q → Option Q

-- The wake-ups of a wait, with the ring as the capture thread leaves it; they end at a store that C
-- leaves undefined.
unfoldable pub wakes : RingBuffer → List (List Arrival) → List Arrival → List Wake
wakes rb [] at_deadline = elim (capture_all (some rb) at_deadline) [
  | some later ↦ timed_out later ∷ []
  | none ↦ []
]
wakes rb (arrivals ∷ signals) at_deadline = elim (capture_all (some rb) arrivals) [
  | some later ↦ woken later ∷ wakes later signals at_deadline
  | none ↦ []
]

-- The frame that is read through the pointer, and the ring then.
abbrev pub read_at : Option ℕ → Option RingBuffer → Option (Option Frame × RingBuffer)
read_at i none = none
read_at none (some rb) = some (none, rb)
read_at (some i) (some rb) = some (some (frame_at rb i), rb)

unfoldable pub read_entry : Popped → List Arrival → Option (Option Frame × RingBuffer)
read_entry (entry i rb) meanwhile = read_at (some i) (capture_all (some rb) meanwhile)
read_entry (nothing rb) meanwhile = read_at none (capture_all (some rb) meanwhile)
read_entry (waiting rb) meanwhile = none

-- `ring_pop(&g_ring, 100)`, with the wait and the read of the entry.
unfoldable pub pop_at : Option RingBuffer → Around → Option (Option Frame × RingBuffer)
unfolding wakes read_entry
pop_at none a = none
pop_at (some rb) a = read_entry (pop_wait rb 100 (wakes rb a.signals a.at_deadline)) a.meanwhile

unfoldable pub ring_take : RingBuffer → Around → Option (Option Frame × RingBuffer)
unfolding pop_at
ring_take rb a = pop_at (capture_all (some rb) a.earlier) a

abbrev pub flushed : Option (ℕ × RingBuffer) → Option RingBuffer
flushed none = none
flushed (some (dropped, rb)) = some rb

unfoldable pub ring_frames : Source RingBuffer
unfolding ring_take
ring_frames = record {
  capture = λ rb arrivals. capture_all (some rb) arrivals;
  take = ring_take;
  flush_all = λ rb. flushed (flush rb);
}

-- The same for the queue: the oldest frame, or the first one that a signal announces; a frame that
-- comes without a signal before the deadline is left for later.
unfoldable pub queue_wait :
    List Frame → List (List Arrival) → List Arrival → Option Frame × List Frame
queue_wait (f ∷ q) signals at_deadline = (some f, q)
queue_wait [] [] at_deadline = (none, queue_all [] at_deadline)
queue_wait [] (arrivals ∷ signals) at_deadline =
    queue_wait (queue_all [] arrivals) signals at_deadline

unfoldable pub queue_take : List Frame → Around → Option Frame × List Frame
unfolding queue_wait
queue_take q a =
    let waited = queue_wait (queue_all q a.earlier) a.signals a.at_deadline in
    (waited.0, queue_all waited.1 a.meanwhile)

unfoldable pub queue_frames : Source (List Frame)
unfolding queue_take
queue_frames = record {
  capture = λ q arrivals. some (queue_all q arrivals);
  take = λ q a. some (queue_take q a);
  flush_all = λ q. some [];
}

-- The memory is there for every frame, and while an entry is read at most one picture comes.
abbrev pub all_found_each : List (List Arrival) → Bool
all_found_each [] = true
all_found_each (arrivals ∷ rest) = all_found arrivals && all_found_each rest

abbrev pub in_time : Around → Bool
in_time a =
    (all_found a.earlier && all_found_each a.signals)
    && (all_found a.at_deadline && (all_found a.meanwhile && ltb (length a.meanwhile) 2))
