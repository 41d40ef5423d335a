-- ===== src/Ring.antt =====
-- The ring buffer of encoded frames in ubuntu/src/main.c, between the capture thread, which pushes,
-- and the main thread, which pops and flushes. Each function runs under the mutex, so it is one
-- step on the ring. Whether `malloc` finds memory is an argument.
pub mod Inv
pub mod Queue
pub mod Refine
pub mod Flush
pub mod Run
pub mod Memory
pub mod Lifetime
use display_bridge.Prelude.{
  ℕ, zero, suc, ◌+◌, ◌*◌, ◌/◌, ◌%◌, Bool, true, false, Option, none, some, List, [], ◌∷◌, ltb, ◌==◌,
  if◌then◌else◌, get_or, set, length,
}

abbrev pub ring_size : ℕ
ring_size = 8

-- The bytes that are allocated for each slot at first.
abbrev pub slot_size : ℕ
slot_size = 4 * 1024 * 1024

-- A frame as it is handed over: `data` and `size` are one list.
pub record Frame : Type 0 where
  pub data_bytes : List ℕ
  pub pts : ℕ
  pub is_keyframe : ℕ

-- `ring_entry_t`: the size of the block at `data` (`none` for NULL), and the frame in it.
pub record Entry : Type 0 where
  pub block : Option ℕ
  pub frame : Frame

abbrev pub no_frame : Frame
no_frame = record { data_bytes = []; pts = 0; is_keyframe = 0 }

abbrev pub no_entry : Entry
no_entry = record { block = none; frame = no_frame }

-- `ring_buffer_t`, without the mutex and the condition variable.
pub record RingBuffer : Type 0 where
  pub entries : List Entry
  pub head : ℕ
  pub tail : ℕ

-- `ring_init`: `malloc` is not tested for NULL.
fresh_entry : Bool → Entry
fresh_entry found = record { block = if found then some slot_size else none; frame = no_frame }

fresh_entries : ℕ → (ℕ → Bool) → List Entry
unfolding fresh_entry
fresh_entries zero found = []
fresh_entries (suc n) found = fresh_entry (found n) ∷ fresh_entries n found

unfoldable pub init : (ℕ → Bool) → RingBuffer
unfolding fresh_entries
init found = record { entries = fresh_entries ring_size found; head = 0; tail = 0 }

-- The outcomes of `ring_push`: 0, -1, and a `memcpy` to NULL or past the block, which C leaves
-- undefined.
pub data Pushed : Type 0 where
  pushed no_memory : RingBuffer → Pushed
  fault : Pushed

abbrev pub next_index : ℕ → ℕ
next_index i = (i + 1) % ring_size

-- `if (next_head == rb->tail)`: the oldest frame goes.
unfoldable pub drop_oldest : RingBuffer → RingBuffer
drop_oldest rb =
    if next_index rb.head == rb.tail then record rb { tail = next_index rb.tail } else rb

-- From `memcpy` on, with the block of the slot at `head`.
store : RingBuffer → Frame → Option ℕ → Pushed
store rb f none = fault
store rb f (some room) =
    if ltb room (length f.data_bytes)
    then fault
    else pushed (record rb {
      entries = set rb.entries rb.head (record { block = some room; frame = f });
      head = next_index rb.head;
    })

-- `free(e->data); e->data = malloc(size)`
grow : RingBuffer → Frame → Bool → Pushed
unfolding store
grow rb f true = store rb f (some (length f.data_bytes))
grow rb f false = no_memory (record rb {
  entries = set rb.entries rb.head (record (get_or rb.entries rb.head no_entry) { block = none });
})

-- `ring_push`; `found` is what `malloc` does if the frame is larger than the slot was at first.
unfoldable pub push : RingBuffer → Frame → Bool → Pushed
unfolding drop_oldest store grow
push rb f found =
    let rb' = drop_oldest rb in
    if ltb slot_size (length f.data_bytes)
    then grow rb' f found
    else store rb' f (get_or rb'.entries rb'.head no_entry).block

-- `ring_pop` once a frame is there: the slot that is handed out, and the ring after.
unfoldable pub pop : RingBuffer → Option (ℕ × RingBuffer)
pop rb =
    if rb.head == rb.tail then none else some (rb.tail, record rb { tail = next_index rb.tail })

-- What ends a wait on the condition variable: the deadline, or a signal, with the ring as the other
-- thread left it.
pub data Wake : Type 0 where
  timed_out woken : RingBuffer → Wake

pub data Popped : Type 0 where
  entry : ℕ → RingBuffer → Popped
  nothing waiting : RingBuffer → Popped

-- The loop of `ring_pop` over the wake-ups that come; `waiting` if they are used up.
unfoldable pub pop_wait : RingBuffer → ℕ → List Wake → Popped
unfolding pop
pop_wait rb timeout_ms [] = elim (pop rb) [
  | some (i, rb') ↦ entry i rb'
  | none ↦ if timeout_ms == 0 then nothing rb else waiting rb
]
pop_wait rb timeout_ms (timed_out later ∷ wakes) = elim (pop rb) [
  | some (i, rb') ↦ entry i rb'
  | none ↦ nothing (if timeout_ms == 0 then rb else later)
]
pop_wait rb timeout_ms (woken later ∷ wakes) =
    let rest = pop_wait later timeout_ms wakes in
    elim (pop rb) [
      | some (i, rb') ↦ entry i rb'
      | none ↦ if timeout_ms == 0 then nothing rb else rest
    ]

-- The deadline of a wait, `struct timespec`.
unfoldable pub deadline : ℕ → ℕ → ℕ → ℕ × ℕ
deadline tv_sec tv_nsec timeout_ms =
    let nsec = tv_nsec + timeout_ms * 1000000 in (tv_sec + nsec / 1000000000, nsec % 1000000000)

-- The loop of `ring_flush`; `none` if the fuel runs out.
flush_loop : ℕ → RingBuffer → ℕ → Option (ℕ × RingBuffer)
flush_loop zero rb dropped = if rb.head == rb.tail then some (dropped, rb) else none
flush_loop (suc fuel) rb dropped =
    let rest = flush_loop fuel (record rb { tail = next_index rb.tail }) (dropped + 1) in
    if rb.head == rb.tail then some (dropped, rb) else rest

-- `ring_flush`, with the number of frames that it discards.
unfoldable pub flush : RingBuffer → Option (ℕ × RingBuffer)
unfolding flush_loop
flush rb = flush_loop ring_size rb 0
