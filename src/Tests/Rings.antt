-- ===== src/Tests/Rings.antt =====
-- The ring as main.c sets it up, and after one push.
use display_bridge.Prelude.{
  ℕ, ◌<◌, ◌≡◌, refl, arith, some, true, false, List, [], ◌∷◌, length, length-replicate, replicate,
  get_or,
}
use display_bridge.Ring.{
  slot_size, Frame, RingBuffer, no_entry, init, push, pushed, no_memory, fault, pop,
}
use display_bridge.Ring.Inv.{IsValid, init-IsValid, taken, put_frame, put_frame-IsValid}
use display_bridge.Ring.Refine.{contents}
use display_bridge.Ring.Run.{put, get, flush_all, Call, run, queue_run, run_refines}
use display_bridge.Ring.Lifetime.{push_all, popped_entry_lifetime}
use display_bridge.Ring.Memory.{push_after_no_memory}

abbrev ring : RingBuffer
ring = init (λ _. true)

abbrev frame : ℕ → Frame
frame n = record { data_bytes = n ∷ []; pts = n; is_keyframe = 0 }

-- Nine pushes, more than the ring holds, and then some pops.
abbrev history : List Call
history =
    put (frame 1)
    ∷ put (frame 2)
    ∷ put (frame 3)
    ∷ put (frame 4)
    ∷ put (frame 5)
    ∷ put (frame 6)
    ∷ put (frame 7)
    ∷ put (frame 8)
    ∷ put (frame 9)
    ∷ get
    ∷ get
    ∷ flush_all
    ∷ get
    ∷ []

run_refines_example : run ring history ≡ queue_run (contents ring) history
run_refines_example = run_refines history ring init-IsValid

-- The ring with one frame.
abbrev one_frame : RingBuffer
one_frame = put_frame ring slot_size (frame 1)

one_frame-IsValid : IsValid one_frame
one_frame-IsValid = put_frame-IsValid ring slot_size (frame 1) init-IsValid (omega arith)

abbrev seven_frames : List Frame
seven_frames = frame 2 ∷ frame 3 ∷ frame 4 ∷ frame 5 ∷ frame 6 ∷ frame 7 ∷ frame 8 ∷ []

popped_entry_lifetime_example :
    (later last : RingBuffer) × (pop one_frame ≡ some (one_frame.tail, taken one_frame))
    × (push_all seven_frames (pushed (taken one_frame)) ≡ pushed later)
    × (get_or later.entries one_frame.tail no_entry
        ≡ get_or one_frame.entries one_frame.tail no_entry)
    × (push later (frame 9) true ≡ pushed last)
    × ((get_or last.entries one_frame.tail no_entry).frame ≡ frame 9)
unfolding init
popped_entry_lifetime_example =
    popped_entry_lifetime one_frame seven_frames (frame 9) one_frame-IsValid (omega arith) refl

-- A frame of `n` zero bytes.
unfoldable huge : ℕ → Frame
huge n = record { data_bytes = replicate n 0; pts = 1; is_keyframe = 1 }

huge_lem : (n : ℕ) → slot_size < n → slot_size < length (huge n).data_bytes
unfolding huge
huge_lem n h = omega (arith, length-replicate {A = ℕ} n 0)

push_after_no_memory_example :
    (rb' : RingBuffer) × (push ring (huge 4194305) false ≡ no_memory rb')
    × (push rb' (frame 1) true ≡ fault)
push_after_no_memory_example =
    push_after_no_memory ring (huge 4194305) (frame 1) true init-IsValid
      (huge_lem 4194305 (omega arith)) (omega arith)
