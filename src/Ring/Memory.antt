-- ===== src/Ring/Memory.antt =====
-- `ring_push` when `malloc` finds no memory for a frame larger than its slot.
use display_bridge.Prelude.{
  ◌≤◌, ◌<◌, ◌≡◌, ap, arith, Bool, false, none, lt→ltb, le→ltb, get_or, set, length, get_or-set_self,
}
use display_bridge.Ring.{
  slot_size, Frame, Entry, no_entry, RingBuffer, no_memory, fault, push, drop_oldest, grow, store,
}
use display_bridge.Ring.Inv.{IsValid, drop_oldest-IsValid, entries-drop_oldest, head-drop_oldest}

-- The ring after the failed call: the slot at `head` has lost its block.
abbrev pub robbed : RingBuffer → RingBuffer
robbed rb = record rb {
  entries = set rb.entries rb.head (record (get_or rb.entries rb.head no_entry) { block = none });
}

push-no_memory :
    (rb : RingBuffer) (big : Frame)
    → slot_size < length big.data_bytes
    → push rb big false ≡ no_memory (robbed (drop_oldest rb))
unfolding push grow
push-no_memory rb big h = rw (lt→ltb slot_size (length big.data_bytes) h)

push-no_block :
    (rb : RingBuffer) (f : Frame) (found : Bool)
    → length f.data_bytes ≤ slot_size
    → (get_or rb.entries rb.head no_entry).block ≡ none
    → push rb f found ≡ fault
unfolding push store
push-no_block rb f found h e =
    rw (le→ltb slot_size (length f.data_bytes) h, entries-drop_oldest, head-drop_oldest, e)

-- When a valid ring gets no memory for a frame of more than 4 MiB the call answers -1, and the next
-- push of a frame of at most 4 MiB is a `memcpy` to NULL.
pub push_after_no_memory :
    (rb : RingBuffer) (big small : Frame) (found : Bool)
    → IsValid rb
    → slot_size < length big.data_bytes
    → length small.data_bytes ≤ slot_size
    → (rb' : RingBuffer) × (push rb big false ≡ no_memory rb') × (push rb' small found ≡ fault)
push_after_no_memory rb big small found v hb hs =
    let v' = drop_oldest-IsValid v in
    (
      robbed (drop_oldest rb),
      push-no_memory rb big hb,
      push-no_block (robbed (drop_oldest rb)) small found hs (
          ap (λ (x : Entry). x.block)
            (get_or-set_self (drop_oldest rb).entries (drop_oldest rb).head _ no_entry
              (omega (arith, v'.slots, v'.head_in)))),
    )
