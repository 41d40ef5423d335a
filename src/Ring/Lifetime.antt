-- ===== src/Ring/Lifetime.antt =====
-- How long the entry that `ring_pop` returns can be read: the pointer leads into the ring, and the
-- capture thread goes on pushing.
use display_bridge.Prelude.{
  ℕ, ◌+◌, ◌-◌, ◌%◌, ◌≤◌, ◌<◌, ◌≡◌, ◌≢◌, refl, subst, ap, ◌∙◌, arith, List, [], ◌∷◌, get_or, set,
  length, true, get_or-set_self, get_or-set_ne, inr, some,
}
use display_bridge.Ring.{
  ring_size, Frame, no_entry, RingBuffer, Entry, pop, Pushed, pushed, drop_oldest, next_index, push,
}
use display_bridge.Ring.Inv.{
  IsValid, put_frame, push-eq, entries-drop_oldest, head-drop_oldest, push-IsValid, taken,
  taken-IsValid, pop-some,
}
use display_bridge.Ring.Refine.{contents, length-contents}

-- The frames pushed one after the other, each with memory.
abbrev pub push_all : List Frame → Pushed → Pushed
push_all [] r = r
push_all (f ∷ fs) (pushed rb) = push_all fs (push rb f true)
push_all (f ∷ fs) r = r

-- How many pushes go by before slot `i` is written.
abbrev distance : RingBuffer → ℕ → ℕ
distance rb i = (i + ring_size - rb.head) % ring_size

-- `r` is a push that left slot `i` as it was in `rb`, with the head `k` slots further on.
pub record Keeps (rb : RingBuffer) (i k : ℕ) (r : Pushed) : Type 0 where
  pub later : RingBuffer
  pub returns : r ≡ pushed later
  pub valid : IsValid later
  pub head_at : later.head ≡ (rb.head + k) % ring_size
  pub same : get_or later.entries i no_entry ≡ get_or rb.entries i no_entry

push-entry_ne :
    (rb : RingBuffer) (f : Frame) (i room : ℕ)
    → rb.head ≢ i
    → get_or (set rb.entries rb.head (record { block = some room; frame = f })) i no_entry
      ≡ get_or rb.entries i no_entry
push-entry_ne rb f i room h = get_or-set_ne rb.entries rb.head i _ no_entry h

pub push_one :
    (rb : RingBuffer) (f : Frame) (i : ℕ) → IsValid rb → rb.head ≢ i → Keeps rb i 1 (push rb f true)
push_one rb f i v h =
    let (room, e, le) = push-eq rb f true v (inr refl) in
    record {
      later = put_frame (drop_oldest rb) room f;
      returns = e;
      valid = push-IsValid rb f true v (inr refl) e;
      head_at = ap next_index (head-drop_oldest rb);
      same = rw (head-drop_oldest, entries-drop_oldest) (push-entry_ne rb f i room h);
    }

push_all-Keeps :
    (fs : List Frame) (rb : RingBuffer) (i : ℕ)
    → IsValid rb
    → i < ring_size
    → length fs ≤ distance rb i
    → Keeps rb i (length fs) (push_all fs (pushed rb))
push_all-Keeps [] rb i v hi h = record {
  later = rb;
  returns = refl;
  valid = v;
  head_at = omega (arith, v.head_in);
  same = refl;
}
push_all-Keeps (f ∷ fs) rb i v hi h =
    let one = push_one rb f i v (omega (arith, v.head_in)) in
    let more = push_all-Keeps fs one.later i one.valid hi (omega (arith, v.head_in, one.head_at)) in
    record {
      later = more.later;
      returns = ap (push_all fs) one.returns ∙ more.returns;
      valid = more.valid;
      head_at = omega (arith, more.head_at, one.head_at, v.head_in);
      same = more.same ∙ one.same;
    }

push-entry_at :
    (rb : RingBuffer) (f : Frame) (i : ℕ)
    → IsValid rb
    → rb.head ≡ i
    → (later : RingBuffer) × (push rb f true ≡ pushed later)
      × ((get_or later.entries i no_entry).frame ≡ f)
push-entry_at rb f i v h =
    let (room, e, le) = push-eq rb f true v (inr refl) in
    (
      put_frame (drop_oldest rb) room f,
      e,
      rw (head-drop_oldest, entries-drop_oldest)
          (subst
            (λ k.
              (get_or (set rb.entries rb.head (record { block = some room; frame = f })) k
                no_entry).frame
              ≡ f)
            h
            (ap (λ (x : Entry). x.frame)
              (get_or-set_self rb.entries rb.head _ no_entry (omega (arith, v.slots, v.head_in))))),
    )

-- The entry that `ring_pop` handed out of a valid ring that was not empty stays as it is while the
-- frames still queued and those pushed since are seven together, and the very next push overwrites
-- it, with no pop in between.
pub popped_entry_lifetime :
    (rb : RingBuffer) (fs : List Frame) (f : Frame)
    → IsValid rb
    → rb.head ≢ rb.tail
    → length fs + length (contents (taken rb)) ≡ 7
    → (later last : RingBuffer) × (pop rb ≡ some (rb.tail, taken rb))
      × (push_all fs (pushed (taken rb)) ≡ pushed later)
      × (get_or later.entries rb.tail no_entry ≡ get_or rb.entries rb.tail no_entry)
      × (push later f true ≡ pushed last)
      × ((get_or last.entries rb.tail no_entry).frame ≡ f)
popped_entry_lifetime rb fs f v busy seven =
    let count = length-contents (taken rb) in
    let kept =
      push_all-Keeps fs (taken rb) rb.tail (taken-IsValid v) v.tail_in
        (omega (arith, count, v.head_in, v.tail_in)) in
    let (last, e, new) =
      push-entry_at kept.later f rb.tail kept.valid
        (omega (arith, kept.head_at, count, v.head_in, v.tail_in)) in
    (kept.later, last, pop-some rb busy, kept.returns, kept.same, e, new)
