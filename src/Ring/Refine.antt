-- ===== src/Ring/Refine.antt =====
-- The ring buffer is a queue of at most seven frames that drops its oldest frame when it is full.
use native.Mathlib.Decide.{ℕ_discrete}
use display_bridge.Prelude.{
  ℕ, zero, suc, ◌+◌, ◌-◌, ◌%◌, ◌≤◌, ◌<◌, ◌≡◌, ◌≢◌, refl, sym, subst, ap, ap₂, ◌∙◌, arith, Bool,
  true, false, none, some, List, [], ◌∷◌, ◌++◌, leb, if◌then◌else◌, get_or, set, length, inl, inr,
  get_or-set_self, get_or-set_ne, ◌⊎◌, ==_iff, ne→==, drop,
}
use display_bridge.Ring.{
  ring_size, slot_size, Frame, Entry, no_entry, RingBuffer, pushed, next_index, drop_oldest, push,
  pop,
}
use display_bridge.Ring.Queue
use display_bridge.Ring.Inv.{
  IsValid, put_frame, push-eq, drop_oldest-IsValid, taken, taken-IsValid, pop-empty, pop-some,
  put_frame-IsValid,
}

-- The frames from slot `t` on, going round.
abbrev pub window : List Entry → ℕ → ℕ → List Frame
window es t zero = []
window es t (suc n) = (get_or es t no_entry).frame ∷ window es (next_index t) n

-- How many frames are queued.
abbrev pub queued : RingBuffer → ℕ
queued rb = (rb.head + ring_size - rb.tail) % ring_size

-- The queue, oldest first.
abbrev pub contents : RingBuffer → List Frame
contents rb = window rb.entries rb.tail (queued rb)

length-window : (es : List Entry) (t n : ℕ) → length (window es t n) ≡ n
length-window es t zero = refl
length-window es t (suc n) = ap suc (length-window es (next_index t) n)

get_or-set_at :
    (es : List Entry) (e : Entry) (i t : ℕ)
    → i ≡ t
    → i < length es
    → get_or (set es i e) t no_entry ≡ e
get_or-set_at es e i t h p =
    subst (λ k. get_or (set es i e) k no_entry ≡ e) h (get_or-set_self es i e no_entry p)

-- Writing the slot just past a window extends it.
window-set :
    (es : List Entry) (e : Entry) (n t i : ℕ)
    → length es ≡ ring_size
    → t < ring_size
    → n < ring_size
    → i ≡ (t + n) % ring_size
    → window (set es i e) t (suc n) ≡ window es t n ++ (e.frame ∷ [])
window-set es e zero t i len ht hn h =
    ap (λ (x : Entry). x.frame ∷ []) (get_or-set_at es e i t (omega arith) (omega arith))
window-set es e (suc n) t i len ht hn h =
    ap₂ ◌∷◌ (ap (λ (x : Entry). x.frame) (get_or-set_ne es i t e no_entry (omega arith)))
      (window-set es e n (next_index t) i len (omega arith) (omega arith) (omega arith))

drop_oldest-full : (rb : RingBuffer) → next_index rb.head ≡ rb.tail → drop_oldest rb ≡ taken rb
unfolding drop_oldest
drop_oldest-full rb h = rw ((==_iff (next_index rb.head) rb.tail).1 h)

drop_oldest-room : (rb : RingBuffer) → next_index rb.head ≢ rb.tail → drop_oldest rb ≡ rb
unfolding drop_oldest
drop_oldest-room rb h = rw (ne→== (next_index rb.head) rb.tail h)

contents-taken :
    (rb : RingBuffer)
    → IsValid rb
    → rb.head ≢ rb.tail
    → contents rb ≡ (get_or rb.entries rb.tail no_entry).frame ∷ contents (taken rb)
contents-taken rb v h =
    let one_less : queued rb ≡ suc (queued (taken rb)) = omega (arith, v.head_in, v.tail_in) in
    ap (window rb.entries rb.tail) one_less

pub length-contents : (rb : RingBuffer) → length (contents rb) ≡ queued rb
length-contents rb = length-window rb.entries rb.tail (queued rb)

leb-false : (a b : ℕ) → b < a → leb a b ≡ false
leb-false a b h = ground arith

leb-true : (a b : ℕ) → a ≤ b → leb a b ≡ true
leb-true a b h = ground arith

-- Dropping the oldest frame makes room.
contents-drop_oldest :
    (rb : RingBuffer)
    → IsValid rb
    → (contents (drop_oldest rb)
        ≡ (if leb Queue.capacity (length (contents rb)) then drop 1 (contents rb) else contents rb))
      × (queued (drop_oldest rb) < Queue.capacity)
contents-drop_oldest rb v = elim (ℕ_discrete (next_index rb.head) rb.tail) [
  | yes e ↦
      let full : Queue.capacity ≤ length (contents rb) =
        omega (arith, length-contents rb, v.head_in, v.tail_in, e) in
      let busy : rb.head ≢ rb.tail = omega (arith, v.head_in, e) in
      (
        rw (leb-true Queue.capacity (length (contents rb)) full, drop_oldest-full rb e)
            (sym (ap (drop 1) (contents-taken rb v busy))),
        rw (drop_oldest-full rb e) (omega (arith, v.head_in, v.tail_in, e)),
      )
  | no ne ↦
      let few : queued rb < Queue.capacity = omega (arith, v.head_in, v.tail_in, ne) in
      (
        rw
            (
              leb-false Queue.capacity (length (contents rb))
                  (omega (arith, length-contents rb, few)),
              drop_oldest-room rb ne,
            )
            refl,
        rw (drop_oldest-room rb ne) few,
      )
]

contents-put_frame :
    (rb : RingBuffer) (room : ℕ) (f : Frame)
    → IsValid rb
    → queued rb < Queue.capacity
    → contents (put_frame rb room f) ≡ contents rb ++ (f ∷ [])
contents-put_frame rb room f v few =
    let one_more : queued (put_frame rb room f) ≡ suc (queued rb) =
      omega (arith, v.head_in, v.tail_in, few) in
    ap (window (put_frame rb room f).entries rb.tail) one_more
    ∙ window-set rb.entries (record { block = some room; frame = f }) (queued rb) rb.tail rb.head
        v.slots v.tail_in (omega arith) (omega (arith, v.head_in, v.tail_in))

-- On a valid ring, for a frame of at most 4 MiB or when `malloc` finds memory, `ring_push` appends
-- the frame to the queue, and drops the oldest frame of a full one.
pub push_refines :
    (rb : RingBuffer) (f : Frame) (found : Bool)
    → IsValid rb
    → (length f.data_bytes ≤ slot_size) ⊎ (found ≡ true)
    → (rb' : RingBuffer) × (push rb f found ≡ pushed rb')
      × IsValid rb'
      × (contents rb' ≡ Queue.push (contents rb) f)
unfolding Queue.push
push_refines rb f found v h =
    let (room, e, le) = push-eq rb f found v h in
    let d = drop_oldest-IsValid v in
    let (dropped, few) = contents-drop_oldest rb v in
    (
      put_frame (drop_oldest rb) room f,
      e,
      put_frame-IsValid (drop_oldest rb) room f d le,
      contents-put_frame (drop_oldest rb) room f d few ∙ ap (λ q. q ++ (f ∷ [])) dropped,
    )

-- On a valid ring `ring_pop` hands out the slot of the oldest frame and leaves the rest, and finds
-- nothing exactly when the queue is empty.
pub pop_refines :
    (rb : RingBuffer)
    → IsValid rb
    → ((contents rb ≡ []) × (pop rb ≡ none))
      ⊎ ((pop rb ≡ some (rb.tail, taken rb))
          × IsValid (taken rb)
          × (contents rb ≡ (get_or rb.entries rb.tail no_entry).frame ∷ contents (taken rb)))
pop_refines rb v = elim (ℕ_discrete rb.head rb.tail) [
  | yes e ↦
      let empty : queued rb ≡ 0 = omega (arith, v.tail_in) in
      inl (ap (window rb.entries rb.tail) empty, pop-empty rb e)
  | no ne ↦ inr (pop-some rb ne, taken-IsValid v, contents-taken rb v ne)
]
