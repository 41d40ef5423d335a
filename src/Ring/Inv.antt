-- ===== src/Ring/Inv.antt =====
-- The invariant of the ring buffer: the indices are in range and every slot has a block that holds
-- the frames of ordinary size.
use display_bridge.Prelude.{
  ℕ, zero, suc, ◌≤◌, ◌<◌, ◌≡◌, ◌≢◌, ==_iff, ne→==, refl, sym, subst, ap, ltb→lt, ◌∙◌, arith, Bool,
  true, false, none, some, ltb, ◌==◌, get_or, set, length, length-set, le→ltb, Bool-cases, inl, inr,
  get_or-set_self, get_or-set_ne, ◌⊎◌,
}
use native.Mathlib.Decide.{ℕ_discrete}
use display_bridge.Ring.{
  ring_size, slot_size, Frame, Entry, no_entry, RingBuffer, init, pushed, next_index, drop_oldest,
  store, push, pop,
}

-- A slot whose block holds any frame of up to `slot_size` bytes.
abbrev pub HasBlock : Entry → Type 0
HasBlock e = (room : ℕ) × (e.block ≡ some room) × (slot_size ≤ room)

pub record IsValid (rb : RingBuffer) : Type 0 where
  pub slots : length rb.entries ≡ ring_size
  pub head_in : rb.head < ring_size
  pub tail_in : rb.tail < ring_size
  pub blocks : (i : ℕ) → i < ring_size → HasBlock (get_or rb.entries i no_entry)

-- What is stored in the slot at `head` by a push that does not fail.
abbrev pub put_frame : RingBuffer → ℕ → Frame → RingBuffer
put_frame rb room f = record rb {
  entries = set rb.entries rb.head (record { block = some room; frame = f });
  head = next_index rb.head;
}

store-fits :
    (rb : RingBuffer) (f : Frame) (room : ℕ)
    → length f.data_bytes ≤ room
    → store rb f (some room) ≡ pushed (put_frame rb room f)
unfolding store
store-fits rb f room h = rw (le→ltb room (length f.data_bytes) h)

has_memory :
    (f : Frame) (found : Bool)
    → (length f.data_bytes ≤ slot_size) ⊎ (found ≡ true)
    → ltb slot_size (length f.data_bytes) ≡ true
    → found ≡ true
has_memory f found h big = ground arith

fits :
    (f : Frame) (room : ℕ)
    → ltb slot_size (length f.data_bytes) ≡ false
    → slot_size ≤ room
    → length f.data_bytes ≤ room
fits f room small le = ground arith

pub entries-drop_oldest : (rb : RingBuffer) → (drop_oldest rb).entries ≡ rb.entries
unfolding drop_oldest
entries-drop_oldest rb = ground arith

pub head-drop_oldest : (rb : RingBuffer) → (drop_oldest rb).head ≡ rb.head
unfolding drop_oldest
head-drop_oldest rb = ground arith

kept_block :
    (rb : RingBuffer)
    → IsValid rb
    → HasBlock (get_or (drop_oldest rb).entries (drop_oldest rb).head no_entry)
kept_block rb v = rw (entries-drop_oldest, head-drop_oldest) (v.blocks rb.head v.head_in)

-- A push of any size ends well if there is memory, into a block that holds the frame.
pub push-eq :
    (rb : RingBuffer) (f : Frame) (found : Bool)
    → IsValid rb
    → (length f.data_bytes ≤ slot_size) ⊎ (found ≡ true)
    → (room : ℕ) × (push rb f found ≡ pushed (put_frame (drop_oldest rb) room f))
      × (slot_size ≤ room)
unfolding push
push-eq rb f found v h = elim (Bool-cases (ltb slot_size (length f.data_bytes))) [
  | inl big ↦ (
    length f.data_bytes,
    rw (big, has_memory f found h big)
        (store-fits (drop_oldest rb) f (length f.data_bytes) (omega arith)),
    omega (arith, ltb→lt slot_size (length f.data_bytes)),
  )
  | inr small ↦
      let (room, e, le) = kept_block rb v in
      (room, rw (small, e) (store-fits (drop_oldest rb) f room (fits f room small le)), le)
]

put_block :
    (rb : RingBuffer) (room : ℕ) (f : Frame)
    → IsValid rb
    → slot_size ≤ room
    → (i : ℕ) → i < ring_size
    → HasBlock (get_or (put_frame rb room f).entries i no_entry)
put_block rb room f v h i p = elim (ℕ_discrete rb.head i) [
  | yes e ↦ (
    room,
    rw (← e) (
        ap (λ (x : Entry). x.block)
          (get_or-set_self rb.entries rb.head _ no_entry (omega (arith, v.slots, v.head_in)))),
    h,
  )
  | no ne ↦ rw (get_or-set_ne rb.entries rb.head i _ no_entry ne) (v.blocks i p)
]

pub put_frame-IsValid :
    (rb : RingBuffer) (room : ℕ) (f : Frame)
    → IsValid rb
    → slot_size ≤ room
    → IsValid (put_frame rb room f)
put_frame-IsValid rb room f v h = record {
  slots = length-set rb.entries rb.head _ ∙ v.slots;
  head_in = omega arith;
  tail_in = v.tail_in;
  blocks = λ i p. put_block rb room f v h i p;
}

pub drop_oldest-IsValid : {rb : RingBuffer} → IsValid rb → IsValid (drop_oldest rb)
unfolding drop_oldest
drop_oldest-IsValid {rb} v = elim (Bool-cases (next_index rb.head == rb.tail)) [
  | inl e ↦
      rw e
        (record { slots = v.slots; head_in = v.head_in; tail_in = omega arith; blocks = v.blocks })
  | inr e ↦ rw e v
]

fresh_block : (i : ℕ) → i < ring_size → HasBlock (get_or (init (λ _. true)).entries i no_entry)
unfolding init
fresh_block zero h = (slot_size, refl, omega arith)
fresh_block (suc zero) h = (slot_size, refl, omega arith)
fresh_block (suc (suc zero)) h = (slot_size, refl, omega arith)
fresh_block (suc (suc (suc zero))) h = (slot_size, refl, omega arith)
fresh_block (suc (suc (suc (suc zero)))) h = (slot_size, refl, omega arith)
fresh_block (suc (suc (suc (suc (suc zero))))) h = (slot_size, refl, omega arith)
fresh_block (suc (suc (suc (suc (suc (suc zero)))))) h = (slot_size, refl, omega arith)
fresh_block (suc (suc (suc (suc (suc (suc (suc zero))))))) h = (slot_size, refl, omega arith)
fresh_block (suc (suc (suc (suc (suc (suc (suc (suc i)))))))) h = absurd (omega arith)

-- `ring_init` makes a valid ring if every `malloc` finds memory.
pub init-IsValid : IsValid (init (λ _. true))
unfolding init
init-IsValid = record {
  slots = refl;
  head_in = omega arith;
  tail_in = omega arith;
  blocks = fresh_block;
}

pushed-injective : {a b : RingBuffer} → pushed a ≡ pushed b → a ≡ b
pushed-injective h = cc

-- Every push keeps the invariant.
pub push-IsValid :
    (rb : RingBuffer) (f : Frame) (found : Bool) {rb' : RingBuffer}
    → IsValid rb
    → (length f.data_bytes ≤ slot_size) ⊎ (found ≡ true)
    → push rb f found ≡ pushed rb'
    → IsValid rb'
push-IsValid rb f found {rb'} v h e =
    let (room, e', le) = push-eq rb f found v h in
    subst IsValid (pushed-injective (sym e' ∙ e))
      (put_frame-IsValid (drop_oldest rb) room f (drop_oldest-IsValid v) le)

-- The ring after a frame was taken.
abbrev pub taken : RingBuffer → RingBuffer
taken rb = record rb { tail = next_index rb.tail }

pub pop-empty : (rb : RingBuffer) → rb.head ≡ rb.tail → pop rb ≡ none
unfolding pop
pop-empty rb h = rw ((==_iff rb.head rb.tail).1 h)

pub pop-some : (rb : RingBuffer) → rb.head ≢ rb.tail → pop rb ≡ some (rb.tail, taken rb)
unfolding pop
pop-some rb h = rw (ne→== rb.head rb.tail h)

pub taken-IsValid : {rb : RingBuffer} → IsValid rb → IsValid (taken rb)
taken-IsValid v = record {
  slots = v.slots;
  head_in = v.head_in;
  tail_in = omega arith;
  blocks = v.blocks;
}
