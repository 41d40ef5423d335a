-- ===== src/Input/Batches.antt =====
-- The device sees whole batches only: each is closed by one SYN_REPORT.
use display_bridge.Prelude.{
  ℕ, suc, ◌+◌, leb, drop, ◌≡◌, ◌≢◌, refl, arith, Bool, true, false, not, List, [], ◌∷◌, ◌++◌, ◌==◌,
  ==_iff, ne→==, take, if◌then◌else◌, length, ap, ◌∙◌, ◌&&◌,
}
use display_bridge.Protocol.{
  InputEvent, packet_header_at, input_event_at, packet_header_size, input_event_size,
  pkt_input_event,
}
use display_bridge.Input.{
  EventCodes, Event, handle_input_event, handle_datagram, input_loop, input_buf_size, Recv,
  datagram, again, failed,
}

-- SYN_REPORT differs from every other kind of event.
pub record Distinct (codes : EventCodes) : Type 0 where
  pub key : codes.ev_key ≢ codes.ev_syn
  pub rel : codes.ev_rel ≢ codes.ev_syn
  pub abs : codes.ev_abs ≢ codes.ev_syn

-- Whether events stand after the last SYN_REPORT, or stood there before (`p`).
abbrev pub pending : EventCodes → Bool → List Event → Bool
pending codes p [] = p
pending codes p (e ∷ es) = pending codes (not (e.kind == codes.ev_syn)) es

pending-append :
    (codes : EventCodes) (p : Bool) (es fs : List Event)
    → pending codes p (es ++ fs) ≡ pending codes (pending codes p es) fs
pending-append codes p [] fs = refl
pending-append codes p (e ∷ es) fs = pending-append codes (not (e.kind == codes.ev_syn)) es fs

-- The number of reports.
abbrev pub reports : EventCodes → List Event → ℕ
reports codes [] = 0
reports codes (e ∷ es) =
    let rest = reports codes es in if e.kind == codes.ev_syn then suc rest else rest

reports-append :
    (codes : EventCodes) (es fs : List Event)
    → reports codes (es ++ fs) ≡ reports codes es + reports codes fs
reports-append codes [] fs = omega arith
reports-append codes (e ∷ es) fs = ground (arith, reports-append codes es fs)

-- The event types of protocol.h.
abbrev known : ℕ → Bool
known t = leb 0x20 t && leb t 0x24

-- A datagram that the loop acts on.
abbrev pub accepted : List ℕ → Bool
accepted buf =
    leb (packet_header_size + input_event_size) (length buf)
    && ((packet_header_at buf).packet_type == pkt_input_event
        && known (input_event_at (drop packet_header_size buf)).event_type)

-- The events are whole batches, `n` of them, and none are there without a batch.
record Batches (codes : EventCodes) (n : ℕ) (es : List Event) : Type 0 where
  closed : pending codes false es ≡ false
  count : reports codes es ≡ n

handle_input_event-Batches :
    (codes : EventCodes) (evt : InputEvent)
    → Distinct codes
    → Batches codes (if known evt.event_type then 1 else 0) (handle_input_event codes evt)
unfolding handle_input_event
handle_input_event-Batches codes evt d =
    let key = ne→== codes.ev_key codes.ev_syn d.key in
    let rel = ne→== codes.ev_rel codes.ev_syn d.rel in
    let abs = ne→== codes.ev_abs codes.ev_syn d.abs in
    let syn = (==_iff codes.ev_syn codes.ev_syn).1 refl in
    record {
      closed = ground (arith, key, rel, abs, syn);
      count = ground (arith, key, rel, abs, syn);
    }

handle_datagram-Batches :
    (codes : EventCodes) (buf : List ℕ)
    → Distinct codes
    → Batches codes (if accepted buf then 1 else 0) (handle_datagram codes buf)
unfolding handle_datagram
handle_datagram-Batches codes buf d =
    let b = handle_input_event-Batches codes (input_event_at (drop packet_header_size buf)) d in
    record { closed = ground (arith, b.closed); count = ground (arith, b.count) }

-- The datagrams that the loop acts on before it ends.
abbrev pub acted_on : List (Bool × Recv) → ℕ
acted_on [] = 0
acted_on ((false, r) ∷ rounds) = 0
acted_on ((true, datagram bytes) ∷ rounds) =
    (if accepted (take input_buf_size bytes) then 1 else 0) + acted_on rounds
acted_on ((true, again) ∷ rounds) = acted_on rounds
acted_on ((true, failed) ∷ rounds) = 0

append-Batches :
    {codes : EventCodes} {m n : ℕ} {es fs : List Event}
    → Batches codes m es
    → Batches codes n fs
    → Batches codes (m + n) (es ++ fs)
append-Batches {codes} {m} {n} {es} {fs} a b = record {
  closed = pending-append codes false es fs ∙ ap (λ p. pending codes p fs) a.closed ∙ b.closed;
  count = omega (arith, reports-append codes es fs, a.count, b.count);
}

input_loop-all :
    (codes : EventCodes) (rounds : List (Bool × Recv))
    → Distinct codes
    → Batches codes (acted_on rounds) (input_loop codes rounds)
unfolding input_loop
input_loop-all codes [] d = record { closed = refl; count = refl }
input_loop-all codes ((false, r) ∷ rounds) d = record { closed = refl; count = refl }
input_loop-all codes ((true, datagram bytes) ∷ rounds) d =
    append-Batches (handle_datagram-Batches codes (take input_buf_size bytes) d)
      (input_loop-all codes rounds d)
input_loop-all codes ((true, again) ∷ rounds) d = input_loop-all codes rounds d
input_loop-all codes ((true, failed) ∷ rounds) d = record { closed = refl; count = refl }

-- Whatever datagrams come, and whenever the loop is stopped or fails, the device has got whole
-- batches of events, with no event after the last SYN_REPORT, and exactly one batch for each
-- datagram of at least 24 bytes with an input packet and a known event type that came before the
-- end; provided that the number of EV_SYN is not that of another event kind.
pub input_loop_batches :
    (codes : EventCodes) (rounds : List (Bool × Recv))
    → Distinct codes
    → (pending codes false (input_loop codes rounds) ≡ false)
      × (reports codes (input_loop codes rounds) ≡ acted_on rounds)
input_loop_batches codes rounds d = let b = input_loop-all codes rounds d in (b.closed, b.count)
