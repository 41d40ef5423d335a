-- ===== src/Ring/Flush.antt =====
-- `ring_flush` and the deadline of `ring_pop`.
use native.Mathlib.Decide.{ℕ_discrete}
use display_bridge.Prelude.{
  ℕ, zero, suc, ◌+◌, ◌*◌, ◌≤◌, ◌<◌, ◌≡◌, ◌≢◌, ap, ◌∙◌, arith, some, [], ==_iff, ne→==, length, sym,
}
use display_bridge.Ring.{ring_size, RingBuffer, flush, flush_loop, deadline}
use display_bridge.Ring.Inv.{IsValid, taken, taken-IsValid}
use display_bridge.Ring.Refine.{contents, queued, window, length-contents}

-- The ring with nothing queued.
abbrev pub emptied : RingBuffer → RingBuffer
emptied rb = record rb { tail = rb.head }

flush_loop-done :
    (fuel dropped : ℕ) (rb : RingBuffer)
    → rb.head ≡ rb.tail
    → flush_loop fuel rb dropped ≡ some (dropped, emptied rb)
unfolding flush_loop
flush_loop-done zero dropped rb h =
    rw ((==_iff rb.head rb.tail).1 h) (ap (λ t. some (dropped, record rb { tail = t })) (sym h))
flush_loop-done (suc fuel) dropped rb h =
    rw ((==_iff rb.head rb.tail).1 h) (ap (λ t. some (dropped, record rb { tail = t })) (sym h))

flush_loop-step :
    (fuel dropped : ℕ) (rb : RingBuffer)
    → rb.head ≢ rb.tail
    → flush_loop (suc fuel) rb dropped ≡ flush_loop fuel (taken rb) (dropped + 1)
unfolding flush_loop
flush_loop-step fuel dropped rb h = rw (ne→== rb.head rb.tail h)

flush_loop_lem :
    (fuel dropped : ℕ) (rb : RingBuffer)
    → IsValid rb
    → queued rb ≤ fuel
    → flush_loop fuel rb dropped ≡ some (dropped + queued rb, emptied rb)
flush_loop_lem zero dropped rb v h =
    let none_left : dropped ≡ dropped + queued rb = omega arith in
    flush_loop-done zero dropped rb (omega (arith, v.head_in, v.tail_in))
    ∙ ap (λ n. some (n, emptied rb)) none_left
flush_loop_lem (suc fuel) dropped rb v h = elim (ℕ_discrete rb.head rb.tail) [
  | yes e ↦
      let none_left : dropped ≡ dropped + queued rb = omega (arith, v.tail_in, e) in
      flush_loop-done (suc fuel) dropped rb e ∙ ap (λ n. some (n, emptied rb)) none_left
  | no ne ↦
      let one_less : queued rb ≡ suc (queued (taken rb)) = omega (arith, v.head_in, v.tail_in) in
      let same : dropped + 1 + queued (taken rb) ≡ dropped + queued rb = omega (arith, one_less) in
      flush_loop-step fuel dropped rb ne
      ∙ flush_loop_lem fuel (dropped + 1) (taken rb) (taken-IsValid v) (omega (arith, one_less))
      ∙ ap (λ n. some (n, emptied rb)) same
]

-- On a valid ring the loop of `ring_flush` ends, discards exactly the frames that were queued, and
-- leaves an empty valid ring.
pub flush_lem :
    (rb : RingBuffer)
    → IsValid rb
    → (flush rb ≡ some (length (contents rb), emptied rb))
      × (contents (emptied rb) ≡ [])
      × IsValid (emptied rb)
unfolding flush
flush_lem rb v =
    let nothing_left : queued (emptied rb) ≡ 0 = omega (arith, v.head_in) in
    (
      flush_loop_lem ring_size 0 rb v (omega arith)
          ∙ ap (λ n. some (n, emptied rb)) (omega_count rb),
      ap (window rb.entries rb.head) nothing_left,
      record { slots = v.slots; head_in = v.head_in; tail_in = v.head_in; blocks = v.blocks },
    )
  where
    omega_count : (rb : RingBuffer) → 0 + queued rb ≡ length (contents rb)
    omega_count rb = omega (arith, length-contents rb)

-- The deadline that `ring_pop` waits for is a normalised time, `timeout_ms` after the current one.
deadline_lem :
    (tv_sec tv_nsec timeout_ms : ℕ)
    → let d = deadline tv_sec tv_nsec timeout_ms in
      (d.1 < 1000000000)
      × (d.0 * 1000000000 + d.1 ≡ tv_sec * 1000000000 + tv_nsec + timeout_ms * 1000000)
unfolding deadline
deadline_lem tv_sec tv_nsec timeout_ms = omega arith
