-- ===== src/Sender/Shutdown/Ending.antt =====
-- The sender stops after a signal, if its threads are in their loops by then.
use display_bridge.Prelude.{
  ℕ, ◌+◌, ◌≡◌, ◌<◌, ◌≤◌, refl, arith, Bool, true, false, ◌⊎◌, inl, inr, if◌then◌else◌, not, ◌&&◌,
}
use display_bridge.Sender.Shutdown.{
  ThreadAt, created, looping, exited, MainAt, serving, leaving, stopping_input, joining_capture,
  joining_input, joined, Threads, signal_handler, Step, signalled, capture_starts, stream_fails,
  capture_ends, input_starts, input_ends, input_fails, serving_ends, stops_capture, stops_input,
  joins_capture, joins_input, no_input_thread, Reach, here, later, of_thread, capture_start,
  input_start, capture_stop, input_stop,
}

-- How much each thread has to do yet.
abbrev main_left : MainAt → ℕ
main_left serving = 5
main_left leaving = 4
main_left stopping_input = 3
main_left joining_capture = 2
main_left joining_input = 1
main_left joined = 0

abbrev capture_left : ThreadAt → Bool → ℕ
capture_left created quit = 3
capture_left looping false = 2
capture_left looping true = 1
capture_left exited quit = 0

abbrev input_left : ThreadAt → ℕ
input_left created = 2
input_left looping = 1
input_left exited = 0

abbrev pub steps_left : Threads → ℕ
steps_left s =
    main_left s.main_at + capture_left s.capture_at s.capture_quit + input_left s.input_at

-- Every step of a thread leaves less to do, and the handler does not add to it.
steps_left-Step :
    {s t : Threads} (st : Step s t)
    → (of_thread st ≡ true → steps_left t < steps_left s) × (steps_left t ≤ steps_left s)
unfolding signal_handler
steps_left-Step signalled = (λ e. ground arith, ground arith)
steps_left-Step (capture_starts heeds h) = (λ e. ground arith, ground arith)
steps_left-Step (input_starts h k) = (λ e. ground arith, ground arith)
steps_left-Step (stream_fails h k) = (λ e. ground arith, ground arith)
steps_left-Step (capture_ends h k) = (λ e. ground arith, ground arith)
steps_left-Step (input_ends h k) = (λ e. ground arith, ground arith)
steps_left-Step (input_fails h) = (λ e. ground arith, ground arith)
steps_left-Step (serving_ends h k) = (λ e. ground arith, ground arith)
steps_left-Step (stops_capture h) = (λ e. ground arith, ground arith)
steps_left-Step (stops_input h) = (λ e. ground arith, ground arith)
steps_left-Step (joins_capture h k) = (λ e. ground arith, ground arith)
steps_left-Step (joins_input h k l) = (λ e. ground arith, ground arith)
steps_left-Step (no_input_thread h k) = (λ e. ground arith, ground arith)

abbrev is_created : ThreadAt → Bool
is_created created = true
is_created _ = false

abbrev is_looping : ThreadAt → Bool
is_looping looping = true
is_looping _ = false

-- Whether `db_capture_stop` and `db_input_stop` were called at the label `cleanup`.
abbrev stopped_capture : MainAt → Bool
stopped_capture serving = false
stopped_capture leaving = false
stopped_capture _ = true

abbrev stopped_input : MainAt → Bool
stopped_input serving = false
stopped_input leaving = false
stopped_input stopping_input = false
stopped_input _ = true

-- The threads have set their flags for the first time.
abbrev pub begun : Threads → Bool
begun s = not (is_created s.capture_at) && not (s.has_input && is_created s.input_at)

-- A stop is not lost on a thread that is in its loop.
record Settled (s : Threads) : Type 0 where
  begun_yet : begun s ≡ true
  capture : (stopped_capture s.main_at && (is_looping s.capture_at && not s.capture_quit)) ≡ false
  input :
      (stopped_input s.main_at && (s.has_input && (is_looping s.input_at && s.input_running)))
      ≡ false

Step-Settled : {s t : Threads} → Step s t → Settled s → Settled t
unfolding signal_handler
Step-Settled signalled v = ground arith
Step-Settled (capture_starts heeds h) v = ground arith
Step-Settled (input_starts h k) v = ground arith
Step-Settled (stream_fails h k) v = ground arith
Step-Settled (capture_ends h k) v = ground arith
Step-Settled (input_ends h k) v = ground arith
Step-Settled (input_fails h) v = ground arith
Step-Settled (serving_ends h k) v = ground arith
Step-Settled (stops_capture h) v = ground arith
Step-Settled (stops_input h) v = ground arith
Step-Settled (joins_capture h k) v = ground arith
Step-Settled (joins_input h k l) v = ground arith
Step-Settled (no_input_thread h k) v = ground arith

Reach-Settled : {s t : Threads} → Reach s t → Settled s → Settled t
Reach-Settled here v = v
Reach-Settled (later r st) v = Step-Settled st (Reach-Settled r v)

-- A thread can go on.
abbrev CanStep : Threads → Type 0
CanStep s = (t : Threads) × (st : Step s t) × (of_thread st ≡ true)

capture_goes_on :
    (s : Threads) (at : ThreadAt)
    → Settled s
    → s.capture_at ≡ at
    → s.main_at ≡ joining_capture
    → CanStep s
capture_goes_on s created v e m = (capture_start true s, capture_starts true e, refl)
capture_goes_on s looping v e m =
    (record s { capture_at = exited }, capture_ends e (ground arith), refl)
capture_goes_on s exited v e m = (record s { main_at = joining_input }, joins_capture m e, refl)

input_goes_on :
    (s : Threads) (at : ThreadAt) (has_input : Bool)
    → Settled s
    → s.input_at ≡ at
    → s.has_input ≡ has_input
    → s.main_at ≡ joining_input
    → CanStep s
input_goes_on s at false v e h m = (record s { main_at = joined }, no_input_thread m h, refl)
input_goes_on s created true v e h m = (input_start s, input_starts h e, refl)
input_goes_on s looping true v e h m =
    (record s { input_at = exited }, input_ends e (ground arith), refl)
input_goes_on s exited true v e h m = (record s { main_at = joined }, joins_input m h e, refl)

goes_on :
    (s : Threads) (m : MainAt)
    → Settled s
    → s.g_running ≡ false
    → s.main_at ≡ m
    → (s.main_at ≡ joined) ⊎ CanStep s
goes_on s serving v g e = inr (record s { main_at = leaving }, serving_ends e g, refl)
goes_on s leaving v g e =
    inr (capture_stop (record s { main_at = stopping_input }), stops_capture e, refl)
goes_on s stopping_input v g e =
    inr (input_stop (record s { main_at = joining_capture }), stops_input e, refl)
goes_on s joining_capture v g e = inr (capture_goes_on s s.capture_at v refl e)
goes_on s joining_input v g e = inr (input_goes_on s s.input_at s.has_input v refl refl e)
goes_on s joined v g e = inl e

-- How many steps the threads make.
abbrev pub thread_steps : {s t : Threads} → Reach s t → ℕ
thread_steps here = 0
thread_steps (later r st) = if of_thread st then thread_steps r + 1 else thread_steps r

count_step :
    (b : Bool) (n before after first : ℕ)
    → (b ≡ true → after < before)
    → after ≤ before
    → n + before ≤ first
    → (if b then n + 1 else n) + after ≤ first
count_step true n before after first less le h = let l = less refl in omega arith
count_step false n before after first less le h = omega arith

thread_steps-le : {s t : Threads} (r : Reach s t) → thread_steps r + steps_left t ≤ steps_left s
thread_steps-le here = omega arith
thread_steps-le {s} {t = u} (later {t} r st) =
    let (less, le) = steps_left-Step st in
    count_step (of_thread st) (thread_steps r) (steps_left t) (steps_left u) (steps_left s) less le
      (thread_steps-le r)

steps_left-le : (s : Threads) → steps_left s ≤ 10
steps_left-le s = ground arith

-- Once both threads are in their loops, whatever signals come and however the steps of the threads
-- are mixed: the threads make at most ten steps more, and after a signal one of them can always go
-- on until the main thread has joined the others. So no join waits for ever.
pub shutdown_ends :
    (s t : Threads) (r : Reach s t)
    → begun s ≡ true
    → s.main_at ≡ serving
    → t.g_running ≡ false
    → (thread_steps r ≤ 10)
      × ((t.main_at ≡ joined) ⊎ ((u : Threads) × (st : Step t u) × (of_thread st ≡ true)))
shutdown_ends s t r b m g =
    let v : Settled s = record { begun_yet = b; capture = ground arith; input = ground arith } in
    (
      omega (arith, thread_steps-le r, steps_left-le s),
      goes_on t t.main_at (Reach-Settled r v) g refl,
    )
