-- ===== src/Sender/Shutdown/Lost.antt =====
-- A stop that comes too early: `db_input_start` sets its flag itself.
use display_bridge.Prelude.{◌≡◌, refl, arith, Bool, true, false, ◌&&◌, and_both}
use display_bridge.Sender.Shutdown.{
  looping, created, exited, joining_capture, joining_input, Threads, at_start, signal_handler, Step,
  signalled, capture_starts, stream_fails, capture_ends, input_starts, input_ends, input_fails,
  serving_ends, stops_capture, stops_input, joins_capture, joins_input, no_input_thread, Reach,
  here, later,
}

-- The sender is stopped before the input thread gets to the first line of `db_input_start`.
abbrev pub lost : Threads
lost = record {
  g_running = false;
  capture_quit = true;
  input_running = true;
  has_input = true;
  main_at = joining_input;
  capture_at = exited;
  input_at = looping;
}

-- Both stops come while the input thread has not begun.
stopped : Reach (at_start true) (record lost {
  main_at = joining_capture;
  input_running = false;
  capture_at = looping;
  input_at = created;
})
unfolding signal_handler
stopped =
    later
      (later
        (later (later (later here (capture_starts false refl)) signalled) (serving_ends refl refl))
        (stops_capture refl))
      (stops_input refl)

reach-lost : Reach (at_start true) lost
reach-lost =
    later (later (later stopped (capture_ends refl refl)) (joins_capture refl refl))
      (input_starts refl refl)

-- No second signal, and no error of the socket.
abbrev quiet_step : {s t : Threads} → Step s t → Bool
quiet_step signalled = false
quiet_step (input_fails h) = false
quiet_step _ = true

abbrev pub quiet : {s t : Threads} → Reach s t → Bool
quiet here = true
quiet (later r st) = quiet r && quiet_step st

-- The main thread waits for a loop that nothing ends.
record Hangs (s : Threads) : Type 0 where
  main_waits : s.main_at ≡ joining_input
  input_there : s.has_input ≡ true
  input_loops : s.input_at ≡ looping
  not_stopped : s.input_running ≡ true

Step-Hangs : {s t : Threads} (st : Step s t) → quiet_step st ≡ true → Hangs s → Hangs t
Step-Hangs signalled q h = ground arith
Step-Hangs (stream_fails k l) q h = ground arith
Step-Hangs (capture_starts heeds k) q h = ground arith
Step-Hangs (input_starts k l) q h = ground arith
Step-Hangs (capture_ends k l) q h = ground arith
Step-Hangs (input_ends k l) q h = ground arith
Step-Hangs (input_fails k) q h = ground arith
Step-Hangs (serving_ends k l) q h = ground arith
Step-Hangs (stops_capture k) q h = ground arith
Step-Hangs (stops_input k) q h = ground arith
Step-Hangs (joins_capture k l) q h = ground arith
Step-Hangs (joins_input k l m) q h = ground arith
Step-Hangs (no_input_thread k l) q h = ground arith

Reach-Hangs : {s t : Threads} (r : Reach s t) → quiet r ≡ true → Hangs s → Hangs t
Reach-Hangs here q h = h
Reach-Hangs (later r st) q h =
    let both = and_both (quiet r) (quiet_step st) q in Step-Hangs st both.1 (Reach-Hangs r both.0 h)

-- The sender can come to wait for an input loop that started after it had been stopped: whatever
-- the threads do then, the main thread stays in the join, unless another signal comes or `recv`
-- fails.
pub stop_lost :
    (t : Threads) (r : Reach lost t)
    → quiet r ≡ true
    → Reach (at_start true) lost × (t.main_at ≡ joining_input)
stop_lost t r q =
    let h : Hangs lost = record {
      main_waits = refl;
      input_there = refl;
      input_loops = refl;
      not_stopped = refl;
    } in
    (reach-lost, (Reach-Hangs r q h).main_waits)
