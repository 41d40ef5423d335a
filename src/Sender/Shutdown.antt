-- ===== src/Sender/Shutdown.antt =====
-- How the sender stops, ubuntu/src/main.c with `db_capture_start`, `db_capture_stop`,
-- `db_input_start` and `db_input_stop`: the flags that the threads and the signal handler share,
-- and the steps of the threads in any order. `pw_main_loop_run` runs until `pw_main_loop_quit` is
-- called, as PipeWire documents it; whether it heeds a call that came before it is left open.
pub mod Ending
pub mod Lost
use display_bridge.Prelude.{ℕ, ◌+◌, ◌≡◌, Bool, true, false, ◌&&◌, if◌then◌else◌}

-- Where a worker thread is: before the line that sets its flag, in its loop, or back from it.
pub data ThreadAt : Type 0 where
  created looping exited : ThreadAt

-- Where the main thread is: in the main loop; at the label `cleanup`; after `db_capture_stop`; in
-- the join of the capture thread, and in that of the input thread; after these.
pub data MainAt : Type 0 where
  serving leaving stopping_input joining_capture joining_input joined : MainAt

-- The flags, and where each thread is. `capture_quit` is what `pw_main_loop_run` looks at.
pub record Threads : Type 0 where
  pub g_running : Bool
  pub capture_quit : Bool
  pub input_running : Bool
  pub has_input : Bool
  pub main_at : MainAt
  pub capture_at : ThreadAt
  pub input_at : ThreadAt

-- After step 6 of `main`, with both threads made, or the capture thread only.
abbrev pub at_start : Bool → Threads
at_start has_input = record {
  g_running = true;
  capture_quit = false;
  input_running = false;
  has_input = has_input;
  main_at = serving;
  capture_at = created;
  input_at = created;
}

-- `db_capture_stop` and `db_input_stop`
abbrev pub capture_stop : Threads → Threads
capture_stop s = record s { capture_quit = true }

abbrev pub input_stop : Threads → Threads
input_stop s = if s.has_input then record s { input_running = false } else s

-- `signal_handler`
unfoldable pub signal_handler : Threads → Threads
signal_handler s = input_stop (capture_stop (record s { g_running = false }))

-- The first lines of `db_capture_start` and `db_input_start` in their threads.
abbrev pub capture_start : Bool → Threads → Threads
capture_start heeds s = record s { capture_quit = heeds && s.capture_quit; capture_at = looping }

abbrev pub input_start : Threads → Threads
input_start s = record s { input_running = true; input_at = looping }

-- One step of one thread, or of the signal handler, which may run at any time.
pub data Step (s : Threads) : Threads → Type 0 where
  signalled : Step s (signal_handler s)
  -- Whether a quit that came earlier is heeded.
  capture_starts : (heeds : Bool) → s.capture_at ≡ created → Step s (capture_start heeds s)
  -- The stream goes into the error state.
  stream_fails :
      s.capture_at ≡ looping → s.capture_quit ≡ false → Step s (record s { capture_quit = true })
  capture_ends :
      s.capture_at ≡ looping → s.capture_quit ≡ true → Step s (record s { capture_at = exited })
  input_starts : s.has_input ≡ true → s.input_at ≡ created → Step s (input_start s)
  input_ends :
      s.input_at ≡ looping → s.input_running ≡ false → Step s (record s { input_at = exited })
  -- `recv` fails.
  input_fails : s.input_at ≡ looping → Step s (record s { input_at = exited })
  -- `while (g_running)` is left.
  serving_ends : s.main_at ≡ serving → s.g_running ≡ false → Step s (record s { main_at = leaving })
  stops_capture :
      s.main_at ≡ leaving → Step s (capture_stop (record s { main_at = stopping_input }))
  stops_input :
      s.main_at ≡ stopping_input → Step s (input_stop (record s { main_at = joining_capture }))
  joins_capture :
      s.main_at ≡ joining_capture
      → s.capture_at ≡ exited
      → Step s (record s { main_at = joining_input })
  joins_input :
      s.main_at ≡ joining_input
      → s.has_input ≡ true
      → s.input_at ≡ exited
      → Step s (record s { main_at = joined })
  no_input_thread :
      s.main_at ≡ joining_input → s.has_input ≡ false → Step s (record s { main_at = joined })

-- Any number of steps.
pub data Reach (s : Threads) : Threads → Type 0 where
  here : Reach s s
  later : {t u : Threads} → Reach s t → Step t u → Reach s u

-- A step of a thread, not of the handler.
abbrev pub of_thread : {s t : Threads} → Step s t → Bool
of_thread signalled = false
of_thread _ = true
