-- ===== src/Tests/Screens.antt =====
-- A session of the capture, and a stream that hands over two buffers.
use mathlib.Core.List.{Memᴰ}
use display_bridge.Prelude.{ℕ, ◌≡◌, refl, Bool, true, none, some, List, [], ◌∷◌, ltb}
use display_bridge.Calls.{run}
use display_bridge.Calls.Observer
use display_bridge.Screencast.{dbus}
use display_bridge.Screencast.Rules
use display_bridge.Screencast.Rules.{Holding}
use display_bridge.Screencast.Mutter.{added, timeout}
use display_bridge.Screencast.Pipewire.{destroy, capture_init}
use display_bridge.Screencast.Stream.{
  on_stream_process, dequeued, frame, queued, StreamState, VideoInfo, mem_ptr, dma_buf, StreamEvent,
  param_changed, process, state_changed, raw, events,
}
use display_bridge.Screencast.Frames
use display_bridge.Screencast.Frames.{between, events-follow}
use display_bridge.Screencast.Lifetime.{
  possible, valid, valid_capture, capture_holds, capture_lifetime,
}

abbrev first_seven : ℕ → Bool
first_seven n = ltb n 7

capture_lifetime_example :
    let r = run first_seven (capture_init (added 42)) in
    ((t : Holding) × Memᴰ t (possible r.value)
      × (Observer.follow Rules.watch (some []) r.trace ≡ some t))
    × (valid r.value ≡ true)
    × (Observer.follow Rules.watch
          (some capture_holds)
          (run first_seven (destroy (valid_capture 42))).trace
        ≡ some [])
capture_lifetime_example = capture_lifetime first_seven (added 42) 42

abbrev new_stream : StreamState
new_stream = record { video_info = none; has_callback = true; running = true }

abbrev bgrx_info : VideoInfo
bgrx_info = record { width = 2880; height = 1800; format = 8 }

-- A buffer before the format, the format, one of memory, one of a DMA-BUF, and an error.
abbrev some_events : List StreamEvent
some_events =
    process (some (record { number = 1; contents = some (dma_buf 9) }))
    ∷ param_changed true true (raw bgrx_info)
    ∷ process (some (record { number = 2; contents = some (mem_ptr true 20736000 11520) }))
    ∷ process (some (record { number = 1; contents = some (dma_buf 9) }))
    ∷ state_changed true
    ∷ []

events-follow_example :
    Frames.follow (some (between new_stream)) (events new_stream some_events).1
    ≡ some (between (events new_stream some_events).0)
events-follow_example = events-follow some_events new_stream

-- `RecordMonitor` fails, and the reference to the connection is left.
abbrev first_three : ℕ → Bool
first_three n = ltb n 3

connection_is_left :
    Observer.follow Rules.watch (some []) (run first_three (capture_init timeout)).trace
    ≡ some (dbus ∷ [])
unfolding run capture_init
connection_is_left = refl

-- The pixels of a stream in another format are handed over alike.
abbrev rgbx_stream : StreamState
rgbx_stream = record new_stream { video_info = some (record bgrx_info { format = 7 }) }

abbrev one_buffer : StreamEvent
one_buffer = process (some (record { number = 2; contents = some (mem_ptr true 20736000 11520) }))

format_is_ignored :
    (events rgbx_stream (one_buffer ∷ [])).1
    ≡ dequeued 2 ∷ frame true 2880 1800 11520 ∷ queued 2 ∷ []
unfolding events on_stream_process
format_is_ignored = refl
