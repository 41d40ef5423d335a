-- ===== src/Tests/Services.antt =====
-- The set-up of the streamer.
use display_bridge.Prelude.{ℕ, ◌≡◌, Bool, some, [], ltb}
use display_bridge.Calls.{run}
use display_bridge.Calls.Observer.{follow}
use display_bridge.Streamer.{Streamer}
use display_bridge.Streamer.Sockets.{streamer_init, streamer_destroy}
use display_bridge.Streamer.Lifetime
use display_bridge.Streamer.Lifetime.{ValidIfMade, streamer_holds, streamer_lifetime}

-- The first five calls succeed.
abbrev first_five : ℕ → Bool
first_five n = ltb n 5

abbrev live_streamer : Streamer
live_streamer = record {
  listen_sock = 3;
  client_sock = some 4;
  connected = Bool.true;
  seq = 7;
  start_time_us = 1000;
}

streamer_lifetime_example :
    let r = run first_five (streamer_init 7878 500 3 1000) in
    (follow Lifetime.watch (some []) r.trace ≡ some (Lifetime.held_by r.value))
    × ValidIfMade r.value
    × (follow Lifetime.watch
          (some (streamer_holds (some 4)))
          (run first_five (streamer_destroy live_streamer)).trace
        ≡ some [])
streamer_lifetime_example = streamer_lifetime first_five 7878 500 3 1000 live_streamer
