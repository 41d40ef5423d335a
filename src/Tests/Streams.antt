-- ===== src/Tests/Streams.antt =====
-- A streamer with a client.
use display_bridge.Prelude.{ℕ, ◌≡◌, refl, arith, true, false, some, List, [], ◌∷◌}
use display_bridge.Streamer.{
  Streamer, srts_connected, srts_broken, send, next_seq, message, video_header,
}
use display_bridge.Streamer.Wire.{Arrives, receive-send}
use display_bridge.Streamer.Observer.{IsValid}
use display_bridge.Streamer.Session.{Step, accepting, sending, beating, checking}

abbrev streaming : Streamer
streaming = record {
  listen_sock = 3;
  client_sock = some 7;
  connected = true;
  seq = 65535;
  start_time_us = 100;
}

abbrev frame_bytes : List ℕ
frame_bytes = 0 ∷ 0 ∷ 1 ∷ 38 ∷ []

receive-send_example :
    (bytes : List ℕ) × (send streaming frame_bytes 5000 1 2000 true srts_connected
      ≡ record { success = true; streamer = next_seq streaming; effects = message 7 bytes ∷ [] })
    × Arrives bytes frame_bytes (video_header 5000 1)
receive-send_example =
    receive-send streaming 7 frame_bytes 5000 1 2000 srts_connected refl refl (omega arith)
      (omega arith) (omega arith)

-- A lost client, and the next one.
abbrev two_clients : List Step
two_clients =
    sending frame_bytes 5000 1 2000 true srts_connected
    ∷ sending frame_bytes 6000 0 3000 false srts_broken
    ∷ checking srts_broken
    ∷ accepting true (some 8) 4000
    ∷ beating 5000 true srts_connected
    ∷ []

streaming-IsValid : IsValid streaming
streaming-IsValid = record { synced = refl; seq_in = omega arith }
