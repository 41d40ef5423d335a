-- ===== src/Tests/Senders.antt =====
-- The sender with parts that fail, and a main loop with a receiver that goes away.
use mathlib.Core.List.{Sublist}
use display_bridge.Prelude.{
  ◌++◌, ℕ, ◌+◌, ◌≤◌, ◌⊎◌, ◌≡◌, refl, arith, Bool, true, false, none, some, List, [], ◌∷◌, ltb,
}
use display_bridge.Prelude.Int.{pos}
use display_bridge.Calls.{run}
use display_bridge.Calls.Observer
use display_bridge.Encoder.{Encoder}
use display_bridge.Streamer.{Streamer, Effect, message, srts_connected, srts_broken}
use display_bridge.Streamer.Observer.{IsValid, follow, view}
use display_bridge.Sender.{main}
use display_bridge.Sender.Lifetime.{watch, left_by, main_lifetime}
use display_bridge.Sender.Frames.{Around, ring_frames, queue_frames}
use display_bridge.Sender.Stream.{Round, Connection, serve_all}
use display_bridge.Sender.Service.{serve_all-follow}
use display_bridge.Sender.Refine.{serve_all_refines}
use display_bridge.Sender.Order.{data_in}
use display_bridge.Sender.Receiving.{videos}
use display_bridge.Sender.Delivery.{all_deliveries, receive-serve_all}
use display_bridge.Sender.Shutdown.{
  looping, joining_input, joined, Threads, at_start, signal_handler, Step, signalled, Reach, here,
  later, of_thread,
}
use display_bridge.Sender.Shutdown.Ending.{thread_steps, shutdown_ends}
use display_bridge.Sender.Shutdown.Lost.{lost, stop_lost}
use display_bridge.Capture.{encoded}
use display_bridge.Capture.Arrivals.{Arrival, queue_all}
use display_bridge.Ring.{RingBuffer, init}
use display_bridge.Ring.Inv
use display_bridge.Ring.Queue
use display_bridge.Ring.Refine.{contents}

-- The sixth call, for the capture thread, fails.
abbrev first_five : ℕ → Bool
first_five n = ltb n 5

main_lifetime_example :
    let r = run first_five main in Observer.follow watch (some []) r.trace ≡ some (left_by r.value)
main_lifetime_example = main_lifetime first_five

abbrev idle_streamer : Streamer
idle_streamer = record {
  listen_sock = 3;
  client_sock = none;
  connected = false;
  seq = 0;
  start_time_us = 0;
}

idle-IsValid : IsValid idle_streamer
idle-IsValid = record { synced = refl; seq_in = omega arith }

abbrev some_encoder : Encoder
some_encoder = record {
  recon_surfaces = 11 ∷ 12 ∷ 13 ∷ 14 ∷ [];
  num_recon_surfaces = 4;
  current_recon_idx = 1;
  width = 2880;
  height = 1800;
  bitrate_kbps = 9000;
  fps = 60;
  codec = 1;
  frame_count = 37;
  idr_interval = 120;
}

-- A picture that is encoded, and one of the wrong size.
abbrev a_picture : Arrival
a_picture = record {
  has_data = true;
  width = 2880;
  height = 1800;
  answer = encoded (0 ∷ 0 ∷ 1 ∷ []) 1;
  now = 5000;
  found = true;
}

abbrev wrong_size : Arrival
wrong_size = record a_picture { width = 1920 }

abbrev no_pictures : Around
no_pictures = record { earlier = []; signals = []; at_deadline = []; meanwhile = [] }

-- A frame that is waited for, and read while another comes; that one; a wait that ends in a
-- heartbeat, while a frame comes without a signal; and this frame, at which the receiver is gone.
abbrev a_frame : Round
a_frame = record {
  status = srts_connected;
  around = record no_pictures {
    signals = (wrong_size ∷ []) ∷ (a_picture ∷ []) ∷ [];
    meanwhile = a_picture ∷ [];
  };
  now = 6000;
  sent = true;
  send_status = srts_connected;
  second_status = srts_connected;
  sent_at = 6100;
  now_abs = 6200;
  perf = some (record { rtt_us = 9000; pkt_loss_total = pos 0 });
}

abbrev next_frame : Round
next_frame = record a_frame { around = no_pictures }

abbrev a_wait : Round
a_wait = record a_frame {
  around = record no_pictures { at_deadline = a_picture ∷ [] };
  now = 2000000;
  now_abs = 2500000;
}

abbrev a_loss : Round
a_loss = record a_frame {
  around = no_pictures;
  sent = false;
  send_status = srts_broken;
  second_status = srts_broken;
}

abbrev some_connections : List Connection
some_connections =
    record {
      waited = a_picture ∷ a_picture ∷ [];
      event = false;
      socket = none;
      accepted_at = 1000;
      started_at = 1100;
      rounds = [];
    }
    ∷ record {
      waited = a_picture ∷ [];
      event = true;
      socket = some 8;
      accepted_at = 5000;
      started_at = 5100;
      rounds = a_frame ∷ next_frame ∷ a_wait ∷ a_loss ∷ [];
    }
    ∷ []

abbrev ring : RingBuffer
ring = init (λ _. true)

serve_all-follow_example :
    let served =
      (serve_all ring_frames idle_streamer some_encoder (some ring) some_connections).0 in
    (follow (some (view idle_streamer)) served.effects ≡ some (view served.streamer))
    × IsValid served.streamer
serve_all-follow_example =
    serve_all-follow ring_frames some_connections idle_streamer some_encoder (some ring)
      idle-IsValid

serve_all_refines_example :
    let code = serve_all ring_frames idle_streamer some_encoder (some ring) some_connections in
    let model =
      serve_all queue_frames idle_streamer some_encoder (some (contents ring)) some_connections in
    (code.0 ≡ model.0)
    × ((rb' : RingBuffer) × (code.1 ≡ some rb') × Inv.IsValid rb' × (model.1 ≡ some (contents rb')))
serve_all_refines_example =
    serve_all_refines some_connections idle_streamer some_encoder ring Inv.init-IsValid refl

receive-serve_all_example :
    Sublist
      (videos
        (serve_all ring_frames idle_streamer some_encoder (some ring) some_connections).0.effects)
      (data_in (contents ring) ++ all_deliveries some_connections)
receive-serve_all_example =
    receive-serve_all some_connections idle_streamer some_encoder ring idle-IsValid Inv.init-IsValid
      refl

-- How many frames and heartbeats are handed to SRT.
abbrev sends : List Effect → ℕ
sends [] = 0
sends (message client bytes ∷ es) = 1 + sends es
sends (e ∷ es) = sends es

three_frames_and_a_heartbeat :
    sends (serve_all queue_frames idle_streamer some_encoder (some []) some_connections).0.effects
    ≡ 4
unfolding serve_all queue_frames queue_all Queue.push
three_frames_and_a_heartbeat = refl

-- Both threads are in their loops.
abbrev running : Threads
running = record (at_start true) { capture_at = looping; input_at = looping; input_running = true }

abbrev signal_comes : Reach running (signal_handler running)
signal_comes = later here signalled

shutdown_ends_example :
    (thread_steps signal_comes ≤ 10)
    × (((signal_handler running).main_at ≡ joined)
        ⊎ ((u : Threads) × (st : Step (signal_handler running) u) × (of_thread st ≡ true)))
unfolding signal_handler
shutdown_ends_example = shutdown_ends running (signal_handler running) signal_comes refl refl refl

stop_lost_example : Reach (at_start true) lost × (lost.main_at ≡ joining_input)
stop_lost_example = stop_lost lost here refl
