-- ===== src/Tests/Inputs.antt =====
-- A key press on its way from the receiver to the device.
use display_bridge.Prelude.{
  ltb, some, ℕ, ◌≡◌, ◌≢◌, ◌++◌, refl, arith, Bool, true, false, List, [], ◌∷◌,
}
use display_bridge.Protocol.{
  PacketHeader, InputEvent, packet_header_bytes, serialize_input_event, packet_header_at, field,
  le_value,
}
use display_bridge.Protocol.Layout.{PacketFits, EventFits}
use display_bridge.Input.{
  EventCodes, handle_input_event, handle_datagram, input_loop, Recv, datagram, again,
}
use display_bridge.Input.Batches.{Distinct, pending, reports, acted_on, input_loop_batches}
use display_bridge.Input.Datagrams.{handle_datagram_lem}
use display_bridge.Calls.{run}
use display_bridge.Calls.Observer.{follow}
use display_bridge.Input.Device.{DeviceCodes, both_handles, input_init, input_destroy}
use display_bridge.Input.Lifetime
use display_bridge.Input.Lifetime.{input_holds, input_lifetime}

-- The numbers of Linux.
abbrev linux : EventCodes
linux = record {
  ev_syn = 0;
  ev_key = 1;
  ev_rel = 2;
  ev_abs = 3;
  syn_report = 0;
  abs_x = 0;
  abs_y = 1;
  btn_left = 272;
  btn_right = 273;
  btn_middle = 274;
  rel_wheel = 8;
  rel_hwheel = 6;
}

linux-Distinct : Distinct linux
linux-Distinct = record { key = omega arith; rel = omega arith; abs = omega arith }

abbrev header : PacketHeader
header = record {
  packet_type = 2;
  flags = 0;
  seq = 9;
  timestamp = 1234;
  payload_size = 8;
  reserved = 0;
}

header-PacketFits : PacketFits header
header-PacketFits = record {
  type_fits = omega arith;
  flags_fits = omega arith;
  seq_fits = omega arith;
  timestamp_fits = omega arith;
  size_fits = omega arith;
  reserved_fits = omega arith;
}

abbrev key_press : InputEvent
key_press = record { event_type = 0x23; reserved = 0; x = 30; y = 0; value = 0 }

key_press-EventFits : EventFits key_press
key_press-EventFits = record {
  type_fits = omega arith;
  reserved_fits = omega arith;
  x_fits = omega arith;
  y_fits = omega arith;
  value_fits = omega arith;
}

abbrev key_datagram : List ℕ
key_datagram = packet_header_bytes header ++ (serialize_input_event key_press ++ [])

other_kind : (packet_header_at (1 ∷ [])).packet_type ≢ 2
unfolding packet_header_at field le_value
other_kind = ground arith

handle_datagram_lem_example :
    (handle_datagram linux key_datagram ≡ handle_input_event linux key_press)
    × (handle_datagram linux (2 ∷ []) ≡ [])
    × (handle_datagram linux (1 ∷ []) ≡ [])
handle_datagram_lem_example =
    handle_datagram_lem linux header key_press [] (2 ∷ []) (1 ∷ []) header-PacketFits
      key_press-EventFits refl (omega arith) other_kind

abbrev arrivals : List (Bool × Recv)
arrivals =
    (true, again)
    ∷ (true, datagram key_datagram)
    ∷ (true, datagram (2 ∷ []))
    ∷ (false, datagram key_datagram)
    ∷ []

input_loop_batches_example :
    (pending linux false (input_loop linux arrivals) ≡ false)
    × (reports linux (input_loop linux arrivals) ≡ acted_on arrivals)
input_loop_batches_example = input_loop_batches linux arrivals linux-Distinct

abbrev linux_device : DeviceCodes
linux_device = record {
  codes = linux;
  key_max = 767;
  btn_side = 275;
  btn_extra = 276;
  rel_x = 0;
  rel_y = 1;
  bus_virtual = 6;
}

-- `UI_DEV_SETUP` fails.
abbrev first_six : ℕ → Bool
first_six n = ltb n 6

input_lifetime_example :
    let r = run first_six (input_init linux_device 7879) in
    (follow Lifetime.watch (some []) r.trace ≡ some (Lifetime.held_by r.value))
    × (follow Lifetime.watch (some input_holds) (run first_six (input_destroy both_handles)).trace
        ≡ some [])
input_lifetime_example = input_lifetime first_six linux_device 7879
