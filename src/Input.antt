-- ===== src/Input.antt =====
-- Input forwarding on the sender, ubuntu/src/input.c: datagrams from the receiver become events of
-- a virtual device. The numbers of linux/input-event-codes.h are a parameter; the events written to
-- the device are the result.
pub mod Batches
pub mod Datagrams
pub mod Device
pub mod Lifetime
use display_bridge.Prelude.{
  ℕ, ◌+◌, ◌-◌, ◌^◌, Bool, true, false, not, List, [], ◌∷◌, ◌++◌, ltb, ◌==◌, if◌then◌else◌, length,
  take, drop, u16,
}
use display_bridge.Prelude.Int.{ℤ, pos, negsuc, sub_ℕ, eqb_ℤ}
use display_bridge.Protocol.{
  InputEvent, packet_header_at, input_event_at, PacketHeader, packet_header_size, input_event_size,
  pkt_input_event,
}

-- The constants of linux/input-event-codes.h that the code uses.
pub record EventCodes : Type 0 where
  pub ev_syn : ℕ
  pub ev_key : ℕ
  pub ev_rel : ℕ
  pub ev_abs : ℕ
  pub syn_report : ℕ
  pub abs_x : ℕ
  pub abs_y : ℕ
  pub btn_left : ℕ
  pub btn_right : ℕ
  pub btn_middle : ℕ
  pub rel_wheel : ℕ
  pub rel_hwheel : ℕ

-- The `struct input_event` that `emit_event` writes.
pub record Event : Type 0 where
  pub kind : ℕ
  pub code : ℕ
  pub value : ℤ

abbrev pub input_mouse_move : ℕ
input_mouse_move = 0x20

abbrev pub input_mouse_button : ℕ
input_mouse_button = 0x21

abbrev pub input_mouse_scroll : ℕ
input_mouse_scroll = 0x22

abbrev pub input_key_down : ℕ
input_key_down = 0x23

abbrev pub input_key_up : ℕ
input_key_up = 0x24

-- The value of an `int16_t` with this pattern.
abbrev pub i16 : ℕ → ℤ
i16 v = if ltb v (2 ^ 15) then pos v else sub_ℕ v (2 ^ 16)

module _ (codes : EventCodes) where
  -- `emit_event`
  abbrev pub emit_event : ℕ → ℕ → ℤ → List Event
  emit_event kind code value = record { kind = kind; code = code; value = value } ∷ []

  -- `emit_syn`
  abbrev pub emit_syn : List Event
  emit_syn = emit_event codes.ev_syn codes.syn_report (pos 0)

  -- The switch on the button.
  abbrev pub button_code : ℤ → ℕ
  button_code value =
      if eqb_ℤ value (pos 1)
      then codes.btn_left
      else if eqb_ℤ value (pos 2)
      then codes.btn_right
      else if eqb_ℤ value (pos 3)
      then codes.btn_middle
      else codes.btn_left

  -- `handle_input_event`
  unfoldable pub handle_input_event : InputEvent → List Event
  handle_input_event evt =
      if evt.event_type == input_mouse_move
      then emit_event codes.ev_abs codes.abs_x (i16 evt.x)
        ++ (emit_event codes.ev_abs codes.abs_y (i16 evt.y) ++ emit_syn)
      else if evt.event_type == input_mouse_button
      then emit_event codes.ev_key (button_code (i16 evt.value)) (i16 evt.y) ++ emit_syn
      else if evt.event_type == input_mouse_scroll
      then (if not (eqb_ℤ (i16 evt.value) (pos 0))
          then emit_event codes.ev_rel codes.rel_wheel (i16 evt.value)
          else [])
        ++ ((if not (eqb_ℤ (i16 evt.x) (pos 0))
              then emit_event codes.ev_rel codes.rel_hwheel (i16 evt.x)
              else [])
            ++ emit_syn)
      else if evt.event_type == input_key_down
      then emit_event codes.ev_key (u16 evt.x) (pos 1) ++ emit_syn
      else if evt.event_type == input_key_up
      then emit_event codes.ev_key (u16 evt.x) (pos 0) ++ emit_syn
      else []

  -- The loop of `db_input_start` once `recv` has put a datagram into `buf`.
  unfoldable pub handle_datagram : List ℕ → List Event
  unfolding handle_input_event
  handle_datagram buf =
      if ltb (length buf) (packet_header_size + input_event_size)
      then []
      else if not ((packet_header_at buf).packet_type == pkt_input_event)
      then []
      else handle_input_event (input_event_at (drop packet_header_size buf))

-- `INPUT_BUF_SIZE`
abbrev pub input_buf_size : ℕ
input_buf_size = 512

-- What `recv` gives: a datagram, EAGAIN, EWOULDBLOCK or EINTR, or another error.
pub data Recv : Type 0 where
  datagram : List ℕ → Recv
  again failed : Recv

-- `db_input_start` after `running` is set: each round with the value of `running` that its test
-- reads and what `recv` gives. The loop ends at a cleared flag or at an error.
unfoldable pub input_loop : EventCodes → List (Bool × Recv) → List Event
unfolding handle_datagram
input_loop codes [] = []
input_loop codes ((false, r) ∷ rounds) = []
input_loop codes ((true, datagram bytes) ∷ rounds) =
    handle_datagram codes (take input_buf_size bytes) ++ input_loop codes rounds
input_loop codes ((true, again) ∷ rounds) = input_loop codes rounds
input_loop codes ((true, failed) ∷ rounds) = []
