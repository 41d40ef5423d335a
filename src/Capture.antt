-- ===== src/Capture.antt =====
-- The capture callback of ubuntu/src/main.c, `on_frame_captured`: from a captured picture to a
-- frame in the ring. What the encoder answers is an argument; the calls on it are a trace.
pub mod Delivery
pub mod Arrivals
pub mod Session
use display_bridge.Prelude.{
  ℕ, Bool, true, false, not, ◌||◌, Option, none, some, List, [], ◌∷◌, ◌==◌, if◌then◌else◌, length,
}
use display_bridge.Protocol.{target_width, target_height}
use display_bridge.Ring.{Frame, RingBuffer, Pushed, pushed, push}

-- What the encoder answers: -1; 0 without output; or 0 with these bytes, and whether they are a key
-- frame.
pub data Encoded : Type 0 where
  encode_failed no_output : Encoded
  encoded : List ℕ → ℕ → Encoded

-- The calls on the encoder.
pub data EncoderCall : Type 0 where
  encode_dmabuf encode_bgrx release_frame : EncoderCall

-- The ring after the callback, which ignores what `ring_push` returns, and the calls.
pub record Captured : Type 0 where
  pub ring : Pushed
  pub encoder_calls : List EncoderCall

-- Which encoder function is called: a picture without data is a DMA-BUF.
abbrev pub encode_call : Bool → EncoderCall
encode_call has_data = if has_data then encode_bgrx else encode_dmabuf

abbrev pub frame_of : List ℕ → ℕ → ℕ → Frame
frame_of out_bytes now is_keyframe = record {
  data_bytes = out_bytes;
  pts = now;
  is_keyframe = is_keyframe;
}

-- `on_frame_captured`, with the time and what `malloc` does.
unfoldable pub on_frame_captured : RingBuffer → Bool → ℕ → ℕ → Encoded → ℕ → Bool → Captured
on_frame_captured rb has_data width height encode_failed now found =
    if not (width == target_width) || not (height == target_height)
    then record { ring = pushed rb; encoder_calls = [] }
    else record { ring = pushed rb; encoder_calls = encode_call has_data ∷ [] }
on_frame_captured rb has_data width height no_output now found =
    if not (width == target_width) || not (height == target_height)
    then record { ring = pushed rb; encoder_calls = [] }
    else record { ring = pushed rb; encoder_calls = encode_call has_data ∷ [] }
on_frame_captured rb has_data width height (encoded out_bytes is_keyframe) now found =
    if not (width == target_width) || not (height == target_height)
    then record { ring = pushed rb; encoder_calls = [] }
    else if length out_bytes == 0
    then record { ring = pushed rb; encoder_calls = encode_call has_data ∷ [] }
    else record {
      ring = push rb (frame_of out_bytes now is_keyframe) found;
      encoder_calls = encode_call has_data ∷ release_frame ∷ [];
    }
