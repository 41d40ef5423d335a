-- ===== src/Capture/Delivery.antt =====
-- What the capture callback does to the queue of frames.
use display_bridge.Prelude.{
  ℕ, ◌≡◌, ◌≢◌, refl, Bool, true, List, [], ◌∷◌, ne→==, length, inr, ◌⊎◌, arith,
}
use display_bridge.Protocol.{target_width, target_height}
use display_bridge.Ring.{RingBuffer, pushed}
use display_bridge.Ring.Queue
use display_bridge.Ring.Inv.{IsValid}
use display_bridge.Ring.Refine.{contents, push_refines}
use display_bridge.Capture.{
  Encoded, encode_failed, no_output, encoded, release_frame, encode_call, frame_of,
  on_frame_captured,
}

-- A captured picture of the target size whose encoding has output is delivered: its bytes with the
-- time and the key frame flag go to the end of the queue of frames, as long as `malloc` finds
-- memory, and the output is released after that.
on_frame_captured_delivers :
    (rb : RingBuffer) (has_data : Bool) (out_bytes : List ℕ) (is_keyframe now : ℕ)
    → IsValid rb
    → length out_bytes ≢ 0
    → let r =
        on_frame_captured rb has_data target_width target_height
          (encoded out_bytes is_keyframe)
          now
          true in
      (rb' : RingBuffer) × (r.ring ≡ pushed rb')
      × IsValid rb'
      × (contents rb' ≡ Queue.push (contents rb) (frame_of out_bytes now is_keyframe))
      × (r.encoder_calls ≡ encode_call has_data ∷ release_frame ∷ [])
unfolding on_frame_captured
on_frame_captured_delivers rb has_data out_bytes is_keyframe now v h =
    let (rb', e, v', c) = push_refines rb (frame_of out_bytes now is_keyframe) true v (inr refl) in
    rw (ne→== (length out_bytes) 0 h) (rb', e, v', c, refl)

-- A picture of another size leaves the ring and the encoder alone, and one that the encoder does
-- not encode leaves the ring alone, whatever the encoder answers otherwise.
on_frame_captured_ignores :
    (rb : RingBuffer) (has_data found : Bool) (width height now : ℕ) (answer : Encoded)
    → (width ≢ target_width) ⊎ (height ≢ target_height)
    → ((on_frame_captured rb has_data width height answer now found).ring ≡ pushed rb)
      × ((on_frame_captured rb has_data width height answer now found).encoder_calls ≡ [])
      × ((on_frame_captured rb has_data target_width target_height encode_failed now found).ring
          ≡ pushed rb)
unfolding on_frame_captured
on_frame_captured_ignores rb has_data found width height now encode_failed h =
    (ground arith, ground arith, refl)
on_frame_captured_ignores rb has_data found width height now no_output h =
    (ground arith, ground arith, refl)
on_frame_captured_ignores rb has_data found width height now (encoded out_bytes is_keyframe) h =
    (ground arith, ground arith, refl)
