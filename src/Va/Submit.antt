-- ===== src/Va/Submit.antt =====
-- The functions of ubuntu/src/encoder.c that submit one buffer, or a pair of them, to the picture
-- under way: `submit_packed_header` to `submit_framerate_param`. A result says whether the status is
-- `VA_STATUS_SUCCESS`.
use display_bridge.Prelude.{
  ℕ, ◌+◌, ◌*◌, ◌/◌, Bool, false, Option, none, some, List, [], ◌∷◌, ◌==◌, if◌then◌else◌, length,
  u32,
}
use display_bridge.Calls.{check, Calls, done, tell, ask}
use display_bridge.Encoder.{Encoder}
use display_bridge.Packed.{packed_sequence_headers, packed_slice_header}
use display_bridge.Va.{
  Handle, param_buf, data_buf, rc_buf, hrd_buf, fr_buf, RateControl, HeaderType, packed_sequence,
  packed_slice, Contents, packed_param, packed_data, misc_parameter, rate_control, hrd, frame_rate,
  VaCall, create_buffer, map_buffer, unmap_buffer, destroy_buffer, fill, render_picture,
  stray_store,
}

-- A status that is returned.
abbrev pub status : Bool → Calls VaCall Bool
status ok = done ok

-- `submit_packed_header`
unfoldable pub submit_packed_header : HeaderType → List ℕ → Calls VaCall Bool
unfolding check
submit_packed_header header_type bytes =
    let data_len_bits = u32 (length bytes * 8) in
    check (create_buffer param_buf (packed_param header_type data_len_bits)) (status false) (
      check (create_buffer data_buf (packed_data ((data_len_bits + 7) / 8) bytes))
        (tell (destroy_buffer param_buf) (status false))
        (ask (render_picture (param_buf ∷ data_buf ∷ []))
          λ st. tell (destroy_buffer param_buf) (tell (destroy_buffer data_buf) (status st))))

-- The headers that were assembled, if they fit their arrays.
unfoldable pub submit_assembled : HeaderType → Option (List ℕ) → Calls VaCall Bool
submit_assembled header_type none = tell stray_store (status false)
submit_assembled header_type (some bytes) = submit_packed_header header_type bytes

-- `submit_packed_sequence_headers`
unfoldable pub submit_packed_sequence_headers : Encoder → Calls VaCall Bool
submit_packed_sequence_headers enc = submit_assembled packed_sequence (packed_sequence_headers enc)

-- `submit_packed_slice_header`
unfoldable pub submit_packed_slice_header : Encoder → Bool → Calls VaCall Bool
submit_packed_slice_header enc is_idr =
    submit_assembled packed_slice (packed_slice_header enc is_idr)

-- What the three functions below have in common: a buffer that is created, mapped, filled in,
-- unmapped, rendered and destroyed.
unfoldable pub submit_misc : Handle → Contents → Calls VaCall Bool
unfolding check
submit_misc h contents = check (create_buffer h misc_parameter) (status false) (
    check (map_buffer h) (tell (destroy_buffer h) (status false)) (
      tell (fill h contents) (
        tell (unmap_buffer h)
          (ask (render_picture (h ∷ [])) λ st. tell (destroy_buffer h) (status st)))))

-- What `submit_rate_control` fills in.
unfoldable pub rate_control_of : Encoder → RateControl
rate_control_of enc = record {
  bits_per_second = u32 (enc.bitrate_kbps * 1000);
  target_percentage = 80;
  window_size = 1000;
  initial_qp = 26;
  min_qp = 18;
  basic_unit_size = 0;
  reset = if enc.frame_count == 0 then 1 else 0;
  disable_frame_skip = 1;
  disable_bit_stuffing = 1;
}

-- `submit_rate_control`
unfoldable pub submit_rate_control : Encoder → Calls VaCall Bool
submit_rate_control enc = submit_misc rc_buf (rate_control (rate_control_of enc))

-- `submit_hrd_param`
unfoldable pub submit_hrd_param : Encoder → Calls VaCall Bool
submit_hrd_param enc =
    let buffer_size = u32 (enc.bitrate_kbps * 1000) in
    submit_misc hrd_buf (hrd (buffer_size / 2) buffer_size)

-- `submit_framerate_param`
unfoldable pub submit_framerate_param : Encoder → Calls VaCall Bool
submit_framerate_param enc = submit_misc fr_buf (frame_rate (u32 enc.fps))
