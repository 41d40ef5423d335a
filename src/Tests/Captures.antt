-- ===== src/Tests/Captures.antt =====
-- A captured picture, a pixel, and the parameters of a P picture.
use display_bridge.Prelude.{
  ◌+◌, ◌-◌, ◌/◌, ◌≤◌, ◌≡◌, arith, Bool, ℕ, List, true, false, some, [], ◌∷◌, if◌then◌else◌,
  replicate,
}
use display_bridge.Prelude.Int.{pos}
use display_bridge.Encoder.{Encoder}
use display_bridge.Ring.{RingBuffer, init}
use display_bridge.Capture.Session.{Shot, capture_shots, IsReady, Restored, capture_shots_lifetime}
use display_bridge.Calls.{run}
use display_bridge.Calls.Observer.{follow}
use display_bridge.Va.Rules.{VaState, watch}
use display_bridge.Va.Bracket.{device, state}
use display_bridge.Va.Frames.{ConvBuf}
use display_bridge.Colour.{luma, cb, cr, cb_value, cr_value}
use display_bridge.Colour.Ranges.{limited_range}
use display_bridge.Headers.{align_ctu, need_conf, write_pps, write_sps, write_slice_header}
use display_bridge.Headers.Slice.{Refers}
use display_bridge.Headers.Rbsp.{Carries}
use display_bridge.Headers.Tables.{sps_window}
use display_bridge.Params.{
  Picture, no_picture, rps_st_curr_before, fill_pic_param, fill_slice_param,
}
use display_bridge.Params.Sequence.{fill_seq_param}
use display_bridge.Params.PictureSet.{pps_of, write_pps-fill_pic_param}
use display_bridge.Params.Agreement.{sps_of, write_sps-fill_seq_param, reference_frames_lem}

abbrev ring : RingBuffer
ring = init (λ _. true)

limited_range_example :
    ((16 ≤ luma 255 0 0) × (luma 255 0 0 ≤ 235))
    × ((16 ≤ cb 255 0 0) × (cb 255 0 0 ≤ 240) × (cb_value 255 0 0 ≡ pos (cb 255 0 0)))
    × ((16 ≤ cr 255 0 0) × (cr 255 0 0 ≤ 240) × (cr_value 255 0 0 ≡ pos (cr 255 0 0)))
limited_range_example = limited_range 255 0 0 (omega arith) (omega arith) (omega arith)

abbrev inside_period : Encoder
inside_period = record {
  recon_surfaces = 11 ∷ 12 ∷ 13 ∷ 14 ∷ [];
  num_recon_surfaces = 4;
  current_recon_idx = 1;
  width = 2880;
  height = 1800;
  bitrate_kbps = 15000;
  fps = 60;
  codec = 1;
  frame_count = 125;
  idr_interval = 120;
}

write_sps-fill_seq_param_example :
    Carries
      (sps_of (fill_seq_param inside_period) (need_conf inside_period) (
        if need_conf inside_period
        then sps_window ((align_ctu 2880 - 2880) / 2) ((align_ctu 1800 - 1800) / 2)
        else []))
      (write_sps inside_period)
write_sps-fill_seq_param_example = write_sps-fill_seq_param inside_period (omega arith)

write_pps-fill_pic_param_example :
    Carries
      (pps_of (fill_pic_param inside_period (some 12) (some 11) false))
      (write_pps inside_period)
write_pps-fill_pic_param_example = write_pps-fill_pic_param inside_period (some 12) (some 11) false

reference_frames_lem_example :
    (reference : Picture) × ((fill_pic_param inside_period
        (some 12)
        (some 11)
        false).reference_frames
      ≡ reference ∷ replicate 14 no_picture)
    × ((fill_slice_param inside_period (some 11) false).ref_pic_list0
        ≡ (fill_pic_param inside_period (some 12) (some 11) false).reference_frames)
    × (reference.picture_id ≡ some 11)
    × (reference.flags ≡ rps_st_curr_before)
    × (reference.pic_order_cnt + 1
        ≡ (fill_pic_param inside_period (some 12) (some 11) false).decoded_curr_pic.pic_order_cnt)
    × Refers
        (fill_pic_param inside_period (some 12) (some 11) false).decoded_curr_pic.pic_order_cnt
        0
        (write_slice_header inside_period false)
reference_frames_lem_example =
    reference_frames_lem inside_period (some 12) 11 (omega arith) (omega arith) (omega arith)
      (omega arith) (omega arith)

-- An encoder at its second picture, whose device answers as it should: two pictures with data and
-- one as a DMA-BUF, before which an IDR picture is forced.
abbrev a_shot : Shot
a_shot = record {
  has_data = true;
  pixels = λ i. 128;
  stride = 64;
  image = record { offset_y = 0; offset_uv = 256; pitch_y = 16; pitch_uv = 16 };
  has_output = true;
  forced = false;
}

abbrev three_shots : List Shot
three_shots = a_shot ∷ record a_shot { has_data = false; forced = true } ∷ a_shot ∷ []

abbrev always : ℕ → Bool
always n = true

abbrev small_encoder : Encoder
small_encoder = record inside_period { width = 16; height = 16 }

small-IsReady : IsReady small_encoder
small-IsReady = record {
  fps_in = omega arith;
  size_in = (omega arith, omega arith);
  interval_pos = omega arith;
  interval_in = omega arith;
}

abbrev no_buffer : ConvBuf
no_buffer = record { present = false; size = 0 }

capture_shots_lifetime_example :
    let r = run always (capture_shots small_encoder no_buffer three_shots) in
    (t : VaState) × (follow watch (some (state (device false) [] false)) r.trace ≡ some t)
    × Restored r.value t
capture_shots_lifetime_example =
    capture_shots_lifetime always three_shots small_encoder no_buffer small-IsReady
