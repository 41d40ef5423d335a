-- ===== src/Tests/Devices.antt =====
-- Libraries that answer the calls of the encoder, some of them with a failure.
use mathlib.Core.List.{Memᴰ}
use display_bridge.Va.Rows.{picture_rows_bounds}
use display_bridge.Prelude.{
  ◌+◌, ◌*◌, ◌/◌, ◌≤◌, ℕ, ◌≡◌, refl, none, Bool, true, false, some, [], ◌∷◌, ltb, arith,
}
use display_bridge.Calls.{run, ◌>>=◌}
use display_bridge.Calls.Observer.{follow}
use display_bridge.Encoder.{Encoder}
use display_bridge.Colour.{cr}
use display_bridge.Va.{input, seq_buf}
use display_bridge.Va.Surface.{encode_surface, or_fail_end, submit_sequence, submit_param}
use display_bridge.Colour.Picture.{convert}
use display_bridge.Colour.Plane.{written, luma_at, Pair}
use display_bridge.Colour.Conversion.{convert_lem}
use display_bridge.Va.{Row, VaImage}
use display_bridge.Va.Rules.{watch}
use display_bridge.Va.Bracket.{device, state}
use display_bridge.Va.Frames.{picture_rows, ConvBuf, encode_bgrx}
use display_bridge.Va.Device.{init, destroy}
use display_bridge.Va.Opening.{device_lifetime, nothing, after_init, valid_if_open, valid_handles}
use display_bridge.Va.Lifetime.{EndsIn, frame_endings, encode_bgrx_lifetime}

-- The first six calls succeed.
abbrev first_six : ℕ → Bool
first_six n = ltb n 6

abbrev some_encoder : Encoder
some_encoder = record {
  recon_surfaces = 11 ∷ 12 ∷ 13 ∷ 14 ∷ [];
  num_recon_surfaces = 4;
  current_recon_idx = 0;
  width = 2880;
  height = 1800;
  bitrate_kbps = 15000;
  fps = 60;
  codec = 1;
  frame_count = 0;
  idr_interval = 120;
}

abbrev some_image : VaImage
some_image = record { offset_y = 0; offset_uv = 5184000; pitch_y = 2880; pitch_uv = 2880 }

-- A conversion buffer that is too small.
abbrev small_buf : ConvBuf
small_buf = record { present = true; size = 1000 }

abbrev grey : ℕ → ℕ
grey offset = 128

encode_bgrx_lifetime_example :
    let r = run first_six (encode_bgrx some_encoder small_buf grey 11520 some_image) in
    EndsIn (state (device true) [] false) r.trace (frame_endings r.value.1.present r.value.0)
encode_bgrx_lifetime_example =
    encode_bgrx_lifetime first_six some_encoder small_buf grey 11520 some_image (omega arith)
      (omega arith) (omega arith)

-- The context is not created.
device_lifetime_example :
    let r = run first_six (init 2880 1800 1) in
    (follow watch (some nothing) r.trace ≡ some (after_init r.value))
    × (valid_if_open r.value ≡ true)
    × (follow watch
          (some (state (device true) [] false))
          (run first_six (destroy (valid_handles small_buf))).trace
        ≡ some nothing)
device_lifetime_example = device_lifetime first_six 2880 1800 1 small_buf

-- A picture of four by three pixels.
abbrev ramp : ℕ → ℕ
ramp offset = offset

convert_lem_example :
    let stores = convert ramp 4 3 16 in
    (written stores 11 ≡ some (luma_at ramp 44))
    × Pair ramp stores 14 8
    × (written stores 18 ≡ none)
convert_lem_example =
    convert_lem ramp 4 3 16 3 2 1 0 18 refl (omega arith) (omega arith) (omega arith) (omega arith)
      (omega arith)

-- The row of the UV plane of a picture of four by two pixels.
abbrev small_encoder : Encoder
small_encoder = record some_encoder { width = 4; height = 2 }

abbrev uv_row : Row
uv_row = record { dst = 5184000; src = 8; size = 4 }

uv_row_is_copied : Memᴰ uv_row (picture_rows small_encoder 4 some_image)
unfolding picture_rows
uv_row_is_copied = Memᴰ.tail (Memᴰ.tail (Memᴰ.head refl))

picture_rows_bounds_example : (5184000 + 4 ≤ 5186880) × (8 + 4 ≤ 4 * 2 + 2 / 2 * 4)
picture_rows_bounds_example =
    picture_rows_bounds small_encoder 4 5186880 some_image uv_row (omega arith) (omega arith)
      (omega arith) (omega arith) (omega arith) (omega arith) uv_row_is_copied

-- `vaRenderPicture` fails for the sequence parameter buffer, which is left.
abbrev first_two : ℕ → Bool
first_two n = ltb n 2

buffer_is_left :
    follow watch
      (some (state (input ∷ device true) [] false))
      (run first_two (encode_surface some_encoder)).trace
    ≡ some (state (seq_buf ∷ input ∷ device true) [] false)
unfolding run encode_surface or_fail_end ◌>>=◌ submit_sequence submit_param
buffer_is_left = refl

-- A picture of one by two pixels: the last byte is stored behind the three of the buffer.
stored_behind : written (convert ramp 1 2 4) (1 * 2 * 3 / 2) ≡ some (cr 0 1 2)
unfolding convert
stored_behind = refl
