-- ===== src/Tests/Gops.antt =====
-- The pictures of a fresh encoder, and its packed headers.
use display_bridge.Prelude.{
  ℕ, ◌≤◌, ◌≡◌, ◌≢◌, refl, arith, true, false, none, some, List, [], ◌∷◌, length, if◌then◌else◌,
}
use display_bridge.Encoder.{Encoder}
use display_bridge.Headers.{write_vps, write_sps, write_pps}
use display_bridge.Headers.Tables.{vps_table, pps_table}
use display_bridge.Headers.Rbsp.{Carries}
use display_bridge.Headers.Sps.{sps_table}
use display_bridge.Packed.{packed_sequence_headers}
use display_bridge.Packed.Contents.{three_units, packed_sequence_headers_lem}
use display_bridge.Gop.{is_idr, prev_recon, ref_surface}
use display_bridge.Gop.References.{
  IsValid, Call, encode, force, calls, surface_of, ref_surface-calls,
}

abbrev encoder_at : ℕ → Encoder
encoder_at count = record {
  recon_surfaces = 11 ∷ 12 ∷ 13 ∷ 14 ∷ [];
  num_recon_surfaces = 4;
  current_recon_idx = 0;
  width = 2880;
  height = 1800;
  bitrate_kbps = 15000;
  fps = 60;
  codec = 1;
  frame_count = count;
  idr_interval = 120;
}

encoder-IsValid : IsValid (encoder_at 0)
encoder-IsValid = record { pool = refl; in_pool = omega arith }

-- Two frames, a failure, and a forced picture.
abbrev some_calls : List Call
some_calls = encode true ∷ encode true ∷ encode false ∷ force ∷ encode true ∷ []

ref_surface-calls_example :
    let (last, now) = calls none (encoder_at 0) some_calls in
    (ref_surface now ≡ (if is_idr now then none else surface_of now last))
    × (now.current_recon_idx ≢ prev_recon now)
ref_surface-calls_example = ref_surface-calls (encoder_at 0) some_calls encoder-IsValid refl

packed_sequence_headers_lem_example :
    (vps : Carries (vps_table 60) (write_vps (encoder_at 0))) × (sps : Carries
      (sps_table (encoder_at 0))
      (write_sps (encoder_at 0)))
    × (pps : Carries pps_table (write_pps (encoder_at 0))) × (packed_sequence_headers (encoder_at 0)
        ≡ some (three_units vps.bytes sps.bytes pps.bytes))
    × (length (three_units vps.bytes sps.bytes pps.bytes) ≤ 2048)
packed_sequence_headers_lem_example =
    packed_sequence_headers_lem (encoder_at 0) (omega arith) (omega arith)
