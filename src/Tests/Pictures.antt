-- ===== src/Tests/Pictures.antt =====
-- The headers of the encoder as main.c sets it up, 2880 by 1800 at 60 frames per second.
use display_bridge.Prelude.{ℕ, ◌+◌, ◌%◌, ◌≡◌, ◌≢◌, arith, some, false, List, [], ◌∷◌}
use display_bridge.Encoder.{Encoder}
use display_bridge.Bitstream.View.{bytes_bits}
use display_bridge.Bitstream.Syntax.{decode}
use display_bridge.Nal.Escape.{unescape}
use display_bridge.Headers.{write_sps, write_slice_header}
use display_bridge.Headers.Rbsp.{Carries}
use display_bridge.Headers.Sps.{sps_table, write_sps-Carries}
use display_bridge.Headers.Crop.{shown_size, shown_size-write_sps}
use display_bridge.Headers.Slice.{slice_kinds, parsed, order_count, write_slice_header_misparsed}

abbrev sender : Encoder
sender = record {
  recon_surfaces = 11 ∷ 12 ∷ [];
  num_recon_surfaces = 2;
  current_recon_idx = 0;
  width = 2880;
  height = 1800;
  bitrate_kbps = 15000;
  fps = 60;
  codec = 1;
  frame_count = 125;
  idr_interval = 120;
}

write_sps-Carries_example : Carries (sps_table sender) (write_sps sender)
write_sps-Carries_example = write_sps-Carries sender (omega arith)

shown_size-write_sps_example :
    (bytes : List ℕ) × (write_sps sender ≡ some bytes)
    × (shown_size (bytes_bits (unescape bytes)) ≡ some (2880 + 2880 % 2, 1800 + 1800 % 2))
shown_size-write_sps_example = shown_size-write_sps sender (omega arith)

write_slice_header_misparsed_example :
    (bytes : List ℕ) × (write_slice_header sender false ≡ some bytes)
    × (decode (slice_kinds false) (bytes_bits (unescape bytes))
        ≡ some (parsed (order_count sender) false))
    × ((rest : List ℕ) → (parsed (order_count sender) false).1 ≢ 1 ∷ rest)
write_slice_header_misparsed_example = write_slice_header_misparsed sender false (omega arith)
