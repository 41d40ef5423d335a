-- ===== src/Encoder/State.antt =====
-- `db_encoder_t` of ubuntu/include/encoder.h, without the handles of the VA library and without the
-- buffers that only hold pixels and bitstreams.
use display_bridge.Prelude.{ℕ, List}

pub record Encoder : Type 0 where
  -- The surfaces by their numbers; `VA_INVALID_ID` does not stand in the pool.
  pub recon_surfaces : List ℕ
  pub num_recon_surfaces : ℕ
  pub current_recon_idx : ℕ
  pub width : ℕ
  pub height : ℕ
  pub bitrate_kbps : ℕ
  pub fps : ℕ
  pub codec : ℕ
  pub frame_count : ℕ
  pub idr_interval : ℕ
