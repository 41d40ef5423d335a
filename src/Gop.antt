-- ===== src/Gop.antt =====
-- The picture structure of ubuntu/src/encoder.c: which frames are IDR pictures, which surface a
-- frame is reconstructed into and which one it refers to, and `db_encoder_force_idr`.
pub mod References
use display_bridge.Prelude.{
  ℕ, ◌+◌, ◌-◌, ◌%◌, Bool, true, false, Option, none, some, List, [], ◌∷◌, ◌==◌, if◌then◌else◌,
  get_elem?, u64,
}
use display_bridge.Encoder.{Encoder}

-- `is_idr` of `encode_surface`
abbrev pub is_idr : Encoder → Bool
is_idr enc = (enc.frame_count % enc.idr_interval) == 0

-- `prev_recon`
abbrev pub prev_recon : Encoder → ℕ
prev_recon enc = (enc.current_recon_idx + enc.num_recon_surfaces - 1) % enc.num_recon_surfaces

-- `recon_surface` and `ref_surface`; `none` is `VA_INVALID_ID`.
unfoldable pub recon_surface : Encoder → Option ℕ
recon_surface enc = get_elem? enc.recon_surfaces enc.current_recon_idx

unfoldable pub ref_surface : Encoder → Option ℕ
ref_surface enc = if is_idr enc then none else get_elem? enc.recon_surfaces (prev_recon enc)

-- The state that `encode_surface` leaves when it returns 0; it leaves it alone when it fails.
unfoldable pub advance : Encoder → Bool → Encoder
advance enc true = record enc {
  current_recon_idx = (enc.current_recon_idx + 1) % enc.num_recon_surfaces;
  frame_count = u64 (enc.frame_count + 1);
}
advance enc false = enc

-- `db_encoder_force_idr`
unfoldable pub force_idr : Encoder → Encoder
force_idr enc =
    let remainder = enc.frame_count % enc.idr_interval in
    if remainder == 0
    then enc
    else record enc { frame_count = u64 (enc.frame_count + (enc.idr_interval - remainder)) }
