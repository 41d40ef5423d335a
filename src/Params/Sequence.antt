-- ===== src/Params/Sequence.antt =====
-- The sequence parameters that ubuntu/src/encoder.c gives to VA-API, `fill_seq_param`, with the
-- fields that the code sets.
use display_bridge.Prelude.{ℕ, ◌*◌, u32}
use display_bridge.Encoder.{Encoder}
use display_bridge.Headers.{align_ctu}

-- `VAEncSequenceParameterBufferHEVC`
pub record SeqParam : Type 0 where
  pub intra_period : ℕ
  pub intra_idr_period : ℕ
  pub bits_per_second : ℕ
  pub pic_width_in_luma_samples : ℕ
  pub pic_height_in_luma_samples : ℕ
  pub general_profile_idc : ℕ
  pub general_level_idc : ℕ
  pub general_tier_flag : ℕ
  pub ip_period : ℕ
  pub chroma_format_idc : ℕ
  pub separate_colour_plane_flag : ℕ
  pub bit_depth_luma_minus8 : ℕ
  pub bit_depth_chroma_minus8 : ℕ
  pub scaling_list_enabled_flag : ℕ
  pub strong_intra_smoothing_enabled_flag : ℕ
  pub amp_enabled_flag : ℕ
  pub sample_adaptive_offset_enabled_flag : ℕ
  pub pcm_enabled_flag : ℕ
  pub pcm_loop_filter_disabled_flag : ℕ
  pub sps_temporal_mvp_enabled_flag : ℕ
  pub low_delay_seq : ℕ
  pub hierachical_flag : ℕ
  pub log2_min_luma_coding_block_size_minus3 : ℕ
  pub log2_diff_max_min_luma_coding_block_size : ℕ
  pub log2_min_transform_block_size_minus2 : ℕ
  pub log2_diff_max_min_transform_block_size : ℕ
  pub max_transform_hierarchy_depth_inter : ℕ
  pub max_transform_hierarchy_depth_intra : ℕ
  pub vui_parameters_present_flag : ℕ

-- `fill_seq_param`
unfoldable pub fill_seq_param : Encoder → SeqParam
fill_seq_param enc = record {
  intra_period = u32 enc.idr_interval;
  intra_idr_period = u32 enc.idr_interval;
  bits_per_second = u32 (enc.bitrate_kbps * 1000);
  pic_width_in_luma_samples = align_ctu enc.width;
  pic_height_in_luma_samples = align_ctu enc.height;
  general_profile_idc = 1;
  general_level_idc = 120;
  general_tier_flag = 0;
  ip_period = 1;
  chroma_format_idc = 1;
  separate_colour_plane_flag = 0;
  bit_depth_luma_minus8 = 0;
  bit_depth_chroma_minus8 = 0;
  scaling_list_enabled_flag = 0;
  strong_intra_smoothing_enabled_flag = 1;
  amp_enabled_flag = 1;
  sample_adaptive_offset_enabled_flag = 0;
  pcm_enabled_flag = 0;
  pcm_loop_filter_disabled_flag = 1;
  sps_temporal_mvp_enabled_flag = 0;
  low_delay_seq = 1;
  hierachical_flag = 0;
  log2_min_luma_coding_block_size_minus3 = 0;
  log2_diff_max_min_luma_coding_block_size = 3;
  log2_min_transform_block_size_minus2 = 0;
  log2_diff_max_min_transform_block_size = 3;
  max_transform_hierarchy_depth_inter = 2;
  max_transform_hierarchy_depth_intra = 2;
  vui_parameters_present_flag = 0;
}
