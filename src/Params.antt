-- ===== src/Params.antt =====
-- The parameter buffers that ubuntu/src/encoder.c gives to VA-API: `fill_pic_param` and
-- `fill_slice_param`, and `fill_seq_param` in Params/Sequence, with the fields that the code sets.
-- The flags of VA-API for a picture are names, and `none` is `VA_INVALID_ID`.
pub mod Sequence
pub mod Agreement
pub mod PictureSet
use display_bridge.Prelude.{
  ℕ, ◌+◌, ◌-◌, ◌*◌, ◌/◌, ◌%◌, ◌^◌, Bool, true, false, not, ◌&&◌, Option, none, some, List, [], ◌∷◌,
  if◌then◌else◌, replicate, u32, u64,
}
use display_bridge.Encoder.{Encoder}
use display_bridge.Headers.{align_ctu, hevc_ctu_size}

pub data PictureFlags : Type 0 where
  no_flags picture_invalid rps_st_curr_before : PictureFlags

-- `VAPictureHEVC`
pub record Picture : Type 0 where
  pub picture_id : Option ℕ
  pub pic_order_cnt : ℕ
  pub flags : PictureFlags

abbrev pub no_picture : Picture
no_picture = record { picture_id = none; pic_order_cnt = 0; flags = picture_invalid }

-- The order count of the frame with this number, as the pattern of an `int32_t`.
abbrev pub order_of : Encoder → ℕ → ℕ
order_of enc count = u32 (count % enc.idr_interval)

-- `reference_frames` and `ref_pic_list0`: fifteen invalid entries, and then the first one.
unfoldable pub references : Encoder → Option ℕ → Bool → List Picture
references enc none is_idr = replicate 15 no_picture
references enc (some surface) is_idr =
    if not is_idr
    then record {
      picture_id = some surface;
      pic_order_cnt = order_of enc (u64 (enc.frame_count + 2 ^ 64 - 1));
      flags = rps_st_curr_before;
    }
      ∷ replicate 14 no_picture
    else replicate 15 no_picture

-- `VAEncPictureParameterBufferHEVC`
pub record PicParam : Type 0 where
  pub decoded_curr_pic : Picture
  pub reference_frames : List Picture
  pub nal_unit_type : ℕ
  pub idr_pic_flag : ℕ
  pub coding_type : ℕ
  pub collocated_ref_pic_index : ℕ
  pub last_picture : ℕ
  pub pic_init_qp : ℕ
  pub diff_cu_qp_delta_depth : ℕ
  pub pps_cb_qp_offset : ℕ
  pub pps_cr_qp_offset : ℕ
  pub num_tile_columns_minus1 : ℕ
  pub num_tile_rows_minus1 : ℕ
  pub log2_parallel_merge_level_minus2 : ℕ
  pub ctu_max_bitsize_allowed : ℕ
  pub num_ref_idx_l0_default_active_minus1 : ℕ
  pub num_ref_idx_l1_default_active_minus1 : ℕ
  pub slice_pic_parameter_set_id : ℕ
  pub reference_pic_flag : ℕ
  pub dependent_slice_segments_enabled_flag : ℕ
  pub sign_data_hiding_enabled_flag : ℕ
  pub constrained_intra_pred_flag : ℕ
  pub transform_skip_enabled_flag : ℕ
  pub cu_qp_delta_enabled_flag : ℕ
  pub weighted_pred_flag : ℕ
  pub weighted_bipred_flag : ℕ
  pub transquant_bypass_enabled_flag : ℕ
  pub tiles_enabled_flag : ℕ
  pub entropy_coding_sync_enabled_flag : ℕ
  pub loop_filter_across_tiles_enabled_flag : ℕ
  pub pps_loop_filter_across_slices_enabled_flag : ℕ
  pub scaling_list_data_present_flag : ℕ
  pub screen_content_flag : ℕ
  pub enable_gpu_weighted_prediction : ℕ
  pub no_output_of_prior_pics_flag : ℕ

-- `fill_pic_param`
unfoldable pub fill_pic_param : Encoder → Option ℕ → Option ℕ → Bool → PicParam
unfolding references
fill_pic_param enc recon_surface ref_surface is_idr = record {
  decoded_curr_pic = record {
    picture_id = recon_surface;
    pic_order_cnt = order_of enc enc.frame_count;
    flags = no_flags;
  };
  reference_frames = references enc ref_surface is_idr;
  nal_unit_type = if is_idr then 19 else 1;
  idr_pic_flag = if is_idr then 1 else 0;
  coding_type = if is_idr then 1 else 2;
  collocated_ref_pic_index = 0xFF;
  last_picture = 0;
  pic_init_qp = 26;
  diff_cu_qp_delta_depth = 0;
  pps_cb_qp_offset = 0;
  pps_cr_qp_offset = 0;
  num_tile_columns_minus1 = 0;
  num_tile_rows_minus1 = 0;
  log2_parallel_merge_level_minus2 = 0;
  ctu_max_bitsize_allowed = 0;
  num_ref_idx_l0_default_active_minus1 = 0;
  num_ref_idx_l1_default_active_minus1 = 0;
  slice_pic_parameter_set_id = 0;
  reference_pic_flag = 1;
  dependent_slice_segments_enabled_flag = 0;
  sign_data_hiding_enabled_flag = 0;
  constrained_intra_pred_flag = 0;
  transform_skip_enabled_flag = 0;
  cu_qp_delta_enabled_flag = 1;
  weighted_pred_flag = 0;
  weighted_bipred_flag = 0;
  transquant_bypass_enabled_flag = 0;
  tiles_enabled_flag = 0;
  entropy_coding_sync_enabled_flag = 0;
  loop_filter_across_tiles_enabled_flag = 1;
  pps_loop_filter_across_slices_enabled_flag = 1;
  scaling_list_data_present_flag = 0;
  screen_content_flag = 0;
  enable_gpu_weighted_prediction = 0;
  no_output_of_prior_pics_flag = 0;
}

-- `VAEncSliceParameterBufferHEVC`
pub record SliceParam : Type 0 where
  pub num_ctu_in_slice : ℕ
  pub slice_type : ℕ
  pub ref_pic_list0 : List Picture
  pub ref_pic_list1 : List Picture
  pub slice_segment_address : ℕ
  pub slice_pic_parameter_set_id : ℕ
  pub num_ref_idx_l0_active_minus1 : ℕ
  pub num_ref_idx_l1_active_minus1 : ℕ
  pub max_num_merge_cand : ℕ
  pub slice_qp_delta : ℕ
  pub slice_cb_qp_offset : ℕ
  pub slice_cr_qp_offset : ℕ
  pub slice_beta_offset_div2 : ℕ
  pub slice_tc_offset_div2 : ℕ
  pub last_slice_of_pic_flag : ℕ
  pub dependent_slice_segment_flag : ℕ
  pub slice_temporal_mvp_enabled_flag : ℕ
  pub slice_sao_luma_flag : ℕ
  pub slice_sao_chroma_flag : ℕ
  pub num_ref_idx_active_override_flag : ℕ
  pub mvd_l1_zero_flag : ℕ
  pub cabac_init_flag : ℕ
  pub slice_deblocking_filter_disabled_flag : ℕ
  pub slice_loop_filter_across_slices_enabled_flag : ℕ
  pub collocated_from_l0_flag : ℕ

-- `fill_slice_param`
unfoldable pub fill_slice_param : Encoder → Option ℕ → Bool → SliceParam
unfolding references
fill_slice_param enc ref_surface is_idr = record {
  num_ctu_in_slice = align_ctu enc.width / hevc_ctu_size * (align_ctu enc.height / hevc_ctu_size);
  slice_type = if is_idr then 2 else 1;
  ref_pic_list0 = references enc ref_surface is_idr;
  ref_pic_list1 = replicate 15 no_picture;
  slice_segment_address = 0;
  slice_pic_parameter_set_id = 0;
  num_ref_idx_l0_active_minus1 = 0;
  num_ref_idx_l1_active_minus1 = 0;
  max_num_merge_cand = 5;
  slice_qp_delta = 0;
  slice_cb_qp_offset = 0;
  slice_cr_qp_offset = 0;
  slice_beta_offset_div2 = 0;
  slice_tc_offset_div2 = 0;
  last_slice_of_pic_flag = 1;
  dependent_slice_segment_flag = 0;
  slice_temporal_mvp_enabled_flag = 0;
  slice_sao_luma_flag = 0;
  slice_sao_chroma_flag = 0;
  num_ref_idx_active_override_flag = 0;
  mvd_l1_zero_flag = 0;
  cabac_init_flag = 0;
  slice_deblocking_filter_disabled_flag = 0;
  slice_loop_filter_across_slices_enabled_flag = 1;
  collocated_from_l0_flag = 1;
}
