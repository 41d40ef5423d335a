-- ===== src/Params/PictureSet.antt =====
-- The driver and the receiver are told the same of the pictures: the picture parameters that
-- ubuntu/src/encoder.c gives to VA-API against its packed PPS.
use display_bridge.Prelude.{
  ℕ, ◌≡◌, refl, Bool, Option, subst, List, [], ◌∷◌, ◌++◌, ◌==◌, if◌then◌else◌,
}
use display_bridge.Prelude.Int.{pos, ◌-ℤ◌}
use display_bridge.Encoder.{Encoder}
use display_bridge.Bitstream.Syntax.{Elem, fixed, golomb, bit, signed}
use display_bridge.Headers.{write_pps}
use display_bridge.Headers.Tables.{pps_table}
use display_bridge.Headers.Rbsp.{Carries}
use display_bridge.Headers.ParameterSets.{write_pps-Carries}
use display_bridge.Params.{PicParam, fill_pic_param}

-- The PPS that clause 7.3.2.3 of H.265 has for these picture parameters without tiles, for sequence
-- parameter set 0, with a deblocking filter that is on and not moved, and with none of what VA-API
-- has no parameter for.
abbrev pub pps_of : PicParam → List Elem
pps_of pic =
    (golomb pic.slice_pic_parameter_set_id
      ∷ golomb 0
      ∷ bit pic.dependent_slice_segments_enabled_flag
      ∷ bit 0
      ∷ fixed 0 3
      ∷ bit pic.sign_data_hiding_enabled_flag
      ∷ bit 0
      ∷ golomb pic.num_ref_idx_l0_default_active_minus1
      ∷ golomb pic.num_ref_idx_l1_default_active_minus1
      ∷ signed (pos pic.pic_init_qp -ℤ pos 26)
      ∷ bit pic.constrained_intra_pred_flag
      ∷ bit pic.transform_skip_enabled_flag
      ∷ bit pic.cu_qp_delta_enabled_flag
      ∷ [])
    ++ ((if pic.cu_qp_delta_enabled_flag == 1 then golomb pic.diff_cu_qp_delta_depth ∷ [] else [])
        ++ (signed (pos pic.pps_cb_qp_offset)
            ∷ signed (pos pic.pps_cr_qp_offset)
            ∷ bit 0
            ∷ bit pic.weighted_pred_flag
            ∷ bit pic.weighted_bipred_flag
            ∷ bit pic.transquant_bypass_enabled_flag
            ∷ bit pic.tiles_enabled_flag
            ∷ bit pic.entropy_coding_sync_enabled_flag
            ∷ bit pic.pps_loop_filter_across_slices_enabled_flag
            ∷ bit 1
            ∷ bit 0
            ∷ bit 0
            ∷ signed (pos 0)
            ∷ signed (pos 0)
            ∷ bit pic.scaling_list_data_present_flag
            ∷ bit 0
            ∷ golomb pic.log2_parallel_merge_level_minus2
            ∷ bit 0
            ∷ bit 0
            ∷ []))

pps_table-of :
    (enc : Encoder) (recon_surface ref_surface : Option ℕ) (is_idr : Bool)
    → pps_table ≡ pps_of (fill_pic_param enc recon_surface ref_surface is_idr)
unfolding fill_pic_param
pps_table-of enc recon_surface ref_surface is_idr = refl

-- The packed PPS, which is written inside its buffer, carries the PPS that the picture parameters of
-- the driver describe, whichever picture these are for: the same PPS serves every picture.
pub write_pps-fill_pic_param :
    (enc : Encoder) (recon_surface ref_surface : Option ℕ) (is_idr : Bool)
    → Carries (pps_of (fill_pic_param enc recon_surface ref_surface is_idr)) (write_pps enc)
write_pps-fill_pic_param enc recon_surface ref_surface is_idr =
    subst (λ es. Carries es (write_pps enc)) (pps_table-of enc recon_surface ref_surface is_idr)
      (write_pps-Carries enc)
