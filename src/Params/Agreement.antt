-- ===== src/Params/Agreement.antt =====
-- The driver and the receiver are told the same: the parameter buffers against the packed headers.
use native.Mathlib.Nat.{div-add-mod', mod-lt, mod-eq_of_lt, add-mul-mod_self_right, mul-mod_left}
use native.Mathlib.Decide.{dec_lt}
use display_bridge.Prelude.{
  zero, suc, ◌&&◌, ◌||◌, ◌==◌, ℕ, ◌+◌, ◌-◌, ◌*◌, ◌/◌, ◌%◌, ◌^◌, ◌<◌, ◌≡◌, ◌≢◌, refl, ap, ap₂, ◌∙◌,
  arith, Bool, false, some, Option, subst, List, [], ◌∷◌, ◌++◌, if◌then◌else◌, u32, u64, replicate,
}
use display_bridge.Encoder.{Encoder}
use display_bridge.Bitstream.Syntax.{Elem, fixed, golomb, bit}
use display_bridge.Headers.{align_ctu, hevc_ctu_size, need_conf}
use display_bridge.Headers.Align.{align_ctu_lem}
use display_bridge.Headers.Tables.{source_table, sps_front, sps_window}
use display_bridge.Headers.Sps.{sps_table, IsPictureSize, write_sps-Carries}
use display_bridge.Params.{
  Picture, no_picture, rps_st_curr_before, references, fill_pic_param, fill_slice_param, order_of,
}
use display_bridge.Params.Sequence.{SeqParam, fill_seq_param}
use display_bridge.Headers.{write_sps, write_slice_header}
use display_bridge.Headers.Slice.{order_count, Refers, write_slice_header-Refers}
use display_bridge.Headers.Rbsp.{Carries}

-- general_profile_compatibility_flag[i], clause A.3: a stream of profile Main is one of Main 10.
abbrev pub compatibility_of : ℕ → ℕ → ℕ → List Elem
compatibility_of profile zero i = []
compatibility_of profile (suc n) i =
    bit (if i == profile || (profile == 1 && i == 2) then 1 else 0)
    ∷ compatibility_of profile n (i + 1)

-- The profile, tier and level of clause 7.3.3 for these sequence parameters, with the source flags of
-- frames that are progressive and not packed.
abbrev pub profile_of : SeqParam → List Elem
profile_of seq =
    (fixed 0 2 ∷ bit seq.general_tier_flag ∷ fixed seq.general_profile_idc 5 ∷ [])
    ++ (compatibility_of seq.general_profile_idc 32 0
        ++ (source_table ++ (fixed 0 44 ∷ fixed seq.general_level_idc 8 ∷ [])))

-- The SPS that clause 7.3.2.2 of H.265 has for these sequence parameters and this conformance
-- window, with 12 bits for the order count, two picture buffers, no reordering and no reference
-- picture sets.
abbrev pub sps_of : SeqParam → Bool → List Elem → List Elem
sps_of seq cropped window =
    sps_front
    ++ (profile_of seq
        ++ ((golomb 0
              ∷ golomb seq.chroma_format_idc
              ∷ golomb seq.pic_width_in_luma_samples
              ∷ golomb seq.pic_height_in_luma_samples
              ∷ bit (if cropped then 1 else 0)
              ∷ [])
            ++ (window
                ++ (golomb seq.bit_depth_luma_minus8
                    ∷ golomb seq.bit_depth_chroma_minus8
                    ∷ golomb 8
                    ∷ bit 0
                    ∷ golomb 1
                    ∷ golomb 0
                    ∷ golomb 0
                    ∷ golomb seq.log2_min_luma_coding_block_size_minus3
                    ∷ golomb seq.log2_diff_max_min_luma_coding_block_size
                    ∷ golomb seq.log2_min_transform_block_size_minus2
                    ∷ golomb seq.log2_diff_max_min_transform_block_size
                    ∷ golomb seq.max_transform_hierarchy_depth_inter
                    ∷ golomb seq.max_transform_hierarchy_depth_intra
                    ∷ bit seq.scaling_list_enabled_flag
                    ∷ bit seq.amp_enabled_flag
                    ∷ bit seq.sample_adaptive_offset_enabled_flag
                    ∷ bit seq.pcm_enabled_flag
                    ∷ golomb 0
                    ∷ bit 0
                    ∷ bit seq.sps_temporal_mvp_enabled_flag
                    ∷ bit seq.strong_intra_smoothing_enabled_flag
                    ∷ bit seq.vui_parameters_present_flag
                    ∷ bit 0
                    ∷ []))))

sps_table-of :
    (enc : Encoder)
    → sps_table enc
      ≡ sps_of (fill_seq_param enc) (need_conf enc) (
          if need_conf enc
          then sps_window
              ((align_ctu enc.width - enc.width) / 2)
              ((align_ctu enc.height - enc.height) / 2)
          else [])
unfolding fill_seq_param
sps_table-of enc = refl

-- For a picture size that does not overflow an `int`, the packed SPS carries the SPS that the
-- sequence parameters of the driver describe, with their profile, tier and level, picture size, bit
-- depths, block sizes and tools.
pub write_sps-fill_seq_param :
    (enc : Encoder)
    → IsPictureSize enc
    → Carries
        (sps_of (fill_seq_param enc) (need_conf enc) (
          if need_conf enc
          then sps_window
              ((align_ctu enc.width - enc.width) / 2)
              ((align_ctu enc.height - enc.height) / 2)
          else []))
        (write_sps enc)
write_sps-fill_seq_param enc h =
    subst (λ es. Carries es (write_sps enc)) (sps_table-of enc) (write_sps-Carries enc h)

-- For a picture size that does not overflow an `int`, the one slice covers the picture: its coding
-- tree units have as many samples as the coded picture of the sequence parameters.
num_ctu_in_slice_lem :
    (enc : Encoder) (ref_surface : Option ℕ) (is_idr : Bool)
    → IsPictureSize enc
    → (fill_slice_param enc ref_surface is_idr).num_ctu_in_slice * (hevc_ctu_size * hevc_ctu_size)
      ≡ (fill_seq_param enc).pic_width_in_luma_samples
        * (fill_seq_param enc).pic_height_in_luma_samples
unfolding fill_slice_param fill_seq_param
num_ctu_in_slice_lem enc ref_surface is_idr h =
    let w : align_ctu enc.width / 64 * 64 ≡ align_ctu enc.width =
      omega (arith, align_ctu_lem enc.width h.0) in
    let hh : align_ctu enc.height / 64 * 64 ≡ align_ctu enc.height =
      omega (arith, align_ctu_lem enc.height h.1) in
    omega (arith, ap₂ (λ (x y : ℕ). x * y) w hh)

positive : (enc : Encoder) → enc.frame_count % enc.idr_interval ≢ 0 → 0 < enc.frame_count
positive enc inside = elim (dec_lt 0 enc.frame_count) [
  | yes p ↦ p
  | no q ↦
      let nothing : enc.frame_count ≡ 0 * enc.idr_interval = omega arith in
      let multiple =
        ap (λ (t : ℕ). t % enc.idr_interval) nothing ∙ mul-mod_left 0 enc.idr_interval in
      absurd (omega (arith, multiple, inside))
]

previous_order :
    (count n : ℕ)
    → 0 < n
    → n < 2 ^ 31
    → 0 < count
    → count < 2 ^ 64
    → count % n ≢ 0
    → u32 (u64 (count + 2 ^ 64 - 1) % n) + 1 ≡ u32 (count % n)
previous_order count n p small c wide inside =
    let before : u64 (count + 2 ^ 64 - 1) ≡ (count % n - 1) + count / n * n =
      omega (arith, div-add-mod' count n) in
    let low = mod-lt count p in
    let order : u64 (count + 2 ^ 64 - 1) % n ≡ count % n - 1 =
      ap (λ (t : ℕ). t % n) before
      ∙ add-mul-mod_self_right (count % n - 1) (count / n) n
      ∙ mod-eq_of_lt (omega (arith, low)) in
    omega (arith, order, low, inside)

-- Between IDR pictures, for a period below `2 ^ 31`, a frame count below `2 ^ 64` and an order count
-- of at most 12 bits, the driver is told of one reference: the given surface, a short-term reference
-- whose order count is one below the current picture's; the other fourteen entries are invalid, and
-- the picture and the slice parameters have the same list. A parser of H.265 finds the same in the
-- packed slice header: the order count that the driver is told of, and one reference, in use, whose
-- `delta_poc_s0_minus1` of 0 says that it is one before it.
pub reference_frames_lem :
    (enc : Encoder) (recon : Option ℕ) (surface : ℕ)
    → 0 < enc.idr_interval
    → enc.idr_interval < 2 ^ 31
    → enc.frame_count < 2 ^ 64
    → enc.frame_count % enc.idr_interval ≢ 0
    → order_count enc < 2 ^ 12
    → (reference : Picture) × ((fill_pic_param enc recon (some surface) false).reference_frames
        ≡ reference ∷ replicate 14 no_picture)
      × ((fill_slice_param enc (some surface) false).ref_pic_list0
          ≡ (fill_pic_param enc recon (some surface) false).reference_frames)
      × (reference.picture_id ≡ some surface)
      × (reference.flags ≡ rps_st_curr_before)
      × (reference.pic_order_cnt + 1
          ≡ (fill_pic_param enc recon (some surface) false).decoded_curr_pic.pic_order_cnt)
      × Refers
          (fill_pic_param enc recon (some surface) false).decoded_curr_pic.pic_order_cnt
          0
          (write_slice_header enc false)
unfolding fill_pic_param fill_slice_param references
reference_frames_lem enc recon surface p small wide inside low = (
  record {
    picture_id = some surface;
    pic_order_cnt = order_of enc (u64 (enc.frame_count + 2 ^ 64 - 1));
    flags = rps_st_curr_before;
  },
  refl,
  refl,
  refl,
  refl,
  previous_order enc.frame_count enc.idr_interval p small (positive enc inside) wide inside,
  write_slice_header-Refers enc low,
)
