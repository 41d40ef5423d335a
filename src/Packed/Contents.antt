-- ===== src/Packed/Contents.antt =====
-- The packed headers are complete and fit their buffers.
use mathlib.Core.Option
use display_bridge.Prelude.{
  ℕ, ◌+◌, ◌*◌, ◌∷◌, ◌^◌, ◌≤◌, ◌<◌, ◌≡◌, refl, ap, ◌∙◌, arith, Bool, some, List, [], ◌++◌, length,
  length-append, le→ltb, if◌then◌else◌,
}
use display_bridge.Encoder.{Encoder}
use display_bridge.Bitstream.Sizes.{length-encode}
use display_bridge.Nal.{start_code_and_nalu_header}
use display_bridge.Headers.{write_vps, write_sps, write_pps, write_slice_header}
use display_bridge.Headers.Tables.{vps_table, pps_table}
use display_bridge.Headers.Rbsp.{Carries}
use display_bridge.Headers.ParameterSets.{write_vps-Carries, write_pps-Carries}
use display_bridge.Headers.Sps.{sps_table, IsPictureSize, write_sps-Carries, max_bits-sps_table}
use display_bridge.Headers.Slice.{
  slice_table, order_count, write_slice_header-Carries, max_bits-slice_table,
}
use display_bridge.Packed.{nal_unit, append_nalu, packed_sequence_headers, packed_slice_header}

length-nal_unit : (t : ℕ) (body : List ℕ) → length (nal_unit t body) ≡ 6 + length body
unfolding start_code_and_nalu_header
length-nal_unit t body = omega arith

append_nalu_lem :
    (room body_room t : ℕ) (body combined : List ℕ)
    → length body ≤ body_room
    → length combined + (6 + length body) ≤ room
    → append_nalu room body_room t (some body) combined ≡ some (combined ++ nal_unit t body)
unfolding append_nalu
append_nalu_lem room body_room t body combined h k =
    rw
      (
        le→ltb body_room (length body) h,
        le→ltb room (length (combined ++ nal_unit t body))
            (omega (arith, length-append combined (nal_unit t body), length-nal_unit t body)),
      )
      refl

-- A NAL unit by annex B and clause 7.3.1.2 of H.265: the start code, a header of a zero bit, 6 bits of
-- type, 6 of layer 0 and 3 of temporal id 0 plus 1, and the body.
abbrev pub annex_b : ℕ → List ℕ → List ℕ
annex_b t body = 0 ∷ 0 ∷ 0 ∷ 1 ∷ 2 * t ∷ 1 ∷ body

-- The bytes of a sequence header: three NAL units.
abbrev pub three_units : List ℕ → List ℕ → List ℕ → List ℕ
three_units vps sps pps = (annex_b 32 vps ++ annex_b 33 sps) ++ annex_b 34 pps

-- For a frame rate below `2 ^ 32` and a picture size that does not overflow an `int`, the packed
-- sequence header is the VPS, the SPS and the PPS as NAL units of types 32, 33 and 34, each with the
-- start code and the header of H.265 and holding exactly the elements of its table, and nothing is stored outside the buffers of 512 and 2048
-- bytes.
pub packed_sequence_headers_lem :
    (enc : Encoder)
    → enc.fps < 2 ^ 32
    → IsPictureSize enc
    → (vps : Carries (vps_table enc.fps) (write_vps enc)) × (sps : Carries
        (sps_table enc)
        (write_sps enc))
      × (pps : Carries pps_table (write_pps enc)) × (packed_sequence_headers enc
          ≡ some (three_units vps.bytes sps.bytes pps.bytes))
      × (length (three_units vps.bytes sps.bytes pps.bytes) ≤ 2048)
unfolding packed_sequence_headers start_code_and_nalu_header Option.bind
packed_sequence_headers_lem enc h size =
    let vps = write_vps-Carries enc h in
    let sps = write_sps-Carries enc size in
    let pps = write_pps-Carries enc in
    let vps_bits = length-encode (vps_table enc.fps) in
    let sps_bits = length-encode (sps_table enc) in
    let pps_bits = length-encode pps_table in
    let sps_max = max_bits-sps_table enc in
    let vps_len : length vps.bytes ≤ 120 = omega (arith, vps.not_longer, vps_bits) in
    let sps_len : length sps.bytes ≤ 376 = omega (arith, sps.not_longer, sps_bits, sps_max) in
    let pps_len : length pps.bytes ≤ 200 = omega (arith, pps.not_longer, pps_bits) in
    let one = length-nal_unit 32 vps.bytes in
    let two = length-nal_unit 33 sps.bytes in
    let three = length-nal_unit 34 pps.bytes in
    let both = length-append (nal_unit 32 vps.bytes) (nal_unit 33 sps.bytes) in
    let all =
      length-append (nal_unit 32 vps.bytes ++ nal_unit 33 sps.bytes) (nal_unit 34 pps.bytes) in
    (
      vps,
      sps,
      pps,
      rw
          (
            vps.returns,
            append_nalu_lem 2048 512 32 vps.bytes [] (omega (arith, vps_len))
                (omega (arith, vps_len)),
            sps.returns,
            append_nalu_lem 2048 512 33 sps.bytes (nal_unit 32 vps.bytes) (omega (arith, sps_len))
                (omega (arith, vps_len, sps_len, one)),
            pps.returns,
            append_nalu_lem 2048 512 34 pps.bytes (nal_unit 32 vps.bytes ++ nal_unit 33 sps.bytes)
                (omega (arith, pps_len)) (omega (arith, vps_len, sps_len, pps_len, one, two, both)),
          )
          refl,
      omega (arith, vps_len, sps_len, pps_len, one, two, three, both, all),
    )

-- The packed slice header is one NAL unit, of type 19 for an IDR picture and of type 1 otherwise,
-- that holds exactly the elements of its table, and nothing is stored outside the buffers of 256
-- and 512 bytes, for an order count of at most 12 bits.
pub packed_slice_header_lem :
    (enc : Encoder) (is_idr : Bool)
    → order_count enc < 2 ^ 12
    → (slice : Carries (slice_table (order_count enc) is_idr) (write_slice_header enc is_idr))
      × (packed_slice_header enc is_idr ≡ some (nal_unit (if is_idr then 19 else 1) slice.bytes))
      × (length (nal_unit (if is_idr then 19 else 1) slice.bytes) ≤ 512)
unfolding packed_slice_header
packed_slice_header_lem enc is_idr h =
    let slice = write_slice_header-Carries enc is_idr h in
    let slice_bits = length-encode (slice_table (order_count enc) is_idr) in
    let slice_max = max_bits-slice_table (order_count enc) is_idr in
    let len : length slice.bytes ≤ 189 = omega (arith, slice.not_longer, slice_bits, slice_max) in
    (
      slice,
      ap (λ b. append_nalu 512 256 (if is_idr then 19 else 1) b []) slice.returns
          ∙ append_nalu_lem 512 256 (if is_idr then 19 else 1) slice.bytes [] (omega (arith, len))
              (omega (arith, len)),
      omega (arith, len, length-nal_unit (if is_idr then 19 else 1) slice.bytes),
    )
