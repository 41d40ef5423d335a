-- ===== src/Packed.antt =====
-- The packed headers of ubuntu/src/encoder.c: what `submit_packed_sequence_headers` and
-- `submit_packed_slice_header` assemble for `submit_packed_header`. `none` is a store outside
-- `combined` or `nalu_body`, which the code does not test for.
pub mod Contents
use mathlib.Core.Option
use display_bridge.Prelude.{
  ℕ, ◌+◌, ◌||◌, Bool, Option, none, some, List, [], ◌++◌, ltb, if◌then◌else◌, length,
}
use display_bridge.Encoder.{Encoder}
use display_bridge.Nal.{start_code_and_nalu_header}
use display_bridge.Headers.{write_vps, write_sps, write_pps, write_slice_header}

-- A NAL unit in Annex B form.
abbrev pub nal_unit : ℕ → List ℕ → List ℕ
nal_unit nal_type body = start_code_and_nalu_header nal_type 1 ++ body

-- One of the blocks that write a NAL unit at `pos`: `room` bytes are allocated for `combined` and
-- `body_room` for `nalu_body`.
unfoldable pub append_nalu : ℕ → ℕ → ℕ → Option (List ℕ) → List ℕ → Option (List ℕ)
append_nalu room body_room nal_type none combined = none
append_nalu room body_room nal_type (some body) combined =
    let longer = combined ++ nal_unit nal_type body in
    if ltb body_room (length body) || ltb room (length longer) then none else some longer

-- The bytes that `submit_packed_sequence_headers` submits.
unfoldable pub packed_sequence_headers : Encoder → Option (List ℕ)
unfolding append_nalu
packed_sequence_headers enc = Option.bind (append_nalu 2048 512 32 (write_vps enc) []) λ vps.
    Option.bind (append_nalu 2048 512 33 (write_sps enc) vps)
      λ sps. append_nalu 2048 512 34 (write_pps enc) sps

-- The bytes that `submit_packed_slice_header` submits.
unfoldable pub packed_slice_header : Encoder → Bool → Option (List ℕ)
unfolding append_nalu
packed_slice_header enc is_idr =
    append_nalu 512 256 (if is_idr then 19 else 1) (write_slice_header enc is_idr) []
