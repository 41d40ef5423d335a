-- ===== src/Headers.antt =====
-- The parameter sets and the slice header of ubuntu/src/encoder.c: `write_profile_tier_level`,
-- `write_vps`, `write_sps`, `write_pps` and `write_slice_header`. `none` is a store outside the raw
-- buffer. The `dst` buffer is the result.
pub mod Align
pub mod Tables
pub mod Rbsp
pub mod ParameterSets
pub mod Sps
pub mod Crop
pub mod Slice
use mathlib.Core.Option
use display_bridge.Prelude.{
  ℕ, zero, suc, ◌+◌, ◌-◌, ◌/◌, ◌%◌, ◌^◌, Bool, true, false, not, ◌||◌, Option, some, List, bit_and,
  u32, ◌==◌, if◌then◌else◌,
}
use display_bridge.Prelude.Int.{pos}
use display_bridge.Encoder.{Encoder}
use display_bridge.Bitstream.{
  Writer, ◌>>◌, init, write, write1, write_ue, write_se, zeros, trailing_bits,
}
use display_bridge.Bitstream.Trailing.{payload}
use display_bridge.Nal.{add_emulation_prevention}

abbrev pub hevc_ctu_size : ℕ
hevc_ctu_size = 64

-- `ALIGN(x, 64)`: `~63` is the 32-bit pattern of -64.
unfoldable pub align_ctu : ℕ → ℕ
align_ctu x = bit_and (u32 (x + hevc_ctu_size - 1)) (2 ^ 32 - hevc_ctu_size)

-- The loop over `general_profile_compatibility_flag`, with `left` rounds left at `i`.
unfoldable pub compatibility_flags : ℕ → ℕ → Writer
compatibility_flags zero i bs = some bs
compatibility_flags (suc left) i bs =
    (write1 (if i == 1 || i == 2 then 1 else 0) >> compatibility_flags left (i + 1)) bs

-- `write_profile_tier_level`
unfoldable pub write_profile_tier_level : Writer
write_profile_tier_level = do
  write 0 2
  write1 0
  write 1 5
  compatibility_flags 32 0
  write1 1
  write1 0
  write1 1
  write1 1
  zeros 44
  write 120 8

-- What each `write_*` does with its raw buffer of `capacity` bytes round the calls that it makes.
unfoldable pub rbsp : ℕ → Writer → Option (List ℕ)
rbsp capacity body =
    Option.map (λ bs. add_emulation_prevention (payload bs))
      ((body >> trailing_bits) (init capacity))

unfoldable pub vps_body : Encoder → Writer
vps_body enc = do
  write 0 4
  write1 1
  write1 1
  write 0 6
  write 0 3
  write1 1
  write 0xFFFF 16
  write_profile_tier_level
  write1 0
  write_ue 1
  write_ue 0
  write_ue 0
  write 0 6
  write_ue 0
  write1 1
  write 1 32
  write (u32 enc.fps) 32
  write1 0
  write_ue 0
  write1 0

-- `write_vps`
unfoldable pub write_vps : Encoder → Option (List ℕ)
unfolding rbsp vps_body
write_vps enc = rbsp 256 (vps_body enc)

-- `need_conf`
abbrev pub need_conf : Encoder → Bool
need_conf enc = not (align_ctu enc.width == enc.width) || not (align_ctu enc.height == enc.height)

-- The block under `if (need_conf)`.
unfoldable pub conformance_window : Encoder → Writer
conformance_window enc = do
  write_ue 0
  write_ue (u32 ((align_ctu enc.width - enc.width) / 2))
  write_ue 0
  write_ue (u32 ((align_ctu enc.height - enc.height) / 2))

-- The calls after the conformance window.
unfoldable pub sps_tail : Writer
sps_tail = do
  write_ue 0
  write_ue 0
  write_ue 8
  write1 0
  write_ue 1
  write_ue 0
  write_ue 0
  write_ue 0
  write_ue 3
  write_ue 0
  write_ue 3
  write_ue 2
  write_ue 2
  write1 0
  write1 1
  write1 0
  write1 0
  write_ue 0
  write1 0
  write1 0
  write1 1
  write1 0
  write1 0

unfoldable pub sps_body : Encoder → Writer
unfolding conformance_window sps_tail
sps_body enc = do
  write 0 4
  write 0 3
  write1 1
  write_profile_tier_level
  write_ue 0
  write_ue 1
  write_ue (u32 (align_ctu enc.width))
  write_ue (u32 (align_ctu enc.height))
  write1 (if need_conf enc then 1 else 0)
  if need_conf enc then conformance_window enc else some
  sps_tail

-- `write_sps`
unfoldable pub write_sps : Encoder → Option (List ℕ)
unfolding rbsp sps_body
write_sps enc = rbsp 512 (sps_body enc)

unfoldable pub pps_body : Writer
pps_body = do
  write_ue 0
  write_ue 0
  write1 0
  write1 0
  write 0 3
  write1 0
  write1 0
  write_ue 0
  write_ue 0
  write_se (pos 0)
  write1 0
  write1 0
  write1 1
  write_ue 0
  write_se (pos 0)
  write_se (pos 0)
  write1 0
  write1 0
  write1 0
  write1 0
  write1 0
  write1 0
  write1 1
  write1 1
  write1 0
  write1 0
  write_se (pos 0)
  write_se (pos 0)
  write1 0
  write1 0
  write_ue 0
  write1 0
  write1 0

-- `write_pps`
unfoldable pub write_pps : Encoder → Option (List ℕ)
unfolding rbsp pps_body
write_pps enc = rbsp 256 pps_body

-- The block under `if (!is_idr)` with the picture order count and the reference picture set.
unfoldable pub slice_references : Encoder → Writer
slice_references enc = do
  write (u32 (enc.frame_count % enc.idr_interval)) 12
  write1 0
  write_ue 1
  write_ue 0
  write_ue 0
  write1 1

unfoldable pub slice_body : Encoder → Bool → Writer
unfolding slice_references
slice_body enc is_idr = do
  write1 1
  if is_idr then write1 0 else some
  write_ue 0
  write_ue (if is_idr then 2 else 1)
  if is_idr then some else slice_references enc
  if is_idr then some else write1 0
  write_se (pos 0)

-- `write_slice_header`
unfoldable pub write_slice_header : Encoder → Bool → Option (List ℕ)
unfolding rbsp slice_body
write_slice_header enc is_idr = rbsp 256 (slice_body enc is_idr)
