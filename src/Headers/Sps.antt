-- ===== src/Headers/Sps.antt =====
-- The SPS of encoder.c: it holds the elements of its table, and a receiver that parses it by clause
-- 7.3.2.2 of H.265 and crops the coded picture by the conformance window gets the encoder's picture
-- size.
use display_bridge.Prelude.{
  ◌-◌, ◌/◌, ◌^◌, ◌≤◌, ◌<◌, ◌≡◌, arith, some, List, [], ◌++◌, All, u32, if◌then◌else◌, Bool-cases,
  inl, inr,
}
use display_bridge.Encoder.{Encoder}
use display_bridge.Bitstream.Syntax.{
  Elem, InRange, Writes, calls-Writes, calls_then-Writes, >>-Writes,
}
use display_bridge.Bitstream.Sizes.{length-encode, max_bits}
use display_bridge.Headers.{need_conf, conformance_window, sps_body, write_sps, align_ctu}
use display_bridge.Headers.Align.{align_ctu_lem}
use display_bridge.Headers.Tables.{profile_tier_level, sps_front, sps_size, sps_window, sps_back}
use display_bridge.Headers.Rbsp.{Carries, rbsp-Carries}
use display_bridge.Headers.ParameterSets.{write_profile_tier_level-Writes}

-- The SPS table of a picture of `width` by `height`: the coded size is rounded up to the coding
-- tree unit, and a conformance window in units of two samples is there if that added anything.
abbrev pub sps_table : Encoder → List Elem
sps_table enc =
    let aw = align_ctu enc.width in
    let ah = align_ctu enc.height in
    sps_front
    ++ (profile_tier_level
        ++ (sps_size aw ah (if need_conf enc then 1 else 0)
            ++ ((if need_conf enc
                  then sps_window ((aw - enc.width) / 2) ((ah - enc.height) / 2)
                  else [])
                ++ sps_back)))

-- The picture sizes for which no `int` of the encoder overflows.
abbrev pub IsPictureSize : Encoder → Type 0
IsPictureSize enc = (enc.width < 2 ^ 31 - 64) × (enc.height < 2 ^ 31 - 64)

-- The table with the casts of the code.
abbrev window_part : Encoder → List Elem
window_part enc =
    sps_window (u32 ((align_ctu enc.width - enc.width) / 2))
      (u32 ((align_ctu enc.height - enc.height) / 2))

conformance_window-Writes :
    (enc : Encoder)
    → Writes
        (if need_conf enc then conformance_window enc else some)
        (if need_conf enc then window_part enc else [])
unfolding conformance_window
conformance_window-Writes enc = elim (Bool-cases (need_conf enc)) [
  | inl e ↦ rw e (calls-Writes (window_part enc))
  | inr e ↦ rw e (calls-Writes [])
]

abbrev size_part : Encoder → List Elem
size_part enc =
    sps_size (u32 (align_ctu enc.width)) (u32 (align_ctu enc.height))
      (if need_conf enc then 1 else 0)

abbrev rest_part : Encoder → List Elem
rest_part enc = (if need_conf enc then window_part enc else []) ++ sps_back

sps_body-Writes-parts :
    (enc : Encoder)
    → Writes (sps_body enc) (sps_front ++ (profile_tier_level ++ (size_part enc ++ rest_part enc)))
unfolding sps_body
sps_body-Writes-parts enc =
    calls_then-Writes sps_front (profile_tier_level ++ (size_part enc ++ rest_part enc)) (
      >>-Writes profile_tier_level (size_part enc ++ rest_part enc) write_profile_tier_level-Writes
        (calls_then-Writes (size_part enc) (rest_part enc) (
          >>-Writes (if need_conf enc then window_part enc else []) sps_back
            (conformance_window-Writes enc) (calls-Writes sps_back))))

-- No cast of the code loses anything.
no_wrap :
    (enc : Encoder)
    → IsPictureSize enc
    → (u32 (align_ctu enc.width) ≡ align_ctu enc.width)
      × (u32 (align_ctu enc.height) ≡ align_ctu enc.height)
      × (u32 ((align_ctu enc.width - enc.width) / 2) ≡ (align_ctu enc.width - enc.width) / 2)
      × (u32 ((align_ctu enc.height - enc.height) / 2) ≡ (align_ctu enc.height - enc.height) / 2)
no_wrap enc h = omega (arith, align_ctu_lem enc.width h.0, align_ctu_lem enc.height h.1)

sps_body-Writes : (enc : Encoder) → IsPictureSize enc → Writes (sps_body enc) (sps_table enc)
sps_body-Writes enc h =
    let e = no_wrap enc h in rw (e.0, e.1, e.2, e.3) at (sps_body-Writes-parts enc)

sps_table_ranges : (enc : Encoder) → IsPictureSize enc → All InRange (sps_table enc)
sps_table_ranges enc h = elim (Bool-cases (need_conf enc)) [
  | inl e ↦ rw e (omega (arith, align_ctu_lem enc.width h.0, align_ctu_lem enc.height h.1))
  | inr e ↦ rw e (omega (arith, align_ctu_lem enc.width h.0, align_ctu_lem enc.height h.1))
]

pub max_bits-sps_table : (enc : Encoder) → max_bits (sps_table enc) ≤ 2000
max_bits-sps_table enc = elim (Bool-cases (need_conf enc)) [
  | inl e ↦ rw e (omega arith)
  | inr e ↦ rw e (omega arith)
]

-- For a picture size that does not overflow an `int`, the SPS holds exactly the elements of its
-- table, and is written inside its buffer.
pub write_sps-Carries :
    (enc : Encoder) → IsPictureSize enc → Carries (sps_table enc) (write_sps enc)
unfolding write_sps
write_sps-Carries enc h =
    rbsp-Carries 511 (sps_body enc) (sps_table enc) (sps_body-Writes enc h)
      (omega (arith, length-encode (sps_table enc), max_bits-sps_table enc))
      (sps_table_ranges enc h)
