-- ===== src/Headers/ParameterSets.antt =====
-- VPS, SPS and PPS: a receiver that parses what the encoder puts out by the tables of H.265 finds
-- the intended values, and the cropped picture size of the SPS is the encoder's.
use native.Mathlib.Nat.{mod-eq_of_lt}
use display_bridge.Prelude.{
  ℕ, zero, suc, ◌+◌, ◌^◌, ◌<◌, subst, arith, ◌||◌, [], ◌∷◌, ◌++◌, u32, ◌==◌, if◌then◌else◌,
}
use display_bridge.Encoder.{Encoder}
use display_bridge.Bitstream.{zeros}
use display_bridge.Bitstream.Emit.{zeros-Emits}
use display_bridge.Bitstream.Syntax.{
  fixed, bit, encode, Writes, calls-Writes, calls_then-Writes, >>-Writes,
}
use display_bridge.Headers.{
  compatibility_flags, write_profile_tier_level, vps_body, write_vps, pps_body, write_pps, rbsp,
}
use display_bridge.Headers.Tables.{
  compatibility_table, profile_table, source_table, level_table, profile_tier_level, vps_front,
  vps_back, vps_table, pps_table,
}
use display_bridge.Bitstream.Sizes.{length-encode}
use display_bridge.Headers.Rbsp.{Carries, rbsp-Carries}

compatibility_flags-Writes : (n i : ℕ) → Writes (compatibility_flags n i) (compatibility_table n i)
unfolding compatibility_flags
compatibility_flags-Writes zero i = calls-Writes []
compatibility_flags-Writes (suc n) i =
    calls_then-Writes (bit (if i == 1 || i == 2 then 1 else 0) ∷ []) (compatibility_table n (i + 1))
      (compatibility_flags-Writes n (i + 1))

zeros-Writes : Writes (zeros 44) (fixed 0 44 ∷ [])
unfolding encode
zeros-Writes = zeros-Emits 44

pub write_profile_tier_level-Writes : Writes write_profile_tier_level profile_tier_level
unfolding write_profile_tier_level
write_profile_tier_level-Writes =
    calls_then-Writes profile_table (compatibility_table 32 0 ++ (source_table ++ level_table)) (
      >>-Writes (compatibility_table 32 0) (source_table ++ level_table)
        (compatibility_flags-Writes 32 0)
        (calls_then-Writes source_table level_table (
          >>-Writes (fixed 0 44 ∷ []) (fixed 120 8 ∷ []) zeros-Writes
            (calls-Writes (fixed 120 8 ∷ [])))))

vps_body-Writes : (enc : Encoder) → Writes (vps_body enc) (vps_table (u32 enc.fps))
unfolding vps_body
vps_body-Writes enc = calls_then-Writes vps_front (profile_tier_level ++ vps_back (u32 enc.fps)) (
    >>-Writes profile_tier_level (vps_back (u32 enc.fps)) write_profile_tier_level-Writes
      (calls-Writes (vps_back (u32 enc.fps))))

-- For a frame rate below `2 ^ 32` the VPS holds exactly the elements of its table, with the frame
-- rate as the time scale, and is written inside its buffer.
pub write_vps-Carries :
    (enc : Encoder) → enc.fps < 2 ^ 32 → Carries (vps_table enc.fps) (write_vps enc)
unfolding write_vps
write_vps-Carries enc h =
    subst (λ fps. Carries (vps_table fps) (rbsp 256 (vps_body enc))) (mod-eq_of_lt h)
      (rbsp-Carries 255 (vps_body enc) (vps_table (u32 enc.fps)) (vps_body-Writes enc)
        (omega (arith, length-encode (vps_table (u32 enc.fps)))) (omega arith))

pps_body-Writes : Writes pps_body pps_table
unfolding pps_body
pps_body-Writes = calls-Writes pps_table

-- The PPS holds exactly the elements of its table, and is written inside its buffer.
pub write_pps-Carries : (enc : Encoder) → Carries pps_table (write_pps enc)
unfolding write_pps
write_pps-Carries enc =
    rbsp-Carries 255 pps_body pps_table pps_body-Writes (omega (arith, length-encode pps_table))
      (omega arith)
