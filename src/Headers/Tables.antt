-- ===== src/Headers/Tables.antt =====
-- The syntax tables of H.265 for the headers that encoder.c writes, clauses 7.3.2.1 (VPS), 7.3.2.2
-- (SPS), 7.3.2.3 (PPS), 7.3.3 (profile, tier and level) and 7.3.6.1 (slice segment), restricted to
-- the flags that the encoder sets, with the value that each element is meant to have.
use display_bridge.Prelude.{ℕ, zero, suc, ◌+◌, List, [], ◌∷◌, ◌++◌, ◌||◌, ◌==◌, if◌then◌else◌}
use display_bridge.Prelude.Int.{pos}
use display_bridge.Bitstream.Syntax.{Elem, fixed, bit, golomb, signed}

-- general_profile_compatibility_flag[i]: Main is 1 and Main 10 is 2.
abbrev pub compatibility_table : ℕ → ℕ → List Elem
compatibility_table zero i = []
compatibility_table (suc n) i =
    bit (if i == 1 || i == 2 then 1 else 0) ∷ compatibility_table n (i + 1)

abbrev pub profile_table : List Elem
profile_table =
    -- profile space, tier, profile Main
    fixed 0 2 ∷ bit 0 ∷ fixed 1 5 ∷ []

-- progressive, interlaced, non-packed and frame-only source flags
abbrev pub source_table : List Elem
source_table = bit 1 ∷ bit 0 ∷ bit 1 ∷ bit 1 ∷ []

-- 44 reserved bits and the level
abbrev pub level_table : List Elem
level_table = fixed 0 44 ∷ fixed 120 8 ∷ []

abbrev pub profile_tier_level : List Elem
profile_tier_level = profile_table ++ (compatibility_table 32 0 ++ (source_table ++ level_table))

abbrev pub vps_front : List Elem
vps_front = fixed 0 4 ∷ bit 1 ∷ bit 1 ∷ fixed 0 6 ∷ fixed 0 3 ∷ bit 1 ∷ fixed 0xFFFF 16 ∷ []

abbrev pub vps_back : ℕ → List Elem
vps_back fps =
    bit 0
    ∷ golomb 1
    ∷ golomb 0
    ∷ golomb 0
    ∷ fixed 0 6
    ∷ golomb 0
    ∷ bit 1
    ∷ fixed 1 32
    ∷ fixed fps 32
    ∷ bit 0
    ∷ golomb 0
    ∷ bit 0
    ∷ []

abbrev pub vps_table : ℕ → List Elem
vps_table fps = vps_front ++ (profile_tier_level ++ vps_back fps)

abbrev pub sps_front : List Elem
sps_front = fixed 0 4 ∷ fixed 0 3 ∷ bit 1 ∷ []

-- chroma format, picture size and conformance_window_flag
abbrev pub sps_size : ℕ → ℕ → ℕ → List Elem
sps_size w h conf = golomb 0 ∷ golomb 1 ∷ golomb w ∷ golomb h ∷ bit conf ∷ []

-- left, right, top and bottom offset of the conformance window
abbrev pub sps_window : ℕ → ℕ → List Elem
sps_window right bottom = golomb 0 ∷ golomb right ∷ golomb 0 ∷ golomb bottom ∷ []

abbrev pub sps_back : List Elem
sps_back =
    golomb 0
    ∷ golomb 0
    ∷ golomb 8
    ∷ bit 0
    ∷ golomb 1
    ∷ golomb 0
    ∷ golomb 0
    ∷ golomb 0
    ∷ golomb 3
    ∷ golomb 0
    ∷ golomb 3
    ∷ golomb 2
    ∷ golomb 2
    ∷ bit 0
    ∷ bit 1
    ∷ bit 0
    ∷ bit 0
    ∷ golomb 0
    ∷ bit 0
    ∷ bit 0
    ∷ bit 1
    ∷ bit 0
    ∷ bit 0
    ∷ []

abbrev pub pps_table : List Elem
pps_table =
    golomb 0
    ∷ golomb 0
    ∷ bit 0
    ∷ bit 0
    ∷ fixed 0 3
    ∷ bit 0
    ∷ bit 0
    ∷ golomb 0
    ∷ golomb 0
    ∷ signed (pos 0)
    ∷ bit 0
    ∷ bit 0
    ∷ bit 1
    ∷ golomb 0
    ∷ signed (pos 0)
    ∷ signed (pos 0)
    ∷ bit 0
    ∷ bit 0
    ∷ bit 0
    ∷ bit 0
    ∷ bit 0
    ∷ bit 0
    ∷ bit 1
    ∷ bit 1
    ∷ bit 0
    ∷ bit 0
    ∷ signed (pos 0)
    ∷ signed (pos 0)
    ∷ bit 0
    ∷ bit 0
    ∷ golomb 0
    ∷ bit 0
    ∷ bit 0
    ∷ []
