-- ===== src/Nal.antt =====
-- The Annex B framing of ubuntu/src/encoder.c: `write_start_code_and_nalu_header` and
-- `add_emulation_prevention`. The bytes that a function stores through its `dst` are its result.
pub mod Escape
use display_bridge.Prelude.{
  ℕ, ◌+◌, Bool, ◌&&◌, List, [], ◌∷◌, ◌++◌, bit_and, ◌<<<◌, u8, leb, ◌==◌, if◌then◌else◌,
}

-- `write_start_code_and_nalu_header`
unfoldable pub start_code_and_nalu_header : ℕ → ℕ → List ℕ
start_code_and_nalu_header nal_unit_type temporal_id_plus1 =
    0x00
    ∷ 0x00
    ∷ 0x00
    ∷ 0x01
    ∷ u8 (bit_and nal_unit_type 0x3f <<< 1)
    ∷ u8 (bit_and temporal_id_plus1 0x07)
    ∷ []

-- The length of the run of zero bytes after the byte `x`.
abbrev pub next_zeros : ℕ → ℕ → ℕ
next_zeros run x = if x == 0x00 then run + 1 else 0

-- The loop of `add_emulation_prevention`, from the bytes that are left.
unfoldable pub escape_loop : ℕ → List ℕ → List ℕ
escape_loop run [] = []
escape_loop run (x ∷ src) =
    let stuff = leb 2 run && leb x 0x03 in
    (if stuff then 0x03 ∷ [] else [])
    ++ (x ∷ escape_loop (next_zeros (if stuff then 0 else run) x) src)

-- `add_emulation_prevention`
unfoldable pub add_emulation_prevention : List ℕ → List ℕ
unfolding escape_loop
add_emulation_prevention src = escape_loop 0 src
