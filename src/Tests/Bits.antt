-- ===== src/Tests/Bits.antt =====
-- The bit writer on a cleared buffer of four bytes.
use display_bridge.Prelude.{ℕ, ◌≡◌, arith, some, List, [], ◌∷◌, ◌++◌, length, map}
use display_bridge.Prelude.Int.{negsuc}
use display_bridge.Bitstream.{init, bit_count, se_mapped}
use display_bridge.Bitstream.View.{Yields}
use display_bridge.Bitstream.Golomb.{ue_bits}
use display_bridge.Bitstream.Syntax.{Elem, fixed, bit, golomb, signed, kind, calls, encode, decode}
use display_bridge.Bitstream.Trailing.{init-Written}
use display_bridge.Bitstream.RoundTrip.{decode-calls}

abbrev four_elements : List Elem
four_elements = fixed 5 3 ∷ bit 1 ∷ golomb 4 ∷ signed (negsuc 1) ∷ []

decode-calls_example :
    Yields (calls four_elements (init 4)) (length (init 4).buf) ([] ++ encode four_elements)
    × ((rest : List ℕ)
        → decode (map kind four_elements) (encode four_elements ++ rest)
          ≡ some (four_elements, rest))
unfolding init encode ue_bits bit_count se_mapped
decode-calls_example =
    decode-calls four_elements (init 4) [] (omega arith) (init-Written 3) (omega arith)
