-- ===== src/Bitstream/Sizes.antt =====
-- How many bits a sequence of syntax elements takes at most: an exp-Golomb code of a `uint32_t` has
-- at most 63.
use display_bridge.Prelude.{
  ℕ, zero, suc, ◌+◌, ◌-◌, ◌≤◌, arith, List, [], ◌∷◌, length, length-append, u32, length-replicate,
  replicate, ◌/◌,
}
use display_bridge.Bitstream.{bit_count, se_mapped}
use display_bridge.Bitstream.View.{length-bits_of, bits_of}
use display_bridge.Bitstream.Golomb.{ue_bits}
use display_bridge.Bitstream.Syntax.{Elem, fixed, bit, golomb, signed, encode}

bit_count-le : (fuel tmp bits : ℕ) → bit_count fuel tmp bits ≤ bits + fuel
unfolding bit_count
bit_count-le zero tmp bits = omega arith
bit_count-le (suc fuel) tmp bits = ground (arith, bit_count-le fuel (tmp / 2) (bits + 1))

length-ue_bits : (v : ℕ) → length (ue_bits v) ≤ 63
unfolding ue_bits
length-ue_bits v = omega (
  arith,
  length-append (replicate (bit_count 32 (u32 (v + 1)) 0 - 1) 0)
      (bits_of (u32 (v + 1)) (bit_count 32 (u32 (v + 1)) 0)),
  length-replicate {A = ℕ} (bit_count 32 (u32 (v + 1)) 0 - 1) 0,
  length-bits_of (u32 (v + 1)) (bit_count 32 (u32 (v + 1)) 0),
  bit_count-le 32 (u32 (v + 1)) 0,
)

abbrev pub max_bits : List Elem → ℕ
max_bits [] = 0
max_bits (fixed v n ∷ es) = n + max_bits es
max_bits (bit b ∷ es) = 1 + max_bits es
max_bits (golomb v ∷ es) = 63 + max_bits es
max_bits (signed z ∷ es) = 63 + max_bits es

pub length-encode : (es : List Elem) → length (encode es) ≤ max_bits es
unfolding encode
length-encode [] = omega arith
length-encode (fixed v n ∷ es) =
    omega (arith, length-append (bits_of v n) (encode es), length-bits_of v n, length-encode es)
length-encode (bit b ∷ es) = omega (arith, length-encode es)
length-encode (golomb v ∷ es) =
    omega (arith, length-append (ue_bits v) (encode es), length-ue_bits v, length-encode es)
length-encode (signed z ∷ es) = omega (
  arith,
  length-append (ue_bits (se_mapped z)) (encode es),
  length-ue_bits (se_mapped z),
  length-encode es,
)
