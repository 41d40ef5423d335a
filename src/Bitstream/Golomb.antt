-- ===== src/Bitstream/Golomb.antt =====
-- Fixed-length and exp-Golomb codes read back: the parsing processes u(n) and ue(v) of H.265
-- clauses 7.2 and 9.2 over a list of bits, and the writers of encoder.c against them.
use mathlib.Core.Option
use native.Mathlib.Nat.{
  pow-suc, div-add-mod', div-div-eq-div-mul, mod-eq_of_lt, mod-eq-sub-mod, div-eq_of_lt-le,
}
use native.Mathlib.Decide.{dec_lt}
use display_bridge.Prelude.{
  ℕ, zero, suc, ◌+◌, ◌-◌, ◌*◌, ◌/◌, ◌%◌, ◌^◌, ◌≤◌, ◌<◌, ◌≡◌, refl, ap, ◌∙◌, arith, Option, none,
  some, List, [], ◌∷◌, ◌++◌, append_assoc, u32, replicate, lt→ltb,
}
use display_bridge.Bitstream.{write_ue, bit_count}
use display_bridge.Bitstream.View.{bits_of, Emits}
use display_bridge.Bitstream.Emit.{>>-Emits, write-Emits, zeros-Emits}

-- u(n): the next `n` bits, most significant first, after `acc`.
unfoldable pub read_bits : ℕ → ℕ → List ℕ → Option (ℕ × List ℕ)
read_bits zero acc bits = some (acc, bits)
read_bits (suc n) acc [] = none
read_bits (suc n) acc (b ∷ bits) = read_bits n (2 * acc + b) bits

-- `leadingZeroBits`, and what follows the first one bit.
unfoldable pub leading_zeros : List ℕ → Option (ℕ × List ℕ)
leading_zeros [] = none
leading_zeros (zero ∷ bits) = Option.map (λ (p : ℕ × List ℕ). (suc p.0, p.1)) (leading_zeros bits)
leading_zeros (suc b ∷ bits) = some (0, bits)

-- ue(v)
unfoldable pub read_ue : List ℕ → Option (ℕ × List ℕ)
unfolding leading_zeros read_bits
read_ue bits =
    Option.bind (leading_zeros bits)
      λ p. Option.map (λ (q : ℕ × List ℕ). (2 ^ p.0 - 1 + q.0, q.1)) (read_bits p.0 0 p.1)

-- The bits of `bs_write_ue`.
unfoldable pub ue_bits : ℕ → List ℕ
ue_bits value =
    let v = u32 (value + 1) in
    let bits = bit_count 32 v 0 in replicate (bits - 1) 0 ++ bits_of v bits

div-two-pow_suc : (v n : ℕ) → v / 2 ^ suc n ≡ v / 2 ^ n / 2
div-two-pow_suc v n = rw (pow-suc 2 n, div-div-eq-div-mul)

halves : (a : ℕ) → a ≡ a / 2 * 2 + a % 2
halves a = omega arith

mod-two-pow_suc : (v n : ℕ) → v % 2 ^ suc n ≡ v / 2 ^ n % 2 * 2 ^ n + v % 2 ^ n
mod-two-pow_suc v n = omega (
  arith,
  div-add-mod' v (2 ^ suc n),
  div-add-mod' v (2 ^ n),
  div-two-pow_suc v n,
  ap (λ (t : ℕ). v / 2 ^ n / 2 * t) (pow-suc 2 n),
  ap (λ (t : ℕ). t * 2 ^ suc n) (div-two-pow_suc v n),
  ap (λ (t : ℕ). t * 2 ^ n) (halves (v / 2 ^ n)),
)

pub read_bits-bits_of :
    (n acc v : ℕ) (rest : List ℕ)
    → read_bits n acc (bits_of v n ++ rest) ≡ some (acc * 2 ^ n + v % 2 ^ n, rest)
unfolding read_bits
read_bits-bits_of zero acc v rest = ap (λ (t : ℕ). some (t, rest)) (omega arith)
read_bits-bits_of (suc n) acc v rest =
    read_bits-bits_of n (2 * acc + v / 2 ^ n % 2) v rest
    ∙ ap (λ (t : ℕ). some (t, rest))
        (omega (arith, mod-two-pow_suc v n, ap (λ (t : ℕ). acc * t) (pow-suc 2 n)))

leading_zeros-replicate :
    (n b : ℕ) (rest : List ℕ) → leading_zeros (replicate n 0 ++ (suc b ∷ rest)) ≡ some (n, rest)
unfolding leading_zeros
leading_zeros-replicate zero b rest = refl
leading_zeros-replicate (suc n) b rest = rw (leading_zeros-replicate n b rest)

bit_count-zero : (fuel bits : ℕ) → bit_count fuel 0 bits ≡ bits
unfolding bit_count
bit_count-zero zero bits = refl
bit_count-zero (suc fuel) bits = refl

bit_count-pos :
    (fuel tmp bits : ℕ)
    → 0 < tmp
    → bit_count (suc fuel) tmp bits ≡ bit_count fuel (tmp / 2) (bits + 1)
unfolding bit_count
bit_count-pos fuel tmp bits h = rw (lt→ltb 0 tmp h)

-- The loop of `bs_write_ue` ends by its test, with the number of digits of `tmp`.
bit_count_lem :
    (fuel tmp bits : ℕ)
    → 0 < tmp
    → tmp < 2 ^ fuel
    → (j : ℕ) × (bit_count fuel tmp bits ≡ bits + suc j) × (2 ^ j ≤ tmp) × (tmp < 2 ^ suc j)
bit_count_lem zero tmp bits p h = absurd (omega arith)
bit_count_lem (suc fuel) tmp bits p h = elim (dec_lt 1 tmp) [
  | no q ↦ (
    0,
    bit_count-pos fuel tmp bits p
        ∙ ap (λ (t : ℕ). bit_count fuel t (bits + 1)) (omega arith)
        ∙ bit_count-zero fuel (bits + 1),
    omega arith,
    omega arith,
  )
  | yes q ↦
      let (j, e, lo, hi) =
        bit_count_lem fuel (tmp / 2) (bits + 1) (omega arith) (omega (arith, pow-suc 2 fuel)) in
      (
        suc j,
        bit_count-pos fuel tmp bits p ∙ e ∙ omega arith,
        omega (arith, pow-suc 2 j),
        omega (arith, pow-suc 2 (suc j)),
      )
]

pub write_ue-Emits : (value : ℕ) → Emits (write_ue value) (ue_bits value)
unfolding write_ue ue_bits
write_ue-Emits value = >>-Emits _ _ (zeros-Emits _) (write-Emits _ _)

-- `j` zeros and a number of `suc j` digits.
read_code :
    (v j : ℕ) (rest : List ℕ)
    → 2 ^ j ≤ v
    → v < 2 ^ suc j
    → read_ue (replicate j 0 ++ ((1 ∷ bits_of v j) ++ rest)) ≡ some (v - 1, rest)
unfolding read_ue Option.bind
read_code v j rest lo hi =
    rw (leading_zeros-replicate j 0 (bits_of v j ++ rest), read_bits-bits_of j 0 v rest)
      (ap (λ (t : ℕ). some (t, rest))
        (omega (
          arith,
          mod-eq-sub-mod lo,
          mod-eq_of_lt {n = v - 2 ^ j} {m = 2 ^ j} (omega (arith, pow-suc 2 j)),
        )))

top_digit : (v j : ℕ) → 2 ^ j ≤ v → v < 2 ^ suc j → bits_of v (suc j) ≡ 1 ∷ bits_of v j
top_digit v j lo hi = ap (λ (t : ℕ). t ∷ bits_of v j) (ap (λ (t : ℕ). t % 2) one_eq)
  where
    one_eq : v / 2 ^ j ≡ 1
    one_eq = div-eq_of_lt-le {k = 1} (2 ^ j) {m = v} (omega arith) (omega (arith, pow-suc 2 j))

read_digits :
    (v b j : ℕ) (rest : List ℕ)
    → b - 1 ≡ j
    → b ≡ suc j
    → 2 ^ j ≤ v
    → v < 2 ^ suc j
    → read_ue ((replicate (b - 1) 0 ++ bits_of v b) ++ rest) ≡ some (v - 1, rest)
read_digits v b j rest less eb lo hi =
    rw (less, eb)
      (rw (top_digit v j lo hi, append_assoc (replicate j 0) (1 ∷ bits_of v j) rest)
        (read_code v j rest lo hi))

pub read_ue-ue_bits :
    (value : ℕ) (rest : List ℕ)
    → value + 1 < 2 ^ 32
    → read_ue (ue_bits value ++ rest) ≡ some (value, rest)
unfolding ue_bits
read_ue-ue_bits value rest h =
    let (j, e, lo, hi) = bit_count_lem 32 (value + 1) 0 (omega arith) h in
    rw (mod-eq_of_lt {n = value + 1} {m = 2 ^ 32} h) (
      read_digits (value + 1) (bit_count 32 (value + 1) 0) j rest (omega (arith, e))
        (omega (arith, e)) lo hi
      ∙ ap (λ (t : ℕ). some (t, rest)) (omega arith))
