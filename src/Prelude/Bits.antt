-- ===== src/Prelude/Bits.antt =====
-- `|` of disjoint fields and `&` with a mask, as arithmetic, at every width, and C's shifts.
use Prim.Native.Nat.{ℕ, zero, suc, ◌+◌, ◌-◌, ◌*◌, ◌/◌, ◌%◌, ◌^◌, ◌≤◌, ◌<◌, min, max}
use Prim.Native.Nat.{bit_and, bit_or, digits, bitwise, bit_and-bitwise, bit_or-bitwise}
use mathlib.Core.Path.{◌≡◌, refl, ap, ap₂, ◌∙◌}
use native.Mathlib.Nat.{pow-suc, one-le-pow, mod-lt, div-add-mod'}
use native.Mathlib.Omega.{arith}

infixl 75 ◌<<<◌ ◌>>>◌
abbrev pub ◌<<<◌ : ℕ → ℕ → ℕ
x <<< k = x * 2 ^ k

abbrev pub ◌>>>◌ : ℕ → ℕ → ℕ
x >>> k = x / 2 ^ k

abbrev pub u8 : ℕ → ℕ
u8 n = n % 2 ^ 8

abbrev pub u16 : ℕ → ℕ
u16 n = n % 2 ^ 16

abbrev pub u32 : ℕ → ℕ
u32 n = n % 2 ^ 32

abbrev pub u64 : ℕ → ℕ
u64 n = n % 2 ^ 64

-- A count of rounds that covers the first number gives what that number itself gives; `top` bounds
-- both for the recursion.
enough_rounds :
    (last : ℕ → ℕ) (f : ℕ → ℕ → ℕ) (top a rounds b : ℕ)
    → a ≤ top
    → a ≤ rounds
    → digits last f rounds a b ≡ bitwise last f a b
enough_rounds last f top zero zero b small covers = refl
enough_rounds last f top zero (suc rounds) b small covers = refl
enough_rounds last f top (suc a) zero b small covers = absurd (omega arith)
enough_rounds last f zero (suc a) rounds b small covers = absurd (omega arith)
enough_rounds last f (suc top) (suc a) (suc rounds) b small covers =
    let here = enough_rounds last f top (suc a / 2) rounds (b / 2) (omega arith) (omega arith) in
    let there = enough_rounds last f top (suc a / 2) a (b / 2) (omega arith) (omega arith) in
    omega (arith, here, there)

pub bit_or_halves : (a b : ℕ) → bit_or a b ≡ 2 * bit_or (a / 2) (b / 2) + max (a % 2) (b % 2)
bit_or_halves zero b = omega (arith, bit_or-bitwise 0 b, bit_or-bitwise 0 (b / 2))
bit_or_halves (suc a) b =
    let rest = enough_rounds (λ y. y) max a (suc a / 2) a (b / 2) (omega arith) (omega arith) in
    omega (arith, rest, bit_or-bitwise (suc a) b, bit_or-bitwise (suc a / 2) (b / 2))

pub bit_and_halves : (a b : ℕ) → bit_and a b ≡ 2 * bit_and (a / 2) (b / 2) + min (a % 2) (b % 2)
bit_and_halves zero b = omega (arith, bit_and-bitwise 0 b, bit_and-bitwise 0 (b / 2))
bit_and_halves (suc a) b =
    let rest = enough_rounds (λ y. 0) min a (suc a / 2) a (b / 2) (omega arith) (omega arith) in
    omega (arith, rest, bit_and-bitwise (suc a) b, bit_and-bitwise (suc a / 2) (b / 2))

-- An operation on binary digits treats the high parts and the `k` low bits apart.
module _ (op digit : ℕ → ℕ → ℕ)
    (halves : (a b : ℕ) → op a b ≡ 2 * op (a / 2) (b / 2) + digit (a % 2) (b % 2)) where
  at_zero : op 0 0 ≡ 0
  at_zero = omega (arith, halves 0 0)

  double : (x k r : ℕ) → (x * 2 ^ suc k + r) / 2 ≡ x * 2 ^ k + r / 2
  double x k r = omega (arith, ap (λ (t : ℕ). x * t) (pow-suc 2 k))

  parity : (x k r : ℕ) → (x * 2 ^ suc k + r) % 2 ≡ r % 2
  parity x k r = omega (arith, ap (λ (t : ℕ). x * t) (pow-suc 2 k))

  fields :
      (k x y r s : ℕ)
      → r < 2 ^ k
      → s < 2 ^ k
      → op (x * 2 ^ k + r) (y * 2 ^ k + s) ≡ op x y * 2 ^ k + op r s
  fields zero x y r s hr hs =
      let low : op r s ≡ 0 = ap₂ op (omega arith) (omega arith) ∙ at_zero in
      let high : op (x * 1 + r) (y * 1 + s) ≡ op x y = ap₂ op (omega arith) (omega arith) in
      omega (arith, low, high)
  fields (suc k) x y r s hr hs =
      let rest =
        fields k x y (r / 2) (s / 2) (omega (arith, pow-suc 2 k)) (omega (arith, pow-suc 2 k)) in
      let high = ap₂ op (double x k r) (double y k s) in
      let low = ap₂ digit (parity x k r) (parity y k s) in
      let power = ap (λ (t : ℕ). op x y * t) (pow-suc 2 k) in
      omega
        (arith, halves (x * 2 ^ suc k + r) (y * 2 ^ suc k + s), halves r s, rest, high, low, power)

all_ones : (k r : ℕ) → r < 2 ^ k → bit_and r (2 ^ k - 1) ≡ r
all_ones zero r h = ap (λ (t : ℕ). bit_and t 0) {x = r} {y = 0} (omega arith) ∙ omega arith
all_ones (suc k) r h = ground (
  arith,
  bit_and_halves r (2 ^ suc k - 1),
  pow-suc 2 k,
  all_ones k (r / 2) (omega (arith, pow-suc 2 k)),
)

or_nothing : (top a : ℕ) → a ≤ top → bit_or a 0 ≡ a
or_nothing top zero small = bit_or-bitwise 0 0
or_nothing zero (suc a) small = absurd (omega arith)
or_nothing (suc top) (suc a) small =
    omega (arith, bit_or_halves (suc a) 0, or_nothing top (suc a / 2) (omega arith))

and_nothing : (top a : ℕ) → a ≤ top → bit_and a 0 ≡ 0
and_nothing top zero small = bit_and-bitwise 0 0
and_nothing zero (suc a) small = absurd (omega arith)
and_nothing (suc top) (suc a) small =
    omega (arith, bit_and_halves (suc a) 0, and_nothing top (suc a / 2) (omega arith))

-- `(q << k) | r` is a sum when `r` fits `k` bits.
pub bit_or_fields : (k q r : ℕ) → r < 2 ^ k → bit_or (q <<< k) r ≡ q * 2 ^ k + r
bit_or_fields k q r h =
    let split = fields bit_or max bit_or_halves k q 0 0 r (omega arith) h in
    let no_low : q * 2 ^ k ≡ q * 2 ^ k + 0 = omega arith in
    let no_high : r ≡ 0 * 2 ^ k + r = omega arith in
    let high = ap (λ (t : ℕ). t * 2 ^ k) (or_nothing q q (omega arith)) in
    omega (arith, split, ap₂ bit_or no_low no_high, high, bit_or-bitwise 0 r)

-- A mask of `k` low bits is the remainder by `2 ^ k`.
pub bit_and_mask : (k a : ℕ) → bit_and a (2 ^ k - 1) ≡ a % 2 ^ k
bit_and_mask k a =
    let low : a % 2 ^ k < 2 ^ k = mod-lt a (one-le-pow k 2 (omega arith)) in
    let split =
      fields bit_and min bit_and_halves k (a / 2 ^ k) 0 (a % 2 ^ k) (2 ^ k - 1) low
        (omega (arith, low)) in
    let no_high : 0 * 2 ^ k + (2 ^ k - 1) ≡ 2 ^ k - 1 = omega arith in
    let whole = ap₂ bit_and (div-add-mod' a (2 ^ k)) no_high in
    let high = ap (λ (t : ℕ). t * 2 ^ k) (and_nothing (a / 2 ^ k) (a / 2 ^ k) (omega arith)) in
    omega (arith, split, whole, high, all_ones k (a % 2 ^ k) low)

-- A mask with `k` low zeros clears the `k` low bits.
pub bit_and-mul-two-pow : (k a m : ℕ) → bit_and a (m * 2 ^ k) ≡ bit_and (a / 2 ^ k) m * 2 ^ k
bit_and-mul-two-pow k a m =
    let low : a % 2 ^ k < 2 ^ k = mod-lt a (one-le-pow k 2 (omega arith)) in
    let split =
      fields bit_and min bit_and_halves k (a / 2 ^ k) m (a % 2 ^ k) 0 low (omega (arith, low)) in
    let no_low : m * 2 ^ k + 0 ≡ m * 2 ^ k = omega arith in
    let whole = ap₂ bit_and (div-add-mod' a (2 ^ k)) no_low in
    omega (arith, split, whole, and_nothing (a % 2 ^ k) (a % 2 ^ k) (omega arith))

pub bit_and-one : (a : ℕ) → bit_and a 1 ≡ a % 2
bit_and-one a = bit_and_mask 1 a
