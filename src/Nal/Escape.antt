-- ===== src/Nal/Escape.antt =====
-- Emulation prevention: what `add_emulation_prevention` puts out holds no start code, a receiver
-- gets the source back, and how long the output can be.
use display_bridge.Prelude.{
  ℕ, zero, suc, ◌+◌, ◌-◌, ◌/◌, ◌≤◌, ◌<◌, ◌≡◌, refl, arith, false, ◌&&◌, List, [], ◌∷◌, ◌++◌, leb,
  ◌==◌, if◌then◌else◌, length, replicate, ◌⊎◌, inl, inr, subst, Bool-cases,
}
use display_bridge.Nal.{next_zeros, escape_loop, add_emulation_prevention}

-- The receiver's side, H.265 clause 7.3.1.1: a byte 3 after two zero bytes is dropped.
unfoldable pub unescape_loop : ℕ → List ℕ → List ℕ
unescape_loop run [] = []
unescape_loop run (x ∷ xs) =
    let stuffed = leb 2 run && x == 0x03 in
    let rest = unescape_loop (if stuffed then 0 else next_zeros run x) xs in
    if stuffed then rest else x ∷ rest

unfoldable pub unescape : List ℕ → List ℕ
unfolding unescape_loop
unescape xs = unescape_loop 0 xs

unescape_loop-escape_loop : (z : ℕ) (src : List ℕ) → unescape_loop z (escape_loop z src) ≡ src
unfolding unescape_loop escape_loop
unescape_loop-escape_loop z [] = refl
unescape_loop-escape_loop z (x ∷ src) = ground (
  arith,
  unescape_loop-escape_loop 0 src,
  unescape_loop-escape_loop 1 src,
  unescape_loop-escape_loop (z + 1) src,
)

-- A receiver that drops the inserted bytes gets the source back, for every source.
pub unescape-add_emulation_prevention :
    (src : List ℕ) → unescape (add_emulation_prevention src) ≡ src
unfolding unescape add_emulation_prevention
unescape-add_emulation_prevention src = unescape_loop-escape_loop 0 src

-- After `z` zero bytes, no two zero bytes are followed by 0, 1 or 2.
abbrev Safe : ℕ → List ℕ → Type 0
Safe z [] = Unit
Safe z (x ∷ xs) = ((z < 2) ⊎ (3 ≤ x)) × Safe (next_zeros z x) xs

unstuffed : (z x : ℕ) → (leb 2 z && leb x 0x03) ≡ false → (z < 2) ⊎ (3 ≤ x)
unstuffed z x e = ground arith

escape_loop-Safe : (z : ℕ) (src : List ℕ) → Safe z (escape_loop z src)
unfolding escape_loop
escape_loop-Safe z [] = tt
escape_loop-Safe z (x ∷ src) = elim (Bool-cases (leb 2 z && leb x 0x03)) [
  | inl e ↦ rw e (inr (omega arith), (inl (omega arith), escape_loop-Safe (next_zeros 0 x) src))
  | inr e ↦ rw e (unstuffed z x e, escape_loop-Safe (next_zeros z x) src)
]

Safe-after :
    (z : ℕ) (front : List ℕ) (x : ℕ) (back : List ℕ) → Safe z (front ++ (0 ∷ 0 ∷ x ∷ back)) → 3 ≤ x
Safe-after z [] x back s = omega arith
Safe-after z (y ∷ front) x back s = Safe-after (next_zeros z y) front x back s.1

-- Nowhere in the output do two zero bytes stand before a byte below 3, so neither a start code nor
-- its four-byte form stands in it.
pub add_emulation_prevention_no_start_code :
    (src front back : List ℕ) (x : ℕ)
    → add_emulation_prevention src ≡ front ++ (0 ∷ 0 ∷ x ∷ back)
    → 3 ≤ x
unfolding add_emulation_prevention
add_emulation_prevention_no_start_code src front back x e =
    Safe-after 0 front x back (subst (Safe 0) e (escape_loop-Safe 0 src))

length-escape_loop :
    (z : ℕ) (src : List ℕ)
    → z ≤ 2
    → length (escape_loop z src) ≤ length src + (length src + z - 1) / 2
unfolding escape_loop
length-escape_loop z [] h = omega arith
length-escape_loop z (x ∷ src) h =
    ground
      (arith, length-escape_loop 0 src, length-escape_loop 1 src, length-escape_loop (z + 1) src)

-- The output is at most half as long again as the source.
pub length-add_emulation_prevention :
    (src : List ℕ) → length (add_emulation_prevention src) ≤ length src + (length src - 1) / 2
unfolding add_emulation_prevention
length-add_emulation_prevention src = omega (arith, length-escape_loop 0 src (omega arith))

length-escape_loop-zeros :
    (z n : ℕ) → z ≤ 2 → length (escape_loop z (replicate n 0)) ≡ n + (n + z - 1) / 2
unfolding escape_loop
length-escape_loop-zeros z zero h = omega arith
length-escape_loop-zeros z (suc n) h =
    ground (arith, length-escape_loop-zeros 1 n, length-escape_loop-zeros (z + 1) n)

-- The longest output for a source of `n` bytes has `n + (n - 1) / 2` bytes: no source of that length
-- has a longer one, and the zero bytes have one that is as long.
pub length-add_emulation_prevention-zeros :
    (src : List ℕ)
    → let zeros : List ℕ = replicate (length src) 0 in
      (length (add_emulation_prevention src) ≤ length (add_emulation_prevention zeros))
      × (length (add_emulation_prevention zeros) ≡ length src + (length src - 1) / 2)
unfolding add_emulation_prevention
length-add_emulation_prevention-zeros src =
    let most = length-add_emulation_prevention src in
    let reached = length-escape_loop-zeros 0 (length src) (omega arith) in
    (omega (arith, most, reached), omega (arith, reached))
