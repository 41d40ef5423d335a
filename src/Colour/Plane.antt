-- ===== src/Colour/Plane.antt =====
-- What the stores of the colour conversion leave in the buffer.
use display_bridge.Prelude.{
  ℕ, zero, suc, ◌+◌, ◌-◌, ◌*◌, ◌≤◌, ◌<◌, ◌≡◌, refl, subst, ap, ◌∙◌, arith, Option, none, some, List,
  [], ◌∷◌, ◌++◌, ◌==◌, ==_iff, ne→==, if◌then◌else◌, ◌⊎◌, inl, inr,
}
use display_bridge.Colour.{luma, cb, cr}
use display_bridge.Colour.Picture.{y_row, uv_row}

abbrev pub last_of : Option ℕ → Option ℕ → Option ℕ
last_of (some v) earlier = some v
last_of none earlier = earlier

-- The byte that the stores leave at an offset, if one of them is there.
abbrev pub written : List (ℕ × ℕ) → ℕ → Option ℕ
written [] p = none
written (s ∷ ss) p = last_of (written ss p) (if s.0 == p then some s.1 else none)

last_of_assoc : (a b c : Option ℕ) → last_of (last_of a b) c ≡ last_of a (last_of b c)
last_of_assoc (some v) b c = refl
last_of_assoc none b c = refl

pub written-append :
    (xs ys : List (ℕ × ℕ)) (p : ℕ) → written (xs ++ ys) p ≡ last_of (written ys p) (written xs p)
written-append [] ys p = last_of_none (written ys p)
  where
    last_of_none : (a : Option ℕ) → a ≡ last_of a none
    last_of_none (some v) = refl
    last_of_none none = refl
written-append (x ∷ xs) ys p =
    ap (λ o. last_of o (if x.0 == p then some x.1 else none)) (written-append xs ys p)
    ∙ last_of_assoc (written ys p) (written xs p) (if x.0 == p then some x.1 else none)

-- A list of three parts.
pub three :
    (xs ys zs : List (ℕ × ℕ)) (p : ℕ)
    → written (xs ++ (ys ++ zs)) p ≡ last_of (last_of (written zs p) (written ys p)) (written xs p)
three xs ys zs p =
    written-append xs (ys ++ zs) p ∙ ap (λ o. last_of o (written xs p)) (written-append ys zs p)

pub from_second :
    (xs ys zs : List (ℕ × ℕ)) (p v : ℕ)
    → written zs p ≡ none
    → written ys p ≡ some v
    → written (xs ++ (ys ++ zs)) p ≡ some v
from_second xs ys zs p v h k = three xs ys zs p ∙ rw (h, k) refl

pub from_third :
    (xs ys zs : List (ℕ × ℕ)) (p v : ℕ)
    → written zs p ≡ some v
    → written (xs ++ (ys ++ zs)) p ≡ some v
from_third xs ys zs p v h = three xs ys zs p ∙ rw h refl

-- The store at the front, at this offset or at another.
written_here :
    (q v p : ℕ) (ss : List (ℕ × ℕ)) → written ss p ≡ none → q ≡ p → written ((q, v) ∷ ss) p ≡ some v
written_here q v p ss h e = rw (h, (==_iff q p).1 e) refl

written_elsewhere :
    (q v p : ℕ) (ss : List (ℕ × ℕ)) → ((q ≡ p) → ⊥) → written ((q, v) ∷ ss) p ≡ written ss p
written_elsewhere q v p ss e = rw (ne→== q p e) (last_of_none (written ss p))
  where
    last_of_none : (a : Option ℕ) → last_of a none ≡ a
    last_of_none (some v) = refl
    last_of_none none = refl

next_row : (y w : ℕ) → (y + 1) * w ≡ y * w + w
next_row y w = omega arith

row_plus : (r d w : ℕ) → r * w + w ≤ (r + 1 + d) * w
row_plus r d w = omega arith

pub row_below : (r s w : ℕ) → r < s → r * w + w ≤ s * w
row_below r s w h =
    let e : r + 1 + (s - (r + 1)) ≡ s = omega arith in
    subst (λ t. r * w + w ≤ t * w) e (row_plus r (s - (r + 1)) w)

pub le_cases : (a b : ℕ) → a ≤ b → (a ≡ b) ⊎ (a + 1 ≤ b)
le_cases a b h = ground arith

module _ (bgrx : ℕ → ℕ) where
  -- The bytes of the pixel at an offset.
  abbrev pub luma_at : ℕ → ℕ
  luma_at at = luma (bgrx at) (bgrx (at + 1)) (bgrx (at + 2))

  abbrev pub cb_at : ℕ → ℕ
  cb_at at = cb (bgrx at) (bgrx (at + 1)) (bgrx (at + 2))

  abbrev pub cr_at : ℕ → ℕ
  cr_at at = cr (bgrx at) (bgrx (at + 1)) (bgrx (at + 2))

  pub y_row-outside :
      (src dst n x p : ℕ)
      → (p < dst + x) ⊎ (dst + x + n ≤ p)
      → written (y_row bgrx src dst n x) p ≡ none
  unfolding y_row
  y_row-outside src dst zero x p h = refl
  y_row-outside src dst (suc n) x p h =
      written_elsewhere (dst + x) (luma_at (src + x * 4)) p (y_row bgrx src dst n (x + 1))
        (omega arith)
      ∙ y_row-outside src dst n (x + 1) p (ground arith)

  pub y_row-inside :
      (src dst n x j : ℕ)
      → x ≤ j
      → j < x + n
      → written (y_row bgrx src dst n x) (dst + j) ≡ some (luma_at (src + j * 4))
  unfolding y_row
  y_row-inside src dst zero x j l h = absurd (omega arith)
  y_row-inside src dst (suc n) x j l h = elim (le_cases x j l) [
    | inl e ↦
        written_here (dst + x) (luma_at (src + x * 4)) (dst + j) (y_row bgrx src dst n (x + 1))
          (y_row-outside src dst n (x + 1) (dst + j) (inl (omega arith))) (omega arith)
        ∙ ap (λ k. some (luma_at (src + k * 4))) e
    | inr m ↦
        written_elsewhere (dst + x) (luma_at (src + x * 4)) (dst + j) (y_row bgrx src dst n (x + 1))
          (omega arith)
        ∙ y_row-inside src dst n (x + 1) j m (omega arith)
  ]

  pub uv_row-outside :
      (src dst n x p : ℕ)
      → (p < dst + x) ⊎ (dst + x + 2 * n ≤ p)
      → written (uv_row bgrx src dst n x) p ≡ none
  unfolding uv_row
  uv_row-outside src dst zero x p h = refl
  uv_row-outside src dst (suc n) x p h =
      written_elsewhere (dst + x) (cb_at (src + x * 4)) p
        ((dst + x + 1, cr_at (src + x * 4)) ∷ uv_row bgrx src dst n (x + 2)) (omega arith)
      ∙ written_elsewhere (dst + x + 1) (cr_at (src + x * 4)) p (uv_row bgrx src dst n (x + 2))
          (omega arith)
      ∙ uv_row-outside src dst n (x + 2) p (ground arith)

  -- The pair of a pixel with an even abscissa.
  abbrev pub Pair : List (ℕ × ℕ) → ℕ → ℕ → Type 0
  Pair ss p at = (written ss p ≡ some (cb_at at)) × (written ss (p + 1) ≡ some (cr_at at))

  pub uv_row-inside :
      (src dst n x j i : ℕ)
      → x + 2 * i ≡ j
      → i < n
      → Pair (uv_row bgrx src dst n x) (dst + j) (src + j * 4)
  unfolding uv_row
  uv_row-inside src dst zero x j i e h = absurd (omega arith)
  uv_row-inside src dst (suc n) x j zero e h =
      let rest = uv_row bgrx src dst n (x + 2) in
      let same : x ≡ j = omega arith in
      let at_j = ap (λ k. some (cb_at (src + k * 4))) same in
      let at_j1 = ap (λ k. some (cr_at (src + k * 4))) same in
      (
        written_here (dst + x) (cb_at (src + x * 4)) (dst + j)
              ((dst + x + 1, cr_at (src + x * 4)) ∷ rest)
              (written_elsewhere (dst + x + 1) (cr_at (src + x * 4)) (dst + j) rest (omega arith)
                ∙ uv_row-outside src dst n (x + 2) (dst + j) (inl (omega arith)))
              (omega arith)
            ∙ at_j,
        written_elsewhere (dst + x) (cb_at (src + x * 4)) (dst + j + 1)
              ((dst + x + 1, cr_at (src + x * 4)) ∷ rest) (omega arith)
            ∙ written_here (dst + x + 1) (cr_at (src + x * 4)) (dst + j + 1) rest
                (uv_row-outside src dst n (x + 2) (dst + j + 1) (inl (omega arith))) (omega arith)
            ∙ at_j1,
      )
  uv_row-inside src dst (suc n) x j (suc i) e h =
      let rest = uv_row bgrx src dst n (x + 2) in
      let pair = uv_row-inside src dst n (x + 2) j i (omega arith) (omega arith) in
      (
        written_elsewhere (dst + x) (cb_at (src + x * 4)) (dst + j)
              ((dst + x + 1, cr_at (src + x * 4)) ∷ rest) (omega arith)
            ∙ written_elsewhere (dst + x + 1) (cr_at (src + x * 4)) (dst + j) rest (omega arith)
            ∙ pair.0,
        written_elsewhere (dst + x) (cb_at (src + x * 4)) (dst + j + 1)
              ((dst + x + 1, cr_at (src + x * 4)) ∷ rest) (omega arith)
            ∙ written_elsewhere (dst + x + 1) (cr_at (src + x * 4)) (dst + j + 1) rest (omega arith)
            ∙ pair.1,
      )
