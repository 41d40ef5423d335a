-- ===== src/Colour/Conversion.antt =====
-- The conversion of a whole picture by `db_encoder_encode_bgrx`.
use display_bridge.Prelude.{
  ℕ, zero, suc, ◌+◌, ◌*◌, ◌/◌, ◌%◌, ◌≤◌, ◌<◌, ◌≡◌, refl, sym, subst, ◌∙◌, arith, Bool, true, ◌&&◌,
  none, some, List, ◌++◌, ltb, ltb→lt, lt→ltb, ◌==◌, ==_iff, ◌⊎◌, inl, inr, Bool-cases, and_both,
}
use display_bridge.Colour.Picture.{y_row, uv_part, convert_rows, convert}
use display_bridge.Colour.Plane.{
  le_cases, three, from_second, from_third, last_of, written, row_below, luma_at, Pair,
  y_row-outside, y_row-inside, uv_row-outside, uv_row-inside,
}

module _ (bgrx : ℕ → ℕ) (width height stride : ℕ) (even : width % 2 ≡ 0) where
  -- What the test of the loop says.
  abbrev has_uv : ℕ → Bool
  has_uv y = (y % 2 == 0) && ltb (y / 2) (height / 2)

  has_uv_lem : (y : ℕ) → has_uv y ≡ true → (y % 2 ≡ 0) × (y / 2 < height / 2)
  has_uv_lem y h =
      let both = and_both (y % 2 == 0) (ltb (y / 2) (height / 2)) h in
      ((==_iff (y % 2) 0).0 both.0, ltb→lt (y / 2) (height / 2) both.1)

  uv_part-outside :
      (y p : ℕ)
      → (has_uv y ≡ true
          → (p < width * height + y / 2 * width) ⊎ (width * height + y / 2 * width + width ≤ p))
      → written (uv_part bgrx width height stride y) p ≡ none
  unfolding uv_part
  uv_part-outside y p h = elim (Bool-cases (has_uv y)) [
    | inl e ↦ rw e (
        uv_row-outside bgrx (y * stride) (width * height + y / 2 * width) ((width + 1) / 2) 0 p
          (span (h e)))
    | inr e ↦ rw e refl
  ]
    where
      span :
          (p < width * height + y / 2 * width) ⊎ (width * height + y / 2 * width + width ≤ p)
          → (p < width * height + y / 2 * width + 0)
            ⊎ (width * height + y / 2 * width + 0 + 2 * ((width + 1) / 2) ≤ p)
      span (inl l) = inl (omega arith)
      span (inr l) = inr (omega (arith, even))

  uv_part-inside :
      (j i : ℕ)
      → j < height / 2
      → i < width / 2
      → Pair bgrx
          (uv_part bgrx width height stride (2 * j))
          (width * height + j * width + 2 * i)
          (2 * j * stride + 2 * i * 4)
  unfolding uv_part
  uv_part-inside j i h k =
      let half : 2 * j / 2 ≡ j = omega arith in
      let parity : (2 * j % 2 == 0) ≡ true = (==_iff (2 * j % 2) 0).1 (omega arith) in
      rw (half, parity, lt→ltb j (height / 2) h)
        (uv_row-inside bgrx (2 * j * stride) (width * height + j * width) ((width + 1) / 2) 0
          (2 * i) i (omega arith) (omega arith))

  abbrev rows : ℕ → ℕ → List (ℕ × ℕ)
  rows n y = convert_rows bgrx width height stride n y

  -- Rows that all miss an offset.
  rows-missing :
      (n y p : ℕ)
      → ((z : ℕ) → y ≤ z → z < y + n → (p < z * width) ⊎ (z * width + width ≤ p))
      → ((z : ℕ)
          → y ≤ z
          → z < y + n
          → has_uv z ≡ true
          → (p < width * height + z / 2 * width) ⊎ (width * height + z / 2 * width + width ≤ p))
      → written (rows n y) p ≡ none
  unfolding convert_rows
  rows-missing zero y p h k = refl
  rows-missing (suc n) y p h k =
      three (y_row bgrx (y * stride) (y * width) width 0) (uv_part bgrx width height stride y)
        (rows n (y + 1)) p
      ∙ rw
          (
            rows-missing n (y + 1) p (λ z l m. h z (omega arith) (omega arith))
                (λ z l m. k z (omega arith) (omega arith)),
            uv_part-outside y p (k y (omega arith) (omega arith)),
            y_row-outside bgrx (y * stride) (y * width) width 0 p
                (shift (h y (omega arith) (omega arith))),
          )
          refl
    where
      shift :
          (p < y * width) ⊎ (y * width + width ≤ p)
          → (p < y * width + 0) ⊎ (y * width + 0 + width ≤ p)
      shift (inl l) = inl (omega arith)
      shift (inr l) = inr (omega arith)

  -- Rows after the one of an offset in the Y plane.
  later-missing :
      (n y r x : ℕ) → r < y → r < height → x < width → written (rows n y) (r * width + x) ≡ none
  later-missing n y r x h k l =
      rows-missing n y (r * width + x)
        (λ z m _. inl (omega (arith, row_below r z width (omega arith))))
        (λ z m _ e. inl (omega (arith, row_below r height width k)))

  rows-luma :
      (n y r x : ℕ)
      → y ≤ r
      → r < y + n
      → y + n ≤ height
      → x < width
      → written (rows n y) (r * width + x) ≡ some (luma_at bgrx (r * stride + x * 4))
  unfolding convert_rows
  rows-luma zero y r x l m k h = absurd (omega arith)
  rows-luma (suc n) y r x l m k h =
      three (y_row bgrx (y * stride) (y * width) width 0) (uv_part bgrx width height stride y)
        (rows n (y + 1)) (r * width + x)
      ∙ elim (le_cases y r l) [
        | inl e ↦
            subst
              (λ r.
                last_of
                  (last_of (written (rows n (y + 1)) (r * width + x))
                    (written (uv_part bgrx width height stride y) (r * width + x)))
                  (written (y_row bgrx (y * stride) (y * width) width 0) (r * width + x))
                ≡ some (luma_at bgrx (r * stride + x * 4)))
              e
              (rw
                (
                  later-missing n (y + 1) y x (omega arith) (omega arith) h,
                  uv_part-outside y (y * width + x)
                      λ e. inl (omega (arith, row_below y height width (omega arith))),
                  y_row-inside bgrx (y * stride) (y * width) width 0 x (omega arith) (omega arith),
                )
                refl)
        | inr e ↦ rw (rows-luma n (y + 1) r x e (omega arith) (omega arith) h) refl
      ]

  -- Rows after the one of an offset in the UV plane.
  later-missing_uv :
      (n y j q : ℕ)
      → 2 * j + 1 ≤ y
      → y + n ≤ height
      → width * height + j * width ≤ q
      → q < width * height + j * width + width
      → written (rows n y) q ≡ none
  later-missing_uv n y j q h l low m =
      rows-missing n y q (λ z a b. inr (omega (arith, row_below z height width (omega arith))))
        (λ z a b e.
          let even_row = (has_uv_lem z e).0 in
          inl (omega (arith, row_below j (z / 2) width (omega (arith, even_row)))))

  rows-chroma :
      (n y j i : ℕ)
      → y ≤ 2 * j
      → 2 * j < y + n
      → y + n ≤ height
      → j < height / 2
      → i < width / 2
      → Pair bgrx (rows n y) (width * height + j * width + 2 * i) (2 * j * stride + 2 * i * 4)
  unfolding convert_rows
  rows-chroma zero y j i l m k h g = absurd (omega arith)
  rows-chroma (suc n) y j i l m k h g = elim (le_cases y (2 * j) l) [
    | inl e ↦
        subst
          (λ y.
            Pair bgrx
              (y_row bgrx (y * stride) (y * width) width 0
                ++ (uv_part bgrx width height stride y ++ rows n (y + 1)))
              p (2 * j * stride + 2 * i * 4))
          (sym e)
          (
            from_second (y_row bgrx (2 * j * stride) (2 * j * width) width 0)
                (uv_part bgrx width height stride (2 * j)) (rows n (2 * j + 1)) p _
                (later-missing_uv n (2 * j + 1) j p (omega arith) (omega (arith, e)) (omega arith)
                  (omega arith))
                (uv_part-inside j i h g).0,
            from_second (y_row bgrx (2 * j * stride) (2 * j * width) width 0)
                (uv_part bgrx width height stride (2 * j)) (rows n (2 * j + 1)) (p + 1) _
                (later-missing_uv n (2 * j + 1) j (p + 1) (omega arith) (omega (arith, e))
                  (omega arith) (omega arith))
                (uv_part-inside j i h g).1,
          )
    | inr e ↦
        let pair = rows-chroma n (y + 1) j i e (omega arith) (omega arith) h g in
        (
          from_third (y_row bgrx (y * stride) (y * width) width 0)
              (uv_part bgrx width height stride y) (rows n (y + 1)) p _ pair.0,
          from_third (y_row bgrx (y * stride) (y * width) width 0)
              (uv_part bgrx width height stride y) (rows n (y + 1)) (p + 1) _ pair.1,
        )
  ]
    where
      p : ℕ
      p = width * height + j * width + 2 * i

half_plus : (q r w : ℕ) → w * (2 * q + r) + q * w ≤ w * (2 * q + r) * 3 / 2
half_plus q r w = omega arith

-- The UV plane ends where the buffer does, or before.
half_rows : (width height : ℕ) → width * height + height / 2 * width ≤ width * height * 3 / 2
half_rows width height =
    let e : 2 * (height / 2) + height % 2 ≡ height = omega arith in
    subst (λ h. width * h + height / 2 * width ≤ width * h * 3 / 2) e
      (half_plus (height / 2) (height % 2) width)

-- For a picture whose width is even, `db_encoder_encode_bgrx` makes NV12 out of it: after the loops
-- the byte of the Y plane for any pixel `(x, y)` holds its luma; the pair of the UV plane for any
-- block `(i, j)` holds the Cb and the Cr of the top left pixel of the block; and nothing is stored
-- at an offset `p` at or beyond the `needed` bytes of the conversion buffer.
pub convert_lem :
    (bgrx : ℕ → ℕ) (width height stride x y i j p : ℕ)
    → width % 2 ≡ 0
    → x < width
    → y < height
    → i < width / 2
    → j < height / 2
    → width * height * 3 / 2 ≤ p
    → let stores = convert bgrx width height stride in
      (written stores (y * width + x) ≡ some (luma_at bgrx (y * stride + x * 4)))
      × Pair bgrx stores (width * height + j * width + 2 * i) (2 * j * stride + 2 * i * 4)
      × (written stores p ≡ none)
unfolding convert
convert_lem bgrx width height stride x y i j p even hx hy hi hj hp = (
  rows-luma bgrx width height stride even height 0 y x (omega arith) (omega arith) (omega arith) hx,
  rows-chroma bgrx width height stride even height 0 j i (omega arith) (omega arith) (omega arith)
      hj hi,
  rows-missing bgrx width height stride even height 0 p
      (λ z l m. inr (omega (arith, hp, row_below z height width (omega arith))))
      (λ z l m e.
        let inside = (has_uv_lem bgrx width height stride even z e).1 in
        inr
          (omega (arith, hp, half_rows width height, row_below (z / 2) (height / 2) width inside))),
)
