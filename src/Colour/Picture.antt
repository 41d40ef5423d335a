-- ===== src/Colour/Picture.antt =====
-- The loops of `db_encoder_encode_bgrx` in ubuntu/src/encoder.c, as the stores that they make into
-- `conv_buf`: offsets and bytes. `bgrx` is the picture, a byte for every offset.
use display_bridge.Prelude.{
  ℕ, zero, suc, ◌+◌, ◌*◌, ◌/◌, ◌%◌, ◌&&◌, List, [], ◌∷◌, ◌++◌, ltb, ◌==◌, if◌then◌else◌,
}
use display_bridge.Colour.{luma, cb, cr}

module _ (bgrx : ℕ → ℕ) where
  -- The bytes of the Y plane from `x` on.
  unfoldable pub y_row : ℕ → ℕ → ℕ → ℕ → List (ℕ × ℕ)
  y_row src dst zero x = []
  y_row src dst (suc n) x =
      (dst + x, luma (bgrx (src + x * 4)) (bgrx (src + x * 4 + 1)) (bgrx (src + x * 4 + 2)))
      ∷ y_row src dst n (x + 1)

  -- The pairs of the UV plane from `x` on.
  unfoldable pub uv_row : ℕ → ℕ → ℕ → ℕ → List (ℕ × ℕ)
  uv_row src dst zero x = []
  uv_row src dst (suc n) x =
      let b = bgrx (src + x * 4) in
      let g = bgrx (src + x * 4 + 1) in
      let r = bgrx (src + x * 4 + 2) in
      (dst + x, cb b g r) ∷ (dst + x + 1, cr b g r) ∷ uv_row src dst n (x + 2)

  module _ (width height stride : ℕ) where
    -- The pair of every second row.
    unfoldable pub uv_part : ℕ → List (ℕ × ℕ)
    unfolding uv_row
    uv_part y =
        if (y % 2 == 0) && ltb (y / 2) (height / 2)
        then uv_row (y * stride) (width * height + y / 2 * width) ((width + 1) / 2) 0
        else []

    -- The rows from `y` on.
    unfoldable pub convert_rows : ℕ → ℕ → List (ℕ × ℕ)
    unfolding y_row uv_part
    convert_rows zero y = []
    convert_rows (suc n) y =
        y_row (y * stride) (y * width) width 0 ++ (uv_part y ++ convert_rows n (y + 1))

    unfoldable pub convert : List (ℕ × ℕ)
    unfolding convert_rows
    convert = convert_rows height 0
