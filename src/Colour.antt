-- ===== src/Colour.antt =====
-- The colour conversion of `db_encoder_encode_bgrx` in ubuntu/src/encoder.c, for one pixel. `>> 8`
-- of a negative `int` is the arithmetic shift.
pub mod Ranges
pub mod Picture
pub mod Plane
pub mod Conversion
use display_bridge.Prelude.{ℕ, ◌+◌, ◌-◌, ◌*◌, ◌/◌, ◌%◌, ◌>>>◌, u8}
use display_bridge.Prelude.Int.{ℤ, pos, negsuc, sub_ℕ, ◌+ℤ◌}

-- `x >> 8`
unfoldable pub shift_right_8 : ℤ → ℤ
shift_right_8 (pos n) = pos (n >>> 8)
shift_right_8 (negsuc n) = negsuc (n >>> 8)

-- `(uint8_t)x`
unfoldable pub to_u8 : ℤ → ℕ
to_u8 (pos n) = u8 n
to_u8 (negsuc n) = 255 - n % 256

-- A byte of the Y plane.
unfoldable pub luma : ℕ → ℕ → ℕ → ℕ
luma b g r = u8 (((66 * r + 129 * g + 25 * b + 128) >>> 8) + 16)

-- The values before the cast of the two bytes of the UV plane.
unfoldable pub cb_value : ℕ → ℕ → ℕ → ℤ
unfolding shift_right_8
cb_value b g r = shift_right_8 (sub_ℕ (112 * b + 128) (38 * r + 74 * g)) +ℤ pos 128

unfoldable pub cr_value : ℕ → ℕ → ℕ → ℤ
unfolding shift_right_8
cr_value b g r = shift_right_8 (sub_ℕ (112 * r + 128) (94 * g + 18 * b)) +ℤ pos 128

unfoldable pub cb : ℕ → ℕ → ℕ → ℕ
unfolding cb_value to_u8
cb b g r = to_u8 (cb_value b g r)

unfoldable pub cr : ℕ → ℕ → ℕ → ℕ
unfolding cr_value to_u8
cr b g r = to_u8 (cr_value b g r)
