-- ===== src/Colour/Ranges.antt =====
-- The samples of the conversion stay in the limited range of BT.601.
use display_bridge.Prelude.{ℕ, ◌≤◌, ◌<◌, ◌≡◌, arith}
use display_bridge.Prelude.Int.{pos}
use display_bridge.Colour.{luma, cb, cr, cb_value, cr_value, shift_right_8, to_u8}

-- For bytes the three samples are in the limited range, 16 to 235 for Y and 16 to 240 for Cb and
-- Cr, and the casts to `uint8_t` lose nothing.
pub limited_range :
    (b g r : ℕ)
    → b < 256
    → g < 256
    → r < 256
    → ((16 ≤ luma b g r) × (luma b g r ≤ 235))
      × ((16 ≤ cb b g r) × (cb b g r ≤ 240) × (cb_value b g r ≡ pos (cb b g r)))
      × ((16 ≤ cr b g r) × (cr b g r ≤ 240) × (cr_value b g r ≡ pos (cr b g r)))
unfolding luma cb cr cb_value cr_value shift_right_8 to_u8
limited_range b g r hb hg hr = (ground arith, ground arith, ground arith)
