-- ===== src/Headers/Align.antt =====
-- `ALIGN` to the coding tree unit.
use display_bridge.Prelude.{
  ℕ, ◌+◌, ◌-◌, ◌*◌, ◌/◌, ◌%◌, ◌^◌, ◌≤◌, ◌<◌, ◌≡◌, ap, ◌∙◌, arith, bit_and, bit_and-mul-two-pow,
  bit_and_mask,
}
use display_bridge.Headers.{align_ctu, hevc_ctu_size}

align_ctu-eq : (x : ℕ) → x < 2 ^ 31 - 64 → align_ctu x ≡ (x + 63) / 64 * 64
unfolding align_ctu
align_ctu-eq x h =
    ap (λ (t : ℕ). bit_and t (2 ^ 32 - 64)) (omega arith)
    ∙ bit_and-mul-two-pow 6 (x + 63) (2 ^ 26 - 1)
    ∙ ap (λ (t : ℕ). t * 64) (bit_and_mask 26 ((x + 63) / 64) ∙ omega arith)

-- `ALIGN` is the least multiple of 64 that is not below its argument, as long as the `int` does not
-- overflow.
pub align_ctu_lem :
    (x : ℕ)
    → x < 2 ^ 31 - 64
    → (align_ctu x % hevc_ctu_size ≡ 0) × (x ≤ align_ctu x) × (align_ctu x < x + hevc_ctu_size)
align_ctu_lem x h = omega (arith, align_ctu-eq x h)
