-- ===== src/Tests/Nals.antt =====
-- Emulation prevention on runs of zero bytes.
use display_bridge.Prelude.{ℕ, ◌+◌, ◌-◌, ◌/◌, ◌≤◌, ◌≡◌, refl, List, [], ◌∷◌, length, replicate}
use display_bridge.Nal.{add_emulation_prevention, escape_loop}
use display_bridge.Nal.Escape.{
  unescape, unescape-add_emulation_prevention, add_emulation_prevention_no_start_code,
  length-add_emulation_prevention-zeros,
}

abbrev source : List ℕ
source = 0 ∷ 0 ∷ 1 ∷ []

unescape-add_emulation_prevention_example : unescape (add_emulation_prevention source) ≡ source
unescape-add_emulation_prevention_example = unescape-add_emulation_prevention source

add_emulation_prevention_no_start_code_example : 3 ≤ 3
unfolding add_emulation_prevention escape_loop
add_emulation_prevention_no_start_code_example =
    add_emulation_prevention_no_start_code source [] (1 ∷ []) 3 refl

length-add_emulation_prevention-zeros_example :
    (length (add_emulation_prevention source) ≤ length (add_emulation_prevention (replicate 3 0)))
    × (length (add_emulation_prevention (replicate 3 0)) ≡ 3 + (3 - 1) / 2)
length-add_emulation_prevention-zeros_example = length-add_emulation_prevention-zeros source

-- Ten bytes for seven are more than four thirds.
ten_for_seven : length (add_emulation_prevention (replicate 7 0)) ≡ 10
unfolding add_emulation_prevention
ten_for_seven = refl
