-- ===== src/Calls/Held.antt =====
-- What is held of a library: handles by their names, the last one acquired first.
use display_bridge.Prelude.{
  ℕ, ◌≡◌, refl, sym, ap, ap₂, ◌∙◌, Bool, true, false, ◌&&◌, ◌||◌, Option, none, some, List, [], ◌∷◌,
  ◌==◌, ==_iff, if◌then◌else◌, arith, and_both,
}

-- Names that are told apart by their numbers.
pub record Named (H : Type 0) : Type 0 where
  pub number : H → ℕ
  pub name : ℕ → H
  pub name-number : (h : H) → name (number h) ≡ h

module _ {H : Type 0} (names : Named H) where
  abbrev pub is_held : H → List H → Bool
  is_held h [] = false
  is_held h (x ∷ xs) = names.number h == names.number x || is_held h xs

  abbrev pub all_held : List H → List H → Bool
  all_held [] xs = true
  all_held (h ∷ hs) xs = is_held h xs && all_held hs xs

  abbrev pub drop_held : H → List H → List H
  drop_held h [] = []
  drop_held h (x ∷ xs) =
      let rest = drop_held h xs in if names.number h == names.number x then xs else x ∷ rest

  -- Nothing is acquired under a name in use, and nothing is released that is not held.
  abbrev pub acquire : H → List H → Option (List H)
  acquire h xs = if is_held h xs then none else some (h ∷ xs)

  abbrev pub release : H → List H → Option (List H)
  release h xs = if is_held h xs then some (drop_held h xs) else none

  abbrev pub same_held : List H → List H → Bool
  same_held [] [] = true
  same_held [] (y ∷ ys) = false
  same_held (x ∷ xs) [] = false
  same_held (x ∷ xs) (y ∷ ys) = names.number x == names.number y && same_held xs ys

  number_inj : (a b : H) → names.number a ≡ names.number b → a ≡ b
  number_inj a b e = sym (names.name-number a) ∙ ap names.name e ∙ names.name-number b

  pub same_held→≡ : (xs ys : List H) → same_held xs ys ≡ true → xs ≡ ys
  same_held→≡ [] [] h = refl
  same_held→≡ [] (y ∷ ys) h = ground arith
  same_held→≡ (x ∷ xs) [] h = ground arith
  same_held→≡ (x ∷ xs) (y ∷ ys) h =
      let both = and_both (names.number x == names.number y) (same_held xs ys) h in
      ap₂ (λ a l. a ∷ l) (number_inj x y ((==_iff (names.number x) (names.number y)).0 both.0))
        (same_held→≡ xs ys both.1)
