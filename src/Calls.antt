-- ===== src/Calls.antt =====
-- Code of ubuntu/src that calls libraries of which only the answers matter, success or failure: a
-- tree with the calls in the order of the code and a branch for every answer.
pub mod Observer
pub mod Held
use display_bridge.Prelude.{ℕ, ◌+◌, Bool, true, false, List, [], ◌∷◌}

pub data Calls {ℓ} (C : Type 0) (A : Type ℓ) : Type ℓ where
  done : A → Calls C A
  -- A call whose answer the code does not read.
  tell : C → Calls C A → Calls C A
  -- A call that succeeds or fails.
  ask : C → (Bool → Calls C A) → Calls C A

infixl 10 ◌>>=◌
unfoldable pub ◌>>=◌ {ℓ κ} :
    {C : Type 0} {A : Type ℓ} {B : Type κ} → Calls C A → (A → Calls C B) → Calls C B
done a >>= f = f a
tell c p >>= f = tell c (p >>= f)
ask c k >>= f = ask c λ b. k b >>= f

-- What a run does, and what its caller gets.
pub record Run {ℓ} (C : Type 0) (A : Type ℓ) : Type ℓ where
  pub value : A
  pub trace : List (C × Bool)

abbrev pub after {ℓ} : {C : Type 0} {A : Type ℓ} → C → Bool → Run C A → Run C A
after c b r = record { value = r.value; trace = (c, b) ∷ r.trace }

-- The run in which the libraries answer the calls that are asked as `answers` says.
unfoldable pub run {ℓ} : {C : Type 0} {A : Type ℓ} → (ℕ → Bool) → Calls C A → Run C A
run answers (done a) = record { value = a; trace = [] }
run answers (tell c p) = after c true (run answers p)
run answers (ask c k) = after c (answers 0) (run (λ n. answers (n + 1)) (k (answers 0)))

-- A test of an answer: where to go when the call fails.
unfoldable pub check {ℓ} : {C : Type 0} {A : Type ℓ} → C → Calls C A → Calls C A → Calls C A
check c failed next = ask c λ ok. elim ok [ true ↦ next | false ↦ failed ]

-- A call that is made if there is something to release.
abbrev pub where_held {ℓ} : {C : Type 0} {A : Type ℓ} → Bool → C → Calls C A → Calls C A
where_held true c next = tell c next
where_held false c next = next

-- What follows a call that may fail, and what follows if it did.
unfoldable pub or_else {ℓ} :
    {C : Type 0} {A : Type ℓ} → Calls C Bool → Calls C A → Calls C A → Calls C A
unfolding ◌>>=◌
or_else p failed next = p >>= λ ok. elim ok [ true ↦ next | false ↦ failed ]
