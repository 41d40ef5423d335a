-- ===== src/Calls/Observer.antt =====
-- An observer of the calls, who keeps a state and gives up at a call that breaks the rules of the
-- library, and a test of a whole tree: it goes through every answer at once.
use display_bridge.Prelude.{
  ℕ, ◌+◌, ◌≡◌, refl, Bool, true, false, ◌&&◌, Option, none, some, List, [], ◌∷◌, arith, and_both,
}
use display_bridge.Calls.{Calls, done, tell, ask, ◌>>=◌, Run, run}

module _ {S C : Type 0} (watch : S → C → Bool → Option S) where
  abbrev pub follow : Option S → List (C × Bool) → Option S
  follow none es = none
  follow (some s) [] = some s
  follow (some s) (e ∷ es) = follow (watch s e.0 e.1) es

  -- Along every path the observer does not give up, and at the end the test holds.
  abbrev pub safe {ℓ} : {A : Type ℓ} → Option S → Calls C A → (A → S → Bool) → Bool
  safe none p q = false
  safe (some s) (done a) q = q a s
  safe (some s) (tell c p) q = safe (watch s c true) p q
  safe (some s) (ask c k) q = safe (watch s c true) (k true) q && safe (watch s c false) (k false) q

  -- What `safe` says of a run: the state of the observer at the end.
  pub record Passes {ℓ} {A : Type ℓ} (o : Option S) (r : Run C A) (q : A → S → Bool) : Type ℓ where
    pub final : S
    pub followed : follow o r.trace ≡ some final
    pub tested : q r.value final ≡ true

  -- The branch of the answer that is given.
  branch {ℓ} :
      {A : Type ℓ} (s : S) (c : C) (k : Bool → Calls C A) (q : A → S → Bool) (b : Bool)
      → safe (some s) (ask c k) q ≡ true
      → safe (watch s c b) (k b) q ≡ true
  branch s c k q true h = (and_both _ _ h).0
  branch s c k q false h = (and_both _ _ h).1

  -- A test that passes speaks of every run.
  pub safe-run {ℓ} :
      {A : Type ℓ} (o : Option S) (p : Calls C A) (q : A → S → Bool) (answers : ℕ → Bool)
      → safe o p q ≡ true
      → Passes o (run answers p) q
  unfolding run
  safe-run none p q answers h = ground arith
  safe-run (some s) (done a) q answers h = record { final = s; followed = refl; tested = h }
  safe-run (some s) (tell c p) q answers h =
      let rest = safe-run (watch s c true) p q answers h in
      record { final = rest.final; followed = rest.followed; tested = rest.tested }
  safe-run (some s) (ask c k) q answers h =
      let rest =
        safe-run (watch s c (answers 0)) (k (answers 0)) q (λ n. answers (n + 1))
          (branch s c k q (answers 0) h) in
      record { final = rest.final; followed = rest.followed; tested = rest.tested }

  -- A call that passes one test may be followed by one that passes from wherever it ends.
  pub safe-bind {ℓ κ} :
      {A : Type ℓ} {B : Type κ} (o : Option S) (p : Calls C A) (f : A → Calls C B)
      (q : A → S → Bool) (r : B → S → Bool)
      → ((a : A) (s : S) → q a s ≡ true → safe (some s) (f a) r ≡ true)
      → safe o p q ≡ true
      → safe o (p >>= f) r ≡ true
  unfolding ◌>>=◌
  safe-bind none p f q r next h = ground arith
  safe-bind (some s) (done a) f q r next h = next a s h
  safe-bind (some s) (tell c p) f q r next h = safe-bind (watch s c true) p f q r next h
  safe-bind (some s) (ask c k) f q r next h =
      rw
        (
          safe-bind (watch s c true) (k true) f q r next (branch s c k q true h),
          safe-bind (watch s c false) (k false) f q r next (branch s c k q false h),
        )
        refl
