-- ===== src/Discovery/Naming.antt =====
-- How `create_service` finds a name, and what it leaves.
use mathlib.Core.Bool.{false≢true}
use display_bridge.Prelude.{
  ◌⊎◌, ◌≢◌, ℕ, zero, suc, ◌<◌, ◌≡◌, refl, ap, ◌∙◌, arith, Bool, true, false, not, ◌&&◌, some, List,
  Bool-cases, inl, inr, and_both,
}
use display_bridge.Calls.{Calls, tell, check, run}
use display_bridge.Calls.Held.{same_held→≡}
use display_bridge.Calls.Observer.{safe, follow, safe-run}
use display_bridge.Discovery.{
  Discovery, AvahiCall, group_is_empty, alternative_name, free_name, poll_quit, Ending, committed,
  left, no_fuel, Created, ended, ClientState, s_running, s_collision, s_registering, client_failure,
  connecting, GroupState, established, collision, group_failure, uncommited, registering,
}
use display_bridge.Discovery.Rules.{resources, Resource, watch, discovery_holds, same}
use display_bridge.Discovery.Service.{
  grouped, renamed, with_group, after_add, reset_group, create_service, entry_group_callback,
  client_callback,
}

-- The name after that many collisions.
abbrev pub nth_name : (List ℕ → List ℕ) → ℕ → List ℕ → List ℕ
nth_name alternative zero name = name
nth_name alternative (suc k) name = nth_name alternative k (alternative name)

module _ (taken : List ℕ → Bool) where
  -- An ending with fuel for a free name, or without: a name that is committed is free, and with the
  -- fuel it does not run out.
  abbrev pub good_ending : Bool → Ending → List ℕ → Bool
  good_ending fuelled committed name = not (taken name)
  good_ending fuelled left name = true
  good_ending fuelled no_fuel name = not fuelled

  abbrev pub created_test : Bool → Bool → Created → List Resource → Bool
  created_test thread fuelled r t =
      same t (discovery_holds thread r.discovery.has_group)
      && good_ending fuelled r.ending r.discovery.name

pub same_holds :
    (thread has_group : Bool)
    → same (discovery_holds thread has_group) (discovery_holds thread has_group) ≡ true
same_holds true true = refl
same_holds true false = refl
same_holds false true = refl
same_holds false false = refl

-- Without a thread and with it, the calls are allowed alike.
module _ (taken : List ℕ → Bool) (alternative : List ℕ → List ℕ) (fuelled : Bool) where
  after_add-safe :
      (thread t : Bool) (again : Calls AvahiCall Created) (d : Discovery)
      → taken d.name ≡ t
      → (t ≡ true
          → safe watch
              (some (discovery_holds thread true))
              again
              (created_test taken thread fuelled)
            ≡ true)
      → safe watch
          (some (discovery_holds thread true))
          (after_add taken alternative t again (grouped d))
          (created_test taken thread fuelled)
        ≡ true
  unfolding check
  after_add-safe true true again d e h = h refl
  after_add-safe false true again d e h = h refl
  after_add-safe true false again d e h = rw e refl
  after_add-safe false false again d e h = rw e refl

  with_group-safe :
      (thread has_group : Bool) (next : Calls AvahiCall Created) (d : Discovery)
      → safe watch (some (discovery_holds thread true)) next (created_test taken thread fuelled)
        ≡ true
      → safe watch
          (some (discovery_holds thread has_group))
          (with_group has_group
            (ended left (record d { has_group = has_group }))
            (check group_is_empty (ended left (grouped d)) next))
          (created_test taken thread fuelled)
        ≡ true
  unfolding check
  with_group-safe true true next d h = rw h refl
  with_group-safe true false next d h = rw h refl
  with_group-safe false true next d h = rw h refl
  with_group-safe false false next d h = rw h refl

  -- The last name that is tried is free.
  abbrev pub Enough : ℕ → List ℕ → Type 0
  Enough fuel name =
      fuelled ≡ true → (k : ℕ) × (k < fuel) × (taken (nth_name alternative k name) ≡ false)

  next-Enough :
      (fuel : ℕ) (name : List ℕ)
      → Enough (suc fuel) name
      → taken name ≡ true
      → Enough fuel (alternative name)
  next-Enough fuel name h e f = go (h f)
    where
      go :
          (k : ℕ) × (k < suc fuel) × (taken (nth_name alternative k name) ≡ false)
          → (k : ℕ) × (k < fuel) × (taken (nth_name alternative k (alternative name)) ≡ false)
      go (zero, l, free) = ground (arith, e, free)
      go (suc k, l, free) = (k, omega arith, free)

  none_below :
      {name : List ℕ} → (k : ℕ) × (k < 0) × (taken (nth_name alternative k name) ≡ false) → ⊥
  none_below (k, l, free) = omega arith

  pub create_service-safe :
      (thread : Bool) (fuel : ℕ) (d : Discovery)
      → Enough fuel d.name
      → safe watch
          (some (discovery_holds thread d.has_group))
          (create_service taken alternative fuel d)
          (created_test taken thread fuelled)
        ≡ true
  unfolding create_service
  create_service-safe thread zero d h = elim (Bool-cases fuelled) [
    | inl e ↦ absurd (none_below (h e))
    | inr e ↦ rw (e, same_holds thread d.has_group) refl
  ]
  create_service-safe thread (suc fuel) d h = with_group-safe thread d.has_group _ d (
      after_add-safe thread (taken d.name) _ d refl λ e.
        create_service-safe thread fuel (renamed taken alternative (grouped d))
          (next-Enough fuel d.name h e))

  good_ending-left :
      (thread : Bool) (d : Discovery)
      → created_test taken thread fuelled
          (record { ending = left; discovery = d })
          (discovery_holds thread d.has_group)
        ≡ true
  good_ending-left thread d = rw (same_holds thread d.has_group) refl

  reset_group-safe :
      (thread has_group : Bool) (d : Discovery)
      → safe watch
          (some (discovery_holds thread has_group))
          (reset_group taken alternative zero has_group
            (ended left (record d { has_group = has_group })))
          (created_test taken thread fuelled)
        ≡ true
  reset_group-safe true true d = refl
  reset_group-safe true false d = refl
  reset_group-safe false true d = refl
  reset_group-safe false false d = refl

  -- In the thread.
  quit-safe :
      (has_group : Bool) (d : Discovery)
      → safe watch
          (some (discovery_holds true has_group))
          (tell poll_quit (ended left (record d { has_group = has_group })))
          (created_test taken true fuelled)
        ≡ true
  quit-safe true d = refl
  quit-safe false d = refl

  rename-safe :
      (thread has_group : Bool) (next : Calls AvahiCall Created)
      → safe watch
          (some (discovery_holds thread has_group))
          next
          (created_test taken thread fuelled)
        ≡ true
      → safe watch
          (some (discovery_holds thread has_group))
          (tell alternative_name (tell free_name next))
          (created_test taken thread fuelled)
        ≡ true
  rename-safe true true next h = h
  rename-safe true false next h = h
  rename-safe false true next h = h
  rename-safe false false next h = h

  -- A failure of the client is reported to the thread.
  pub client_callback-safe :
      (thread : Bool) (fuel : ℕ) (state : ClientState) (d : Discovery)
      → (thread ≡ true) ⊎ (state ≢ client_failure)
      → Enough fuel d.name
      → safe watch
          (some (discovery_holds thread d.has_group))
          (client_callback taken alternative fuel state d)
          (created_test taken thread fuelled)
        ≡ true
  unfolding client_callback
  client_callback-safe thread fuel s_running d reported h = create_service-safe thread fuel d h
  client_callback-safe thread fuel s_collision d reported h = reset_group-safe thread d.has_group d
  client_callback-safe thread fuel s_registering d reported h =
      reset_group-safe thread d.has_group d
  client_callback-safe true fuel client_failure d reported h = quit-safe d.has_group d
  client_callback-safe false fuel client_failure d (inl e) h = absurd (false≢true e)
  client_callback-safe false fuel client_failure d (inr e) h = absurd (e refl)
  client_callback-safe thread fuel connecting d reported h = good_ending-left thread d

  pub entry_group_callback-safe :
      (thread : Bool) (fuel : ℕ) (state : GroupState) (d : Discovery)
      → Enough fuel (alternative d.name)
      → safe watch
          (some (discovery_holds thread d.has_group))
          (entry_group_callback taken alternative fuel state d)
          (created_test taken thread fuelled)
        ≡ true
  unfolding entry_group_callback
  entry_group_callback-safe thread fuel collision d h =
      rename-safe thread d.has_group _
        (create_service-safe thread fuel (renamed taken alternative d) h)
  entry_group_callback-safe thread fuel established d h = good_ending-left thread d
  entry_group_callback-safe thread fuel group_failure d h = good_ending-left thread d
  entry_group_callback-safe thread fuel uncommited d h = good_ending-left thread d
  entry_group_callback-safe thread fuel registering d h = good_ending-left thread d

-- Whatever Avahi answers to `create_service` otherwise, if one of the names that it would try before
-- the fuel is used up is free, then it ends: the recursion stops by itself, every call keeps the
-- rules of Avahi, each name is freed but the last one, and a service that is committed has a name
-- that nobody else uses.
pub create_service_lem :
    (answers : ℕ → Bool) (taken : List ℕ → Bool) (alternative : List ℕ → List ℕ) (thread : Bool)
    (fuel k : ℕ) (d : Discovery)
    → k < fuel
    → taken (nth_name alternative k d.name) ≡ false
    → let r = run answers (create_service taken alternative fuel d) in
      (good_ending taken true r.value.ending r.value.discovery.name ≡ true)
      × (follow watch (some (discovery_holds thread d.has_group)) r.trace
          ≡ some (discovery_holds thread r.value.discovery.has_group))
create_service_lem answers taken alternative thread fuel k d l free =
    let p =
      safe-run watch (some (discovery_holds thread d.has_group))
        (create_service taken alternative fuel d) (created_test taken thread true) answers
        (create_service-safe taken alternative true thread fuel d λ e. (k, l, free)) in
    let v = (run answers (create_service taken alternative fuel d)).value in
    let both =
      and_both (same p.final (discovery_holds thread v.discovery.has_group))
        (good_ending taken true v.ending v.discovery.name) p.tested in
    (both.1, p.followed ∙ ap some (same_held→≡ resources p.final _ both.0))
