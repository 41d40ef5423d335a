-- ===== src/Discovery/Lifetime.antt =====
-- A whole life of the discovery: its start, the callbacks of its thread, and its stop.
use mathlib.Core.Bool.{false≢true}
use display_bridge.Prelude.{
  ℕ, ◌≡◌, ◌≢◌, inl, inr, refl, sym, subst, ap, ◌∙◌, Bool, true, false, Option, none, some, List, [],
  ◌∷◌, and_both,
}
use display_bridge.Calls.{Calls, done, tell, check, run, ◌>>=◌}
use display_bridge.Calls.Held.{same_held→≡}
use display_bridge.Calls.Observer.{safe, follow, safe-run, safe-bind}
use display_bridge.Discovery.{
  client_failure, Discovery, AvahiCall, client_free, poll_start, Created, ClientState, GroupState,
}
use display_bridge.Discovery.Rules.{resources, Resource, watch, discovery_holds, same}
use display_bridge.Discovery.Service.{
  client_callback, entry_group_callback, open_client, discovery_start, discovery_stop, free_all,
}
use display_bridge.Discovery.Naming.{
  created_test, client_callback-safe, entry_group_callback-safe, good_ending, same_holds,
}

-- The callbacks that the thread runs.
pub data Callback : Type 0 where
  client_state : ClientState → Callback
  group_state : GroupState → Callback

abbrev holds_now : Discovery → List Resource → Bool
holds_now d t = same t (discovery_holds true d.has_group)

abbrev pub held_by : Option Discovery → List Resource
held_by none = []
held_by (some d) = discovery_holds true d.has_group

abbrev start_test : Option Discovery → List Resource → Bool
start_test o t = same t (held_by o)

module _ (taken : List ℕ → Bool) (alternative : List ℕ → List ℕ) (fuel : ℕ) where
  abbrev pub callback : Callback → Discovery → Calls AvahiCall Created
  callback (client_state state) d = client_callback taken alternative fuel state d
  callback (group_state state) d = entry_group_callback taken alternative fuel state d

  -- The callbacks, one after the other, as the thread runs them.
  unfoldable pub callbacks : List Callback → Discovery → Calls AvahiCall Discovery
  unfolding ◌>>=◌
  callbacks [] d = done d
  callbacks (c ∷ cs) d = callback c d >>= λ r. callbacks cs r.discovery

  -- If it has started.
  abbrev pub from_start : Option Discovery → List Callback → Calls AvahiCall Bool
  from_start none cs = done false
  from_start (some d) cs = callbacks cs d >>= λ last. discovery_stop

  -- A life: if the discovery starts, the callbacks run until it stops.
  unfoldable pub life : List ℕ → ℕ → ClientState → List Callback → Calls AvahiCall Bool
  unfolding discovery_start discovery_stop callbacks ◌>>=◌
  life service_name port first cs =
      discovery_start taken alternative fuel service_name port first >>= λ o. from_start o cs

  callback-safe :
      (c : Callback) (d : Discovery)
      → safe watch
          (some (discovery_holds true d.has_group))
          (callback c d)
          (created_test taken true false)
        ≡ true
  callback-safe (client_state state) d =
      client_callback-safe taken alternative false true fuel state d (inl refl)
        λ e. absurd (false≢true e)
  callback-safe (group_state state) d =
      entry_group_callback-safe taken alternative false true fuel state d λ e. absurd (false≢true e)

  callbacks-safe :
      (cs : List Callback) (d : Discovery)
      → safe watch (some (discovery_holds true d.has_group)) (callbacks cs d) holds_now ≡ true
  unfolding callbacks
  callbacks-safe [] d = same_holds true d.has_group
  callbacks-safe (c ∷ cs) d =
      safe-bind watch (some (discovery_holds true d.has_group)) (callback c d) _
        (created_test taken true false) holds_now
        (λ r t e.
          let both =
            and_both (same t (discovery_holds true r.discovery.has_group))
              (good_ending taken false r.ending r.discovery.name) e in
          subst (λ u. safe watch (some u) (callbacks cs r.discovery) holds_now ≡ true)
            (sym (same_held→≡ resources t _ both.0)) (callbacks-safe cs r.discovery))
        (callback-safe c d)

  opened-safe :
      (has_group : Bool) (d : Discovery)
      → safe watch
          (some (discovery_holds false has_group))
          (check poll_start
            (tell client_free free_all)
            (done (some (record d { has_group = has_group }))))
          start_test
        ≡ true
  unfolding check
  opened-safe true d = refl
  opened-safe false d = refl

  start-safe :
      (service_name : List ℕ) (port : ℕ) (first : ClientState)
      → first ≢ client_failure
      → safe watch
          (some [])
          (discovery_start taken alternative fuel service_name port first)
          start_test
        ≡ true
  unfolding discovery_start open_client check
  start-safe service_name port first no_failure =
      rw
        (safe-bind watch (some (discovery_holds false false))
          (client_callback taken alternative fuel first
            (record { name = service_name; port = port; has_group = false }))
          _ (created_test taken false false) start_test
          (λ r t e.
            let both =
              and_both (same t (discovery_holds false r.discovery.has_group))
                (good_ending taken false r.ending r.discovery.name) e in
            subst
              (λ u.
                safe watch (some u)
                  (check poll_start (tell client_free free_all) (done (some r.discovery)))
                  start_test
                ≡ true)
              (sym (same_held→≡ resources t _ both.0))
              (opened-safe r.discovery.has_group r.discovery))
          (client_callback-safe taken alternative false false fuel first
            (record { name = service_name; port = port; has_group = false }) (inr no_failure)
            λ e. absurd (false≢true e)))
        refl

  stop-safe :
      (has_group : Bool)
      → safe watch (some (discovery_holds true has_group)) discovery_stop (λ b t. same t []) ≡ true
  unfolding discovery_stop
  stop-safe true = refl
  stop-safe false = refl

  from_start-safe :
      (o : Option Discovery) (cs : List Callback)
      → safe watch (some (held_by o)) (from_start o cs) (λ b t. same t []) ≡ true
  from_start-safe none cs = refl
  from_start-safe (some d) cs =
      safe-bind watch (some (discovery_holds true d.has_group)) (callbacks cs d) _ holds_now
        (λ b t. same t [])
        (λ last t e.
          subst (λ u. safe watch (some u) discovery_stop (λ b t. same t []) ≡ true)
            (sym (same_held→≡ resources t _ e)) (stop-safe last.has_group))
        (callbacks-safe cs d)

  life-safe :
      (service_name : List ℕ) (port : ℕ) (first : ClientState) (cs : List Callback)
      → first ≢ client_failure
      → safe watch (some []) (life service_name port first cs) (λ b t. same t []) ≡ true
  unfolding life
  life-safe service_name port first cs no_failure =
      safe-bind watch (some []) (discovery_start taken alternative fuel service_name port first) _
        start_test (λ b t. same t [])
        (λ o t e.
          subst (λ u. safe watch (some u) (from_start o cs) (λ b t. same t []) ≡ true)
            (sym (same_held→≡ resources t _ e)) (from_start-safe o cs))
        (start-safe service_name port first no_failure)

-- Whatever Avahi answers, whichever names are taken, however many names each search may try, and
-- whatever callbacks run in whatever order, if the state that `avahi_client_new` itself reports is not
-- a failure, of which the callback would tell a thread that does not run yet: every call keeps the rules of Avahi. When `db_discovery_start` fails nothing is held; when it
-- succeeds it holds the discovery, its name, the poll with its thread, the client and perhaps a
-- group. After the callbacks and `db_discovery_stop` everything has been released, each once.
pub life_lifetime :
    (answers : ℕ → Bool) (taken : List ℕ → Bool) (alternative : List ℕ → List ℕ) (fuel : ℕ)
    (service_name : List ℕ) (port : ℕ) (first : ClientState) (cs : List Callback)
    → first ≢ client_failure
    → let started = run answers (discovery_start taken alternative fuel service_name port first) in
      let lived = run answers (life taken alternative fuel service_name port first cs) in
      (follow watch (some []) started.trace ≡ some (held_by started.value))
      × (follow watch (some []) lived.trace ≡ some [])
life_lifetime answers taken alternative fuel service_name port first cs no_failure =
    let p =
      safe-run watch (some []) (discovery_start taken alternative fuel service_name port first)
        start_test answers (start-safe taken alternative fuel service_name port first no_failure) in
    let q =
      safe-run watch (some []) (life taken alternative fuel service_name port first cs)
        (λ b t. same t []) answers
        (life-safe taken alternative fuel service_name port first cs no_failure) in
    (
      p.followed ∙ ap some (same_held→≡ resources p.final _ p.tested),
      q.followed ∙ ap some (same_held→≡ resources q.final [] q.tested),
    )
