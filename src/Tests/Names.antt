-- ===== src/Tests/Names.antt =====
-- A network on which the first name is taken.
use display_bridge.Prelude.{
  none, true, ℕ, ◌≡◌, refl, Bool, false, some, List, [], ◌∷◌, ◌++◌, ltb, length, arith,
}
use display_bridge.Calls.{run}
use display_bridge.Calls.Observer.{follow}
use display_bridge.Discovery.{client_failure, Discovery, s_running, collision}
use display_bridge.Discovery.Rules.{watch, discovery_holds}
use display_bridge.Discovery.Service.{create_service, discovery_start}
use display_bridge.Discovery.Naming.{good_ending, create_service_lem}
use display_bridge.Discovery.Lifetime.{
  Callback, client_state, group_state, held_by, life, life_lifetime,
}

abbrev first_six : ℕ → Bool
first_six n = ltb n 6

-- The names are taken that are shorter than five bytes, and an alternative has one byte more.
abbrev short : List ℕ → Bool
short name = ltb (length name) 5

abbrev longer : List ℕ → List ℕ
longer name = name ++ (50 ∷ [])

abbrev announced : Discovery
announced = record { name = 97 ∷ 98 ∷ 99 ∷ []; port = 7878; has_group = false }

create_service_lem_example :
    let r = run first_six (create_service short longer 4 announced) in
    (good_ending short true r.value.ending r.value.discovery.name ≡ true)
    × (follow watch (some (discovery_holds false false)) r.trace
        ≡ some (discovery_holds false r.value.discovery.has_group))
create_service_lem_example =
    create_service_lem first_six short longer false 4 2 announced (omega arith) refl

abbrev some_callbacks : List Callback
some_callbacks = client_state s_running ∷ group_state collision ∷ []

life_lifetime_example :
    let started = run first_six (discovery_start short longer 4 announced.name 7878 s_running) in
    let lived = run first_six (life short longer 4 announced.name 7878 s_running some_callbacks) in
    (follow watch (some []) started.trace ≡ some (held_by started.value))
    × (follow watch (some []) lived.trace ≡ some [])
life_lifetime_example =
    life_lifetime first_six short longer 4 announced.name 7878 s_running some_callbacks
      (ground arith)

abbrev always : ℕ → Bool
always n = true

-- A failure that `avahi_client_new` reports itself makes the callback quit a thread that does not
-- run yet.
quits_early :
    follow watch
      (some [])
      (run always (discovery_start short longer 4 announced.name 7878 client_failure)).trace
    ≡ none
unfolding follow run discovery_start
quits_early = refl
