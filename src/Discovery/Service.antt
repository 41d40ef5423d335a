-- ===== src/Discovery/Service.antt =====
-- The functions of ubuntu/src/discovery.c.
use display_bridge.Prelude.{ℕ, zero, suc, Bool, true, false, Option, none, some, List, u16}
use display_bridge.Calls.{Calls, done, tell, check, ◌>>=◌}
use display_bridge.Discovery.{
  ClientState, s_running, s_collision, s_registering, client_failure, connecting, GroupState,
  established, collision, group_failure, uncommited, registering, Discovery, AvahiCall,
  calloc_discovery, free_discovery, strdup_name, alternative_name, free_name, poll_new, poll_free,
  poll_start, poll_stop, poll_quit, client_new, client_free, group_new, group_is_empty, group_reset,
  group_commit, add_service, committed, left, no_fuel, Created, ended,
}

-- The group, made if needed.
abbrev pub with_group :
    Bool → Calls AvahiCall Created → Calls AvahiCall Created → Calls AvahiCall Created
with_group true failed next = next
with_group false failed next = check group_new failed next

abbrev pub grouped : Discovery → Discovery
grouped d = record d { has_group = true }

-- The end of the clean-up of `db_discovery_start`.
abbrev pub free_all : Calls AvahiCall (Option Discovery)
free_all = tell poll_free (tell free_name (tell free_discovery (done none)))

module _ (taken : List ℕ → Bool) (alternative : List ℕ → List ℕ) where
  abbrev pub renamed : Discovery → Discovery
  renamed d = record d { name = alternative d.name }

  -- What follows `avahi_entry_group_add_service`: whether the name collides, and the call for the
  -- alternative.
  abbrev pub after_add : Bool → Calls AvahiCall Created → Discovery → Calls AvahiCall Created
  after_add true again d =
      tell (add_service d.name (u16 d.port))
        (tell alternative_name (tell free_name (tell group_reset again)))
  after_add false again d =
      check (add_service d.name (u16 d.port)) (ended left d)
        (check group_commit (ended left d) (ended committed d))

  -- `create_service`, which calls itself for every collision; the fuel counts the names.
  unfoldable pub create_service : ℕ → Discovery → Calls AvahiCall Created
  unfolding check
  create_service zero d = ended no_fuel d
  create_service (suc fuel) d = with_group d.has_group (ended left d) (
      check group_is_empty (ended left (grouped d))
        (after_add (taken d.name) (create_service fuel (renamed (grouped d))) (grouped d)))

  module _ (fuel : ℕ) where
    -- `entry_group_callback`
    unfoldable pub entry_group_callback : GroupState → Discovery → Calls AvahiCall Created
    unfolding create_service
    entry_group_callback collision d =
        tell alternative_name (tell free_name (create_service fuel (renamed d)))
    entry_group_callback established d = ended left d
    entry_group_callback group_failure d = ended left d
    entry_group_callback uncommited d = ended left d
    entry_group_callback registering d = ended left d

    abbrev pub reset_group : Bool → Calls AvahiCall Created → Calls AvahiCall Created
    reset_group true next = tell group_reset next
    reset_group false next = next

    -- `client_callback`
    unfoldable pub client_callback : ClientState → Discovery → Calls AvahiCall Created
    unfolding create_service
    client_callback s_running d = create_service fuel d
    client_callback s_collision d = reset_group d.has_group (ended left d)
    client_callback s_registering d = reset_group d.has_group (ended left d)
    client_callback client_failure d = tell poll_quit (ended left d)
    client_callback connecting d = ended left d

    -- From `avahi_client_new` on, which calls `client_callback` once before it returns.
    unfoldable pub open_client : ClientState → Discovery → Calls AvahiCall (Option Discovery)
    unfolding check client_callback ◌>>=◌
    open_client first d = check client_new free_all (
        client_callback first d >>= λ r.
        check poll_start (tell client_free free_all) (done (some r.discovery)))

    -- `db_discovery_start`, with the bytes of `SERVICE_NAME`; `none` is `NULL`.
    unfoldable pub discovery_start : List ℕ → ℕ → ClientState → Calls AvahiCall (Option Discovery)
    unfolding check open_client
    discovery_start service_name port first = check calloc_discovery (done none) (
        check strdup_name (tell free_discovery (done none)) (
          check poll_new (tell free_name (tell free_discovery (done none)))
            (open_client first (record { name = service_name; port = port; has_group = false }))))

-- `db_discovery_stop`
unfoldable pub discovery_stop : Calls AvahiCall Bool
discovery_stop =
    tell poll_stop
      (tell client_free (tell poll_free (tell free_name (tell free_discovery (done true)))))
