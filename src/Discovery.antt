-- ===== src/Discovery.antt =====
-- The announcement of the sender over mDNS, ubuntu/src/discovery.c: what it asks of Avahi. Names are
-- strings of bytes; the names that others use on the network and the alternatives that Avahi
-- proposes are parameters.
pub mod Service
pub mod Rules
pub mod Naming
pub mod Lifetime
use display_bridge.Prelude.{ℕ, zero, suc, Bool, true, false, Option, none, some, List, u16}
use display_bridge.Calls.{Calls, done, tell, check, where_held, ◌>>=◌}

-- `AvahiClientState` and `AvahiEntryGroupState`.
pub data ClientState : Type 0 where
  s_running s_collision s_registering client_failure connecting : ClientState

pub data GroupState : Type 0 where
  established collision group_failure uncommited registering : GroupState

-- `struct db_discovery`; the client is there while there are callbacks.
pub record Discovery : Type 0 where
  pub name : List ℕ
  pub port : ℕ
  pub has_group : Bool

pub data AvahiCall : Type 0 where
  calloc_discovery free_discovery strdup_name alternative_name free_name : AvahiCall
  poll_new poll_free poll_start poll_stop poll_quit : AvahiCall
  client_new client_free : AvahiCall
  group_new group_is_empty group_reset group_commit : AvahiCall
  -- The name and the port; the type and the texts are always the same.
  add_service : List ℕ → ℕ → AvahiCall

-- How `create_service` ends: the service is committed; the group is not empty or a call fails; or,
-- which the code cannot do, there is no fuel for a further name.
pub data Ending : Type 0 where
  committed left no_fuel : Ending

pub record Created : Type 0 where
  pub ending : Ending
  pub discovery : Discovery

abbrev pub ended : Ending → Discovery → Calls AvahiCall Created
ended ending d = done (record { ending = ending; discovery = d })
