-- ===== src/Discovery/Rules.antt =====
-- The rules of Avahi for the calls of ubuntu/src/discovery.c, as an observer of them.
use display_bridge.Prelude.{
  ℕ, ◌≡◌, refl, Bool, true, false, Option, none, some, List, [], ◌∷◌, ◌++◌, if◌then◌else◌, get_or,
}
use display_bridge.Calls.Held.{Named, is_held, all_held, acquire, release, drop_held, same_held}
use display_bridge.Discovery.{
  AvahiCall, calloc_discovery, free_discovery, strdup_name, alternative_name, free_name, poll_new,
  poll_free, poll_start, poll_stop, poll_quit, client_new, client_free, group_new, group_is_empty,
  group_reset, group_commit, add_service,
}

-- `second_name` is an alternative while the name before it is still there.
pub data Resource : Type 0 where
  discovery first_name second_name poll client group running : Resource

abbrev number : Resource → ℕ
number discovery = 0
number first_name = 1
number second_name = 2
number poll = 3
number client = 4
number group = 5
number running = 6

abbrev name : ℕ → Resource
name n =
    get_or (discovery ∷ first_name ∷ second_name ∷ poll ∷ client ∷ group ∷ running ∷ []) n discovery

pub name-number : (r : Resource) → name (number r) ≡ r
name-number discovery = refl
name-number first_name = refl
name-number second_name = refl
name-number poll = refl
name-number client = refl
name-number group = refl
name-number running = refl

abbrev pub resources : Named Resource
resources = record { number = number; name = name; name-number = name-number }

abbrev needs : List Resource → List Resource → Option (List Resource) → Option (List Resource)
needs s rs o = if all_held resources rs s then o else none

abbrev lacks : List Resource → Resource → Option (List Resource) → Option (List Resource)
lacks s r o = if is_held resources r s then none else o

abbrev creates : List Resource → Resource → Bool → Option (List Resource)
creates s r true = acquire resources r s
creates s r false = some s

-- The group, which goes with the client, is kept at the end.
abbrev creates_last : List Resource → Resource → Bool → Option (List Resource)
creates_last s r true = lacks s r (some (s ++ (r ∷ [])))
creates_last s r false = some s

-- `avahi_threaded_poll_quit` is for the thread of the poll, so this has to run.
abbrev pub watch : List Resource → AvahiCall → Bool → Option (List Resource)
watch s calloc_discovery b = creates s discovery b
watch s free_discovery b = lacks s first_name (release resources discovery s)
watch s strdup_name b = creates s first_name b
watch s alternative_name b = needs s (first_name ∷ []) (acquire resources second_name s)
watch s free_name b =
    if is_held resources second_name s
    then release resources second_name s
    else release resources first_name s
watch s poll_new b = creates s poll b
watch s poll_free b = lacks s client (lacks s running (release resources poll s))
watch s poll_start b = needs s (poll ∷ []) (creates s running b)
watch s poll_stop b = release resources running s
watch s poll_quit b = needs s (running ∷ poll ∷ []) (some s)
watch s client_new b = needs s (poll ∷ []) (creates s client b)
watch s client_free b = lacks s running (release resources client (drop_held resources group s))
watch s group_new b = needs s (client ∷ []) (creates_last s group b)
watch s group_is_empty b = needs s (group ∷ []) (some s)
watch s group_reset b = needs s (group ∷ []) (some s)
watch s group_commit b = needs s (group ∷ []) (some s)
watch s (add_service service port) b = needs s (group ∷ first_name ∷ []) (some s)

-- What a discovery holds, while its thread runs or not, and with a group or not.
abbrev pub discovery_holds : Bool → Bool → List Resource
discovery_holds true true = running ∷ client ∷ poll ∷ first_name ∷ discovery ∷ group ∷ []
discovery_holds true false = running ∷ client ∷ poll ∷ first_name ∷ discovery ∷ []
discovery_holds false true = client ∷ poll ∷ first_name ∷ discovery ∷ group ∷ []
discovery_holds false false = client ∷ poll ∷ first_name ∷ discovery ∷ []

abbrev pub same : List Resource → List Resource → Bool
same s t = same_held resources s t
