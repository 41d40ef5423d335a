-- ===== src/Tools/Rules.antt =====
-- The rules of libdrm and of the C library for the tools, as an observer of the calls.
use display_bridge.Prelude.{
  ℕ, ◌≡◌, refl, Bool, true, false, Option, none, some, List, [], ◌∷◌, if◌then◌else◌, get_or,
}
use display_bridge.Calls.Held.{Named, all_held, same_held, acquire, release}
use display_bridge.Tools.{
  ToolCall, open_card, close_card, set_master, drop_master, get_resources, free_resources,
  read_resources, read_connector, read_encoder, read_crtc, read_property, get_connector,
  probe_connector, current_connector, free_connector, get_encoder, free_encoder, get_crtc,
  free_crtc, set_crtc, get_property, free_property, open_file, read_file, close_file,
}

pub data Resource : Type 0 where
  card resources connector encoder crtc property file : Resource

abbrev number : Resource → ℕ
number card = 0
number resources = 1
number connector = 2
number encoder = 3
number crtc = 4
number property = 5
number file = 6

abbrev name : ℕ → Resource
name n = get_or (card ∷ resources ∷ connector ∷ encoder ∷ crtc ∷ property ∷ file ∷ []) n card

pub name-number : (r : Resource) → name (number r) ≡ r
name-number card = refl
name-number resources = refl
name-number connector = refl
name-number encoder = refl
name-number crtc = refl
name-number property = refl
name-number file = refl

abbrev pub names : Named Resource
names = record { number = number; name = name; name-number = name-number }

-- What is held, the last one acquired first.
abbrev pub Holding : Type 0
Holding = List Resource

abbrev needs : Holding → List Resource → Option Holding → Option Holding
needs s rs o = if all_held names rs s then o else none

abbrev creates : Holding → Resource → Bool → Option Holding
creates s r true = acquire names r s
creates s r false = some s

-- The card is asked while it is open, the lists are read while their owner is there, and the card is
-- closed after all that was got from it was freed.
abbrev pub watch : Holding → ToolCall → Bool → Option Holding
watch s open_card b = creates s card b
watch s close_card b = if same_held names s (card ∷ []) then some [] else none
watch s set_master b = needs s (card ∷ []) (some s)
watch s drop_master b = needs s (card ∷ []) (some s)
watch s get_resources b = needs s (card ∷ []) (creates s resources b)
watch s read_resources b = needs s (resources ∷ []) (some s)
watch s read_connector b = needs s (connector ∷ []) (some s)
watch s read_encoder b = needs s (encoder ∷ []) (some s)
watch s read_crtc b = needs s (crtc ∷ []) (some s)
watch s read_property b = needs s (property ∷ []) (some s)
watch s free_resources b = release names resources s
watch s (get_connector i) b = needs s (card ∷ resources ∷ []) (creates s connector b)
watch s (probe_connector id) b = needs s (card ∷ []) (creates s connector b)
watch s (current_connector id) b = needs s (card ∷ []) (creates s connector b)
watch s free_connector b = release names connector s
watch s (get_encoder id) b = needs s (card ∷ []) (creates s encoder b)
watch s free_encoder b = release names encoder s
watch s (get_crtc id) b = needs s (card ∷ []) (creates s crtc b)
watch s free_crtc b = release names crtc s
watch s (set_crtc crtc_id conn_id mode) b = needs s (card ∷ []) (some s)
watch s (get_property i) b = needs s (card ∷ connector ∷ []) (creates s property b)
watch s free_property b = release names property s
watch s open_file b = creates s file b
watch s read_file b = needs s (file ∷ []) (some s)
watch s close_file b = release names file s
