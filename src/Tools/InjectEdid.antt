-- ===== src/Tools/InjectEdid.antt =====
-- tools/inject_edid.c
use display_bridge.Prelude.{
  ℕ, ◌+◌, ◌^◌, Bool, true, false, ◌&&◌, Option, none, some, List, [], ◌∷◌, ◌==◌, ltb, if◌then◌else◌,
}
use display_bridge.Calls.{Calls, done, tell, ask, check, ◌>>=◌}
use display_bridge.Tools.{
  Size, Property, Connector, connector_virtual, ToolCall, open_card, close_card, get_resources,
  free_resources, read_resources, read_connector, read_property, get_connector, probe_connector,
  current_connector, free_connector, get_property, free_property, open_file, read_file, close_file,
}

-- `read_edid`, for a file of which `fread` gives so many bytes: whether it succeeds.
unfoldable pub read_edid : ℕ → Calls ToolCall Bool
unfolding check
read_edid size =
    check open_file (done false)
      (tell read_file (tell close_file (done (if ltb size 128 then false else true))))

-- `target_conn`, an `int`, for which `none` is a negative value.
abbrev pub target_of : Connector → Option ℕ
target_of c =
    if (c.connector_type == connector_virtual) && ltb c.connector_id (2 ^ 31)
    then some c.connector_id
    else none

-- `if (target_conn >= 0) break;`
abbrev pub first_or : Option ℕ → Calls ToolCall (Option ℕ) → Calls ToolCall (Option ℕ)
first_or (some id) rest = done (some id)
first_or none rest = rest

-- The loop over the connectors, from the `i`th on, which is left at the first that will do.
unfoldable pub find_first : ℕ → List Connector → Calls ToolCall (Option ℕ)
find_first i [] = tell read_resources (done none)
find_first i (c ∷ cs) = tell read_resources (
    ask (get_connector i) λ ok. elim ok [
      | true ↦
          tell read_connector (tell free_connector (first_or (target_of c) (find_first (i + 1) cs)))
      | false ↦ find_first (i + 1) cs
    ])

abbrev pub same_text : List ℕ → List ℕ → Bool
same_text [] [] = true
same_text [] (d ∷ ds) = false
same_text (c ∷ cs) [] = false
same_text (c ∷ cs) (d ∷ ds) = c == d && same_text cs ds

abbrev pub edid_name : List ℕ
edid_name = b'E' ∷ b'D' ∷ b'I' ∷ b'D' ∷ []

abbrev pub edid_id : ℕ → Property → ℕ
edid_id id p = if same_text p.prop_name edid_name then p.prop_id else id

-- The loop over the properties, from the `i`th on.
unfoldable pub find_edid : ℕ → List Property → ℕ → Calls ToolCall ℕ
find_edid i [] id = tell read_connector (done id)
find_edid i (p ∷ ps) id = tell read_connector (
    ask (get_property i) λ ok. elim ok [
      | true ↦ tell read_property (tell free_property (find_edid (i + 1) ps (edid_id id p)))
      | false ↦ find_edid (i + 1) ps id
    ])

-- How often 2880x1800 is reported to be in the list of modes.
abbrev pub found_in : List Size → ℕ
found_in [] = 0
found_in (m ∷ ms) = (if m.hdisplay == 2880 && m.vdisplay == 1800 then 1 else 0) + found_in ms

-- How the tool ends: the value of `main`, the connector, the EDID property, and what it reports of
-- the modes, if it reads them.
pub record Report : Type 0 where
  pub code : ℕ
  pub target : Option ℕ
  pub edid_prop_id : ℕ
  pub found : Option ℕ

abbrev pub fails_with : Report
fails_with = record { code = 1; target = none; edid_prop_id = 0; found = none }

-- From the label `done` on.
abbrev pub finish : ℕ → ℕ → Option ℕ → Calls ToolCall Report
finish target edid_prop_id found = tell free_resources (
    tell close_card (
      done (record { code = 0; target = some target; edid_prop_id = edid_prop_id; found = found })))

-- The modes are read back and printed, whether the property was found or not.
unfoldable pub read_back : (ℕ → Connector) → ℕ → ℕ → Calls ToolCall Report
read_back probed target edid_prop_id = ask (probe_connector target) λ ok. elim ok [
  | true ↦
      tell read_connector
        (tell free_connector (finish target edid_prop_id (some (found_in (probed target).modes))))
  | false ↦ finish target edid_prop_id none
]

-- With the connector that was found.
unfoldable pub with_target : (ℕ → Connector) → Option ℕ → Calls ToolCall Report
unfolding check find_edid read_back ◌>>=◌
with_target probed none = tell free_resources (tell close_card (done fails_with))
with_target probed (some target) = check (current_connector target) (finish target 0 none) (
    find_edid 0 (probed target).props 0 >>= λ edid_prop_id.
    tell free_connector (read_back probed target edid_prop_id))

abbrev pub after_edid : List Connector → (ℕ → Connector) → Bool → Calls ToolCall Report
after_edid connectors probed false = done fails_with
after_edid connectors probed true = check open_card (done fails_with) (
    check get_resources (tell close_card (done fails_with))
      (find_first 0 connectors >>= λ target. with_target probed target))

-- `main`, for `argc` arguments, a file of so many bytes, the connectors of the card, and what
-- libdrm reports of a connector by its number.
unfoldable pub inject_edid : ℕ → ℕ → List Connector → (ℕ → Connector) → Calls ToolCall Report
unfolding check read_edid find_first with_target ◌>>=◌
inject_edid argc size connectors probed =
    if ltb argc 2 then done fails_with else read_edid size >>= λ ok. after_edid connectors probed ok
