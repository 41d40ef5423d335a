-- ===== src/Tests/Utilities.antt =====
-- The tools with a card that has two virtual connectors.
use display_bridge.Prelude.{
  ℕ, ◌+◌, ◌&&◌, ◌≡◌, refl, Bool, true, some, [], ◌∷◌, ltb, ◌==◌, if◌then◌else◌,
}
use display_bridge.Calls.{run}
use display_bridge.Calls.Observer.{follow}
use display_bridge.Tools.{Connector, Mode, get_encoder, set_crtc}
use display_bridge.Tools.Rules.{watch}
use display_bridge.Tools.SetMode.{Card, none_chosen, make_2880x1800_mode, set_mode}
use display_bridge.Tools.InjectEdid.{inject_edid, edid_name}
use display_bridge.Tools.Search.{acts, last_or, virtuals, answered}
use display_bridge.Tools.Choice.{Does, set_mode_lem}
use display_bridge.Tools.Lifetime.{tools_lifetime}

abbrev panel : Connector
panel = record { connector_type = 14; connector_id = 95; encoder_id = 94; modes = []; props = [] }

abbrev virtual_1 : Connector
virtual_1 = record {
  connector_type = 15;
  connector_id = 37;
  encoder_id = 36;
  modes = record { hdisplay = 2880; vdisplay = 1800 } ∷ [];
  props = record { prop_id = 1; prop_name = edid_name } ∷ [];
}

abbrev virtual_2 : Connector
virtual_2 = record virtual_1 { connector_id = 47; encoder_id = 46 }

abbrev two_virtual : Card
two_virtual = record {
  connectors = panel ∷ virtual_1 ∷ virtual_2 ∷ [];
  crtcs = 35 ∷ 45 ∷ [];
  crtc_of = λ enc_id. if enc_id == 46 then 45 else 0;
}

abbrev the_mode : Mode
the_mode = make_2880x1800_mode 2 4 32

abbrev always : ℕ → Bool
always n = true

-- The seventh call fails.
abbrev first_six : ℕ → Bool
first_six n = ltb n 6

set_mode_lem_example :
    let r = run always (set_mode two_virtual the_mode) in
    Does
      (always 0 && always 2)
      two_virtual
      the_mode
      (last_or none_chosen (virtuals (answered (λ n. always (n + 3)) two_virtual.connectors)))
      r.value
      (acts r.trace)
set_mode_lem_example = set_mode_lem two_virtual the_mode always

tools_lifetime_example :
    (follow watch (some []) (run first_six (set_mode two_virtual the_mode)).trace ≡ some [])
    × (follow watch
          (some [])
          (run first_six (inject_edid 2 128 two_virtual.connectors (λ id. virtual_1))).trace
        ≡ some [])
tools_lifetime_example =
    tools_lifetime first_six two_virtual the_mode 2 128 two_virtual.connectors (λ id. virtual_1)

-- The second virtual connector is set, and the EDID of the first one is looked at.
sets_the_last :
    acts (run always (set_mode two_virtual the_mode)).trace
    ≡ (get_encoder 46, true) ∷ (set_crtc 45 47 the_mode, true) ∷ []
unfolding run set_mode
sets_the_last = refl

reads_the_first :
    (run always (inject_edid 2 128 two_virtual.connectors (λ id. virtual_1))).value
    ≡ record { code = 0; target = some 37; edid_prop_id = 1; found = some 1 }
unfolding run inject_edid
reads_the_first = refl
