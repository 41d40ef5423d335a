-- ===== src/Tools/Lifetime.antt =====
-- Both tools give back what they get from libdrm and the C library.
use display_bridge.Prelude.{
  ℕ, ◌+◌, ◌≡◌, refl, sym, subst, ap, ◌∙◌, Bool, true, false, Option, none, some, List, [], ◌∷◌,
  ◌==◌, ltb, if◌then◌else◌,
}
use display_bridge.Calls.{Calls, done, tell, check, where_held, run, ◌>>=◌}
use display_bridge.Calls.Held.{same_held, same_held→≡}
use display_bridge.Calls.Observer.{safe, follow, safe-run, safe-bind}
use display_bridge.Tools.{Mode, Property, Connector, ToolCall, read_resources, free_connector}
use display_bridge.Tools.Rules.{card, resources, connector, names, Holding, watch}
use display_bridge.Tools.SetMode.{
  Card, Chosen, none_chosen, choose, find_virtual, gives_up, set_on, pick_crtc, crtc_via,
  set_or_give_up, with_crtc, with_chosen, set_mode,
}
use display_bridge.Tools.InjectEdid.{
  read_edid, target_of, first_or, find_first, find_edid, edid_id, read_back, with_target,
  after_edid, inject_edid,
}

-- From one holding to another, on every path.
abbrev Safe : {A : Type 0} → Holding → Calls ToolCall A → Holding → Type 0
Safe s p t = safe watch (some s) p (λ a u. same_held names u t) ≡ true

Safe-bind :
    {A B : Type 0} (s t u : Holding) (p : Calls ToolCall A) (f : A → Calls ToolCall B)
    → Safe s p t
    → ((a : A) → Safe t (f a) u)
    → Safe s (p >>= f) u
Safe-bind s t u p f h next =
    safe-bind watch (some s) p f (λ a v. same_held names v t) (λ b v. same_held names v u)
      (λ a v e.
        subst (λ w. safe watch (some w) (f a) (λ b v. same_held names v u) ≡ true)
          (sym (same_held→≡ names v t e)) (next a))
      h

Safe-if :
    {A : Type 0} (s t : Holding) (b : Bool) (p q : Calls ToolCall A)
    → Safe s p t
    → Safe s q t
    → Safe s (if b then p else q) t
Safe-if s t true p q h k = h
Safe-if s t false p q h k = k

-- The card is open, and its lists are there.
abbrev opened : Holding
opened = resources ∷ card ∷ []

find_virtual-Safe :
    (cs : List Connector) (i : ℕ) (f : Chosen) → Safe opened (find_virtual i cs f) opened
unfolding find_virtual
find_virtual-Safe [] i f = refl
find_virtual-Safe (c ∷ cs) i f =
    rw (find_virtual-Safe cs (i + 1) (choose f c), find_virtual-Safe cs (i + 1) f) refl

crtc_via-Safe : (c : Card) (enc_id : ℕ) → Safe opened (crtc_via c enc_id) opened
unfolding crtc_via
crtc_via-Safe c enc_id = Safe-if opened opened (enc_id == 0) _ _ refl refl

set_on-Safe : (mode : Mode) (conn_id crtc_id : ℕ) → Safe opened (set_on mode conn_id crtc_id) []
unfolding set_on
set_on-Safe mode conn_id crtc_id = refl

-- The lists are there to be read again.
read_again-Safe :
    (b : Bool) (p : Calls ToolCall ℕ)
    → Safe opened p []
    → Safe opened (where_held b read_resources p) []
read_again-Safe true p h = h
read_again-Safe false p h = h

with_crtc-Safe :
    (c : Card) (mode : Mode) (conn_id via : ℕ) → Safe opened (with_crtc c mode conn_id via) []
with_crtc-Safe c mode conn_id via =
    read_again-Safe (via == 0) (set_or_give_up mode conn_id (pick_crtc c via)) (
      Safe-if opened [] (pick_crtc c via == 0) gives_up (set_on mode conn_id (pick_crtc c via)) refl
        (set_on-Safe mode conn_id (pick_crtc c via)))

with_chosen-Safe : (c : Card) (mode : Mode) (f : Chosen) → Safe opened (with_chosen c mode f) []
unfolding with_chosen
with_chosen-Safe c mode f =
    Safe-if opened [] (f.conn_id == 0) gives_up
      (crtc_via c f.enc_id >>= λ via. with_crtc c mode f.conn_id via) refl
      (Safe-bind opened opened [] (crtc_via c f.enc_id) (λ via. with_crtc c mode f.conn_id via)
        (crtc_via-Safe c f.enc_id) (with_crtc-Safe c mode f.conn_id))

set_mode-Safe : (c : Card) (mode : Mode) → Safe [] (set_mode c mode) []
unfolding set_mode check
set_mode-Safe c mode =
    rw
      (Safe-bind opened opened [] (find_virtual 0 c.connectors none_chosen) (with_chosen c mode)
        (find_virtual-Safe c.connectors 0 none_chosen) (with_chosen-Safe c mode))
      refl

first_or-Safe :
    (o : Option ℕ) (rest : Calls ToolCall (Option ℕ))
    → Safe opened rest opened
    → Safe opened (first_or o rest) opened
first_or-Safe none rest h = h
first_or-Safe (some id) rest h = refl

find_first-Safe : (cs : List Connector) (i : ℕ) → Safe opened (find_first i cs) opened
unfolding find_first
find_first-Safe [] i = refl
find_first-Safe (c ∷ cs) i =
    let rest = find_first-Safe cs (i + 1) in
    rw (first_or-Safe (target_of c) (find_first (i + 1) cs) rest, rest) refl

-- With the connector as well.
abbrev reading : Holding
reading = connector ∷ resources ∷ card ∷ []

find_edid-Safe : (ps : List Property) (i id : ℕ) → Safe reading (find_edid i ps id) reading
unfolding find_edid
find_edid-Safe [] i id = refl
find_edid-Safe (p ∷ ps) i id =
    rw (find_edid-Safe ps (i + 1) (edid_id id p), find_edid-Safe ps (i + 1) id) refl

finish-Safe : (probed : ℕ → Connector) (target id : ℕ) → Safe opened (read_back probed target id) []
unfolding read_back
finish-Safe probed target id = refl

with_target-Safe : (probed : ℕ → Connector) (o : Option ℕ) → Safe opened (with_target probed o) []
unfolding with_target check
with_target-Safe probed none = refl
with_target-Safe probed (some target) =
    rw
      (Safe-bind reading reading [] (find_edid 0 (probed target).props 0)
        (λ id. tell free_connector (read_back probed target id))
        (find_edid-Safe (probed target).props 0 0) (finish-Safe probed target))
      refl

after_edid-Safe :
    (cs : List Connector) (probed : ℕ → Connector) (ok : Bool)
    → Safe [] (after_edid cs probed ok) []
unfolding check
after_edid-Safe cs probed false = refl
after_edid-Safe cs probed true =
    rw
      (Safe-bind opened opened [] (find_first 0 cs) (with_target probed) (find_first-Safe cs 0)
        (with_target-Safe probed))
      refl

read_edid-Safe : (size : ℕ) → Safe [] (read_edid size) []
unfolding read_edid check
read_edid-Safe size = refl

inject_edid-Safe :
    (argc size : ℕ) (cs : List Connector) (probed : ℕ → Connector)
    → Safe [] (inject_edid argc size cs probed) []
unfolding inject_edid
inject_edid-Safe argc size cs probed =
    Safe-if [] [] (ltb argc 2) (done _) (read_edid size >>= λ ok. after_edid cs probed ok) refl (
      Safe-bind [] [] [] (read_edid size) (after_edid cs probed) (read_edid-Safe size)
        (after_edid-Safe cs probed))

Safe-run :
    {A : Type 0} (p : Calls ToolCall A) (answers : ℕ → Bool)
    → Safe [] p []
    → follow watch (some []) (run answers p).trace ≡ some []
Safe-run p answers h =
    let r = safe-run watch (some []) p (λ a u. same_held names u []) answers h in
    r.followed ∙ ap some (same_held→≡ names r.final [] r.tested)

-- Whatever libdrm and the C library answer, whatever connectors, encoders and properties there are
-- and however long the file is: both tools keep the rules of the libraries. Fields are read only of
-- what has been got and not freed yet, and at the end everything has been given back, each once, the
-- card after all that was got from it.
pub tools_lifetime :
    (answers : ℕ → Bool) (c : Card) (mode : Mode) (argc size : ℕ) (cs : List Connector)
    (probed : ℕ → Connector)
    → (follow watch (some []) (run answers (set_mode c mode)).trace ≡ some [])
      × (follow watch (some []) (run answers (inject_edid argc size cs probed)).trace ≡ some [])
tools_lifetime answers c mode argc size cs probed = (
  Safe-run (set_mode c mode) answers (set_mode-Safe c mode),
  Safe-run (inject_edid argc size cs probed) answers (inject_edid-Safe argc size cs probed),
)
