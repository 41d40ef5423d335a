-- ===== src/Tools/Choice.antt =====
-- Which connector tools/set_mode.c acts on.
use mathlib.Core.Path.{fun_ext}
use display_bridge.Prelude.{
  ℕ, ◌+◌, ◌≡◌, ◌≢◌, refl, subst, ap, arith, Bool, true, false, not, ◌&&◌, inl, inr, append-nil,
  ◌++◌, List, [], ◌∷◌, ◌==◌, if◌then◌else◌, Bool-cases,
}
use display_bridge.Calls.{check, run, ◌>>=◌}
use display_bridge.Tools.{Mode, ToolCall, get_encoder, set_crtc}
use display_bridge.Tools.SetMode.{
  Card, Chosen, none_chosen, find_virtual, set_on, first_crtc, pick_crtc, crtc_via, set_or_give_up,
  with_crtc, with_chosen, set_mode,
}
use display_bridge.Tools.Search.{
  answered, virtuals, last_or, find_virtual_lem, run-bind, acts, acts-append, find_virtual-acts,
}

-- The encoder of the connector is looked up if it has one.
abbrev pub looked_up : ℕ → Bool → List (ToolCall × Bool)
looked_up enc_id found = if enc_id == 0 then [] else (get_encoder enc_id, found) ∷ []

-- The CRTC to set: that of the encoder if this was found and has one, or else the first one.
abbrev pub crtc_for : Card → ℕ → Bool → ℕ
crtc_for c enc_id found =
    if not (enc_id == 0) && (found && not (c.crtc_of enc_id == 0))
    then c.crtc_of enc_id
    else first_crtc c.crtcs

-- With the chosen connector: the value of `main`, and the calls above.
pub data Sets (c : Card) (mode : Mode) (f : Chosen) (code : ℕ) (actions : List (ToolCall × Bool))
    : Type 0 where
  no_connector : f.conn_id ≡ 0 → code ≡ 1 → actions ≡ [] → Sets c mode f code actions
  no_crtc :
      (found : Bool)
      → f.conn_id ≢ 0
      → crtc_for c f.enc_id found ≡ 0
      → code ≡ 1
      → actions ≡ looked_up f.enc_id found
      → Sets c mode f code actions
  tried :
      (found ok : Bool)
      → f.conn_id ≢ 0
      → crtc_for c f.enc_id found ≢ 0
      → code ≡ (if ok then 0 else 1)
      → actions
        ≡ looked_up f.enc_id found
          ++ ((set_crtc (crtc_for c f.enc_id found) f.conn_id mode, ok) ∷ [])
      → Sets c mode f code actions

-- With the card open and its lists there, or without.
abbrev pub Does : Bool → Card → Mode → Chosen → ℕ → List (ToolCall × Bool) → Type 0
Does true c mode f code actions = Sets c mode f code actions
Does false c mode f code actions = (code ≡ 1) × (actions ≡ [])

crtc_via_lem :
    (c : Card) (enc_id : ℕ) (answers : ℕ → Bool)
    → let r = run answers (crtc_via c enc_id) in
      (pick_crtc c r.value ≡ crtc_for c enc_id (answers 0))
      × (acts r.trace ≡ looked_up enc_id (answers 0))
unfolding run crtc_via
crtc_via_lem c enc_id answers = elim (Bool-cases (enc_id == 0)) [
  | inl e ↦ rw e (refl, refl)
  | inr e ↦ elim (Bool-cases (answers 0)) [
    | inl h ↦
        rw (e, h)
          (elim (Bool-cases (c.crtc_of enc_id == 0)) [
            | inl z ↦ rw z (refl, refl)
            | inr z ↦ rw z (refl, refl)
          ])
    | inr h ↦ rw (e, h) (refl, refl)
  ]
]

set_on_lem :
    (mode : Mode) (conn_id crtc_id : ℕ) (answers : ℕ → Bool) (shown ok : Bool)
    → answers 0 ≡ shown
    → answers 1 ≡ ok
    → let r = run answers (set_on mode conn_id crtc_id) in
      (r.value ≡ (if ok then 0 else 1)) × (acts r.trace ≡ (set_crtc crtc_id conn_id mode, ok) ∷ [])
unfolding set_on run
set_on_lem mode conn_id crtc_id answers true ok e h = rw (e, h) (refl, refl)
set_on_lem mode conn_id crtc_id answers false ok e h = rw (e, h) (refl, refl)

-- After the encoder was looked up.
set_or_give_up-Sets :
    (c : Card) (mode : Mode) (f : Chosen) (found : Bool) (answers : ℕ → Bool)
    → f.conn_id ≢ 0
    → let r = run answers (set_or_give_up mode f.conn_id (crtc_for c f.enc_id found)) in
      Sets c mode f r.value (looked_up f.enc_id found ++ acts r.trace)
set_or_give_up-Sets c mode f found answers conn =
    elim (Bool-cases (crtc_for c f.enc_id found == 0)) [
      | inl e ↦ rw e (
          unfold run in
          no_crtc found conn (ground (arith, e)) refl (append-nil (looked_up f.enc_id found)))
      | inr e ↦
          let s =
            set_on_lem mode f.conn_id (crtc_for c f.enc_id found) answers (answers 0) (answers 1)
              refl refl in
          rw (e, s.1) (tried found (answers 1) conn (ground (arith, e)) s.0 refl)
    ]

-- Reading the lists again is none of the calls above.
with_crtc_lem :
    (c : Card) (mode : Mode) (conn_id via : ℕ) (answers : ℕ → Bool)
    → let r = run answers (with_crtc c mode conn_id via) in
      let s = run answers (set_or_give_up mode conn_id (pick_crtc c via)) in
      (r.value ≡ s.value) × (acts r.trace ≡ acts s.trace)
unfolding run
with_crtc_lem c mode conn_id via answers = elim (Bool-cases (via == 0)) [
  | inl e ↦ rw e (refl, refl)
  | inr e ↦ rw e (refl, refl)
]

with_chosen-Sets :
    (c : Card) (mode : Mode) (f : Chosen) (answers : ℕ → Bool)
    → let r = run answers (with_chosen c mode f) in Sets c mode f r.value (acts r.trace)
unfolding with_chosen
with_chosen-Sets c mode f answers = elim (Bool-cases (f.conn_id == 0)) [
  | inl e ↦ rw e (unfold run in no_connector (ground (arith, e)) refl refl)
  | inr e ↦
      let via = run answers (crtc_via c f.enc_id) in
      let (later, same) =
        run-bind (crtc_via c f.enc_id) (λ v. with_crtc c mode f.conn_id v) answers in
      let (picked, looked) = crtc_via_lem c f.enc_id answers in
      rw
        (
          e,
          same,
          acts-append,
          looked,
          (with_crtc_lem c mode f.conn_id via.value later).0,
          (with_crtc_lem c mode f.conn_id via.value later).1,
          picked,
        )
        (set_or_give_up-Sets c mode f (answers 0) later (ground (arith, e)))
]

-- From the loop on.
chosen-Sets :
    (c : Card) (mode : Mode) (answers : ℕ → Bool)
    → let r = run answers (find_virtual 0 c.connectors none_chosen >>= with_chosen c mode) in
      Sets c mode
        (last_or none_chosen (virtuals (answered answers c.connectors)))
        r.value
        (acts r.trace)
chosen-Sets c mode answers =
    let (rest, same) =
      run-bind (find_virtual 0 c.connectors none_chosen) (with_chosen c mode) answers in
    rw
      (
        same,
        acts-append,
        find_virtual-acts c.connectors 0 none_chosen answers,
        find_virtual_lem c.connectors 0 none_chosen answers,
      )
      (with_chosen-Sets c mode (last_or none_chosen (virtuals (answered answers c.connectors)))
        rest)

-- Whatever libdrm answers and whatever connectors, encoders and CRTCs the card has: `set_mode`
-- chooses the last virtual connector among those that libdrm gives. If that has an encoder, its CRTC
-- is looked up, once, and is the one to set if libdrm finds it and it is not 0; otherwise that is the
-- first CRTC. If the connector and the CRTC are not 0 then `drmModeSetCrtc` is called, once, for this
-- CRTC, this connector and the mode, and the tool returns 0 exactly if that succeeds. If the card
-- cannot be opened or read, there is no such connector or no CRTC, it is not called and the tool
-- returns 1.
pub set_mode_lem :
    (c : Card) (mode : Mode) (answers : ℕ → Bool)
    → let r = run answers (set_mode c mode) in
      Does
        (answers 0 && answers 2)
        c
        mode
        (last_or none_chosen (virtuals (answered (λ n. answers (n + 3)) c.connectors)))
        r.value
        (acts r.trace)
unfolding set_mode check run
set_mode_lem c mode answers = elim (Bool-cases (answers 0)) [
  | inl e ↦ elim (Bool-cases (answers 2)) [
    | inl h ↦
        rw (e, h)
          (subst
            (λ a.
              let r = run a (find_virtual 0 c.connectors none_chosen >>= with_chosen c mode) in
              Sets c mode
                (last_or none_chosen (virtuals (answered (λ n. answers (n + 3)) c.connectors)))
                r.value (acts r.trace))
            (fun_ext λ n. ap answers (omega arith)) (chosen-Sets c mode (λ n. answers (n + 3))))
    | inr h ↦ rw (e, h) (refl, refl)
  ]
  | inr e ↦ rw e (refl, refl)
]
