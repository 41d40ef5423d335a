-- ===== src/Tools/Search.antt =====
-- How tools/set_mode.c looks for its connector, and which of its calls matter after that.
use display_bridge.Prelude.{
  ℕ, ◌+◌, ◌≡◌, refl, ap, ◌∙◌, Bool, true, false, inl, inr, ◌++◌, List, [], ◌∷◌, ◌==◌, if◌then◌else◌,
  Bool-cases,
}
use display_bridge.Calls.{Calls, done, tell, ask, Run, after, run, ◌>>=◌}
use display_bridge.Tools.{Connector, connector_virtual, ToolCall, get_encoder, set_crtc}
use display_bridge.Tools.SetMode.{Chosen, choose, find_virtual}

abbrev pub rest_of : (ℕ → Bool) → ℕ → Bool
rest_of answers n = answers (n + 1)

-- The connectors that `drmModeGetConnector` gives.
abbrev pub answered : (ℕ → Bool) → List Connector → List Connector
answered answers [] = []
answered answers (c ∷ cs) =
    let rest = answered (rest_of answers) cs in if answers 0 then c ∷ rest else rest

-- The virtual ones.
abbrev pub virtuals : List Connector → List Connector
virtuals [] = []
virtuals (c ∷ cs) =
    let rest = virtuals cs in if c.connector_type == connector_virtual then c ∷ rest else rest

-- The numbers of the last one.
abbrev pub last_or : Chosen → List Connector → Chosen
last_or f [] = f
last_or f (c ∷ cs) = last_or (record { conn_id = c.connector_id; enc_id = c.encoder_id }) cs

last_or-choose :
    (f : Chosen) (c : Connector) (cs : List Connector)
    → last_or (choose f c) (virtuals cs) ≡ last_or f (virtuals (c ∷ cs))
last_or-choose f c cs = elim (Bool-cases (c.connector_type == connector_virtual)) [
  | inl e ↦ rw e refl
  | inr e ↦ rw e refl
]

-- The loop runs to the end of the list: the last virtual connector is chosen.
pub find_virtual_lem :
    (cs : List Connector) (i : ℕ) (f : Chosen) (answers : ℕ → Bool)
    → (run answers (find_virtual i cs f)).value ≡ last_or f (virtuals (answered answers cs))
unfolding run find_virtual
find_virtual_lem [] i f answers = refl
find_virtual_lem (c ∷ cs) i f answers = elim (Bool-cases (answers 0)) [
  | inl e ↦ rw e (
      find_virtual_lem cs (i + 1) (choose f c) (rest_of answers)
      ∙ last_or-choose f c (answered (rest_of answers) cs))
  | inr e ↦ rw e (find_virtual_lem cs (i + 1) f (rest_of answers))
]

-- What follows gets the answers that are left, and its calls come after those before it.
abbrev pub continued : {A B : Type 0} → Run ToolCall A → Run ToolCall B → Run ToolCall B
continued first r = record { value = r.value; trace = first.trace ++ r.trace }

pub run-bind :
    {A B : Type 0} (p : Calls ToolCall A) (f : A → Calls ToolCall B) (answers : ℕ → Bool)
    → (later : ℕ → Bool) × (run answers (p >>= f)
        ≡ continued (run answers p) (run later (f (run answers p).value)))
unfolding run ◌>>=◌
run-bind (done a) f answers = (answers, refl)
run-bind (tell c p) f answers =
    let (later, e) = run-bind p f answers in (later, ap (after c true) e)
run-bind (ask c k) f answers =
    let (later, e) = run-bind (k (answers 0)) f (rest_of answers) in
    (later, ap (after c (answers 0)) e)

-- The calls that look up an encoder and set a CRTC, with their answers, in their order.
abbrev pub keeps : ToolCall → Bool
keeps (get_encoder id) = true
keeps (set_crtc crtc_id conn_id mode) = true
keeps _ = false

abbrev pub acts : List (ToolCall × Bool) → List (ToolCall × Bool)
acts [] = []
acts ((call, ok) ∷ t) = let rest = acts t in if keeps call then (call, ok) ∷ rest else rest

pub acts-append : (t u : List (ToolCall × Bool)) → acts (t ++ u) ≡ acts t ++ acts u
acts-append [] u = refl
acts-append ((call, ok) ∷ t) u = elim (Bool-cases (keeps call)) [
  | inl e ↦ rw e (ap (λ v. (call, ok) ∷ v) (acts-append t u))
  | inr e ↦ rw e (acts-append t u)
]

pub find_virtual-acts :
    (cs : List Connector) (i : ℕ) (f : Chosen) (answers : ℕ → Bool)
    → acts (run answers (find_virtual i cs f)).trace ≡ []
unfolding run find_virtual
find_virtual-acts [] i f answers = refl
find_virtual-acts (c ∷ cs) i f answers = elim (Bool-cases (answers 0)) [
  | inl e ↦ rw e (find_virtual-acts cs (i + 1) (choose f c) (rest_of answers))
  | inr e ↦ rw e (find_virtual-acts cs (i + 1) f (rest_of answers))
]
