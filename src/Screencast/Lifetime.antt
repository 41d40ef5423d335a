-- ===== src/Screencast/Lifetime.antt =====
-- What `db_capture_init` acquires and `db_capture_destroy` releases, on every path.
use mathlib.Core.List.{Memᴰ}
use display_bridge.Prelude.{
  ℕ, ◌≡◌, refl, sym, ap, ◌∙◌, Bool, true, false, ◌&&◌, ◌||◌, Option, none, some, List, [], ◌∷◌,
  ◌==◌, Bool-cases, inl, inr, and_both, arith,
}
use display_bridge.Calls.{check, ◌>>=◌, run}
use display_bridge.Calls.Held.{same_held, same_held→≡}
use display_bridge.Calls.Observer.{safe, follow, safe-run}
use display_bridge.Screencast.{cap, dbus, session_handle, pw, pw_loop, pw_ctx, pw_core, pw_stream}
use display_bridge.Screencast.Rules.{resources, Holding, watch}
use display_bridge.Screencast.Mutter.{
  Waited, added, timeout, wait_for_stream, start_session, record_virtual_monitor,
  mutter_screencast_init, dispatch, on_pw_stream_added, mutter_timeout_cb,
}
use display_bridge.Screencast.Pipewire.{
  Capture, setup_pw_stream, destroy, after_mutter, capture_init,
}

-- What a capture holds.
abbrev pub capture_holds : Holding
capture_holds = pw_stream ∷ pw_core ∷ pw_ctx ∷ pw_loop ∷ pw ∷ session_handle ∷ dbus ∷ cap ∷ []

-- All the handles that `destroy` looks at are there.
abbrev pub all_valid : Capture → Bool
all_valid c =
    c.has_dbus && (c.has_session && (c.has_loop && (c.has_ctx && (c.has_core && c.has_stream))))

-- What may be held when `db_capture_init` returns.
abbrev pub possible : Option Capture → List Holding
possible none = [] ∷ (dbus ∷ []) ∷ []
possible (some c) = capture_holds ∷ []

abbrev same : Holding → Holding → Bool
same s t = same_held resources s t

abbrev among : List Holding → Holding → Bool
among [] t = false
among (s ∷ ss) t = same t s || among ss t

among→Memᴰ : (ss : List Holding) (t : Holding) → among ss t ≡ true → Memᴰ t ss
among→Memᴰ [] t h = ground arith
among→Memᴰ (s ∷ ss) t h = elim (Bool-cases (same t s)) [
  | inl e ↦ Memᴰ.head (same_held→≡ resources t s e)
  | inr e ↦ Memᴰ.tail (among→Memᴰ ss t (sym (ap (λ b. b || among ss t) e) ∙ h))
]

abbrev pub valid : Option Capture → Bool
valid none = true
valid (some c) = all_valid c

abbrev init_test : Option Capture → Holding → Bool
init_test o t = among (possible o) t && valid o

capture_init-safe : (waited : Waited) → safe watch (some []) (capture_init waited) init_test ≡ true
unfolding capture_init check mutter_screencast_init record_virtual_monitor start_session
    wait_for_stream dispatch on_pw_stream_added mutter_timeout_cb after_mutter setup_pw_stream
    destroy ◌>>=◌
capture_init-safe timeout = refl
capture_init-safe (added node) = elim (Bool-cases (node == 0)) [
  | inl e ↦ rw e refl
  | inr e ↦ rw e refl
]

-- The fields of a capture whose handles are all there.
abbrev pub valid_capture : ℕ → Capture
valid_capture node = record {
  has_dbus = true;
  has_session = true;
  pw_node_id = node;
  has_loop = true;
  has_ctx = true;
  has_core = true;
  has_stream = true;
}

destroy-safe :
    (node : ℕ)
    → safe watch (some capture_holds) (destroy (valid_capture node)) (λ o t. same t []) ≡ true
unfolding destroy
destroy-safe node = refl

-- Whatever the libraries answer to `db_capture_init`, and whichever callback ends its wait, every
-- call keeps their rules. When it succeeds all eight resources of a capture are held, all its
-- handles are there, and all else is released (errors, replies, the path of the stream, the loop,
-- the subscription and the timeout). When it fails nothing is held, or just a reference to the
-- connection to D-Bus. `db_capture_destroy` of a capture whose handles are all there releases
-- everything, each once.
pub capture_lifetime :
    (answers : ℕ → Bool) (waited : Waited) (node : ℕ)
    → let r = run answers (capture_init waited) in
      ((t : Holding) × Memᴰ t (possible r.value) × (follow watch (some []) r.trace ≡ some t))
      × (valid r.value ≡ true)
      × (follow watch (some capture_holds) (run answers (destroy (valid_capture node))).trace
          ≡ some [])
capture_lifetime answers waited node =
    let p =
      safe-run watch (some []) (capture_init waited) init_test answers (capture_init-safe waited) in
    let d =
      safe-run watch (some capture_holds) (destroy (valid_capture node)) (λ o t. same t []) answers
        (destroy-safe node) in
    let o = (run answers (capture_init waited)).value in
    let both = and_both (among (possible o) p.final) (valid o) p.tested in
    (
      (p.final, among→Memᴰ (possible o) p.final both.0, p.followed),
      both.1,
      d.followed ∙ ap some (same_held→≡ resources d.final [] d.tested),
    )
