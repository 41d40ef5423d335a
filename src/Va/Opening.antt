-- ===== src/Va/Opening.antt =====
-- What `db_encoder_init` acquires and `db_encoder_destroy` releases, on every path.
use display_bridge.Prelude.{
  ℕ, ◌≡◌, refl, ap, ◌∙◌, Bool, true, false, ◌&&◌, some, [], ◌==◌, if◌then◌else◌, Bool-cases, inl,
  inr, and_both,
}
use display_bridge.Calls.{check, ◌>>=◌, run}
use display_bridge.Calls.Observer.{safe, follow, safe-run}
use display_bridge.Protocol.{codec_hevc}
use display_bridge.Va.Rules.{VaState, watch, same_state, same_state→≡}
use display_bridge.Va.Bracket.{device, state}
use display_bridge.Va.Frames.{ConvBuf}
use display_bridge.Va.Device.{Handles, Opened, open_drm_render_node, open_device, init, destroy}

abbrev pub nothing : VaState
nothing = state [] [] false

-- All handles are valid.
abbrev pub valid_handles : ConvBuf → Handles
valid_handles conv = record {
  has_drm_fd = true;
  has_display = true;
  has_config = true;
  num_recon_surfaces = 4;
  has_context = true;
  has_coded_buf = true;
  conv = conv;
}

-- What a result of `db_encoder_init` stands for.
abbrev pub after_init : Opened → VaState
after_init o = if o.success then state (device true) [] false else nothing

-- The handles that `destroy` looks at, all there.
abbrev pub all_valid : Handles → Bool
all_valid h =
    h.has_drm_fd
    && (h.has_display
        && (h.has_config
            && ((h.num_recon_surfaces == 4)
                && (h.has_context && (h.has_coded_buf && h.conv.present)))))

abbrev pub valid_if_open : Opened → Bool
valid_if_open o = if o.success then all_valid o.held else true

abbrev init_test : Opened → VaState → Bool
init_test o t = same_state t (after_init o) && valid_if_open o

init-safe :
    (width height codec : ℕ) → safe watch (some nothing) (init width height codec) init_test ≡ true
unfolding init open_drm_render_node open_device check ◌>>=◌
init-safe width height codec = elim (Bool-cases (codec == codec_hevc)) [
  | inl e ↦ rw e refl
  | inr e ↦ rw e refl
]

destroy_present :
    (present : Bool) (size : ℕ)
    → safe watch
        (some (state (device present) [] false))
        (destroy (valid_handles (record { present = present; size = size })))
        (λ h t. same_state t nothing)
      ≡ true
unfolding destroy
destroy_present true size = refl
destroy_present false size = refl

-- Whatever the libraries answer to `db_encoder_init`, every call keeps their rules. When it
-- succeeds exactly the node, the display, the config, the surfaces, the context, the coded buffer
-- and the conversion buffer are held, and the handles in the encoder say so; when it fails, at
-- whatever step, everything that had been acquired is released again. With such handles, and with
-- or without a conversion buffer, `db_encoder_destroy` releases everything, each once.
pub device_lifetime :
    (answers : ℕ → Bool) (width height codec : ℕ) (conv : ConvBuf)
    → let r = run answers (init width height codec) in
      (follow watch (some nothing) r.trace ≡ some (after_init r.value))
      × (valid_if_open r.value ≡ true)
      × (follow watch
            (some (state (device conv.present) [] false))
            (run answers (destroy (valid_handles conv))).trace
          ≡ some nothing)
device_lifetime answers width height codec conv =
    let p =
      safe-run watch (some nothing) (init width height codec) init_test answers
        (init-safe width height codec) in
    let d =
      safe-run watch (some (state (device conv.present) [] false)) (destroy (valid_handles conv))
        (λ h t. same_state t nothing) answers (destroy_present conv.present conv.size) in
    let o = (run answers (init width height codec)).value in
    let both = and_both (same_state p.final (after_init o)) (valid_if_open o) p.tested in
    (
      p.followed ∙ ap some (same_state→≡ _ _ both.0),
      both.1,
      d.followed ∙ ap some (same_state→≡ _ _ d.tested),
    )
