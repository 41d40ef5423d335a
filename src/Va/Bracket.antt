-- ===== src/Va/Bracket.antt =====
-- How `encode_surface` keeps the rules of VA-API.
use display_bridge.Prelude.{
  ℕ, ◌≡◌, refl, sym, subst, Bool, true, false, some, List, [], ◌∷◌, if◌then◌else◌,
}
use display_bridge.Calls.{check, Calls, done, ◌>>=◌}
use display_bridge.Calls.Observer.{safe, safe-bind}
use display_bridge.Encoder.{Encoder}
use display_bridge.Packed.{packed_sequence_headers, packed_slice_header}
use display_bridge.Gop.{is_idr}
use display_bridge.Va.{
  Handle, drm_fd, va_display, config_id, recon_surfaces, context_id, coded_buf, conv_buf, input,
  seq_buf, rc_buf, hrd_buf, fr_buf, pic_buf, slice_buf, Contents, VaCall, HeaderType, begin_picture,
}
use display_bridge.Va.Rules.{VaState, watch, same_state, same_state→≡, one_of}
use display_bridge.Va.Submit.{
  submit_assembled, submit_packed_header, submit_packed_sequence_headers,
  submit_packed_slice_header, submit_misc, submit_rate_control, submit_hrd_param,
  submit_framerate_param,
}
use display_bridge.Va.Surface.{
  submit_param, or_fail_end, ◌then_also◌, submit_sequence, finish_picture, encode_surface,
}

-- What `db_encoder_init` leaves live; the conversion buffer is there or not.
abbrev pub device : Bool → List Handle
device conv =
    let fixed = coded_buf ∷ context_id ∷ recon_surfaces ∷ config_id ∷ va_display ∷ drm_fd ∷ [] in
    if conv then conv_buf ∷ fixed else fixed

abbrev pub state : List Handle → List Handle → Bool → VaState
state live mapped in_picture = record { live = live; mapped = mapped; in_picture = in_picture }

-- A picture of the input surface is under way.
abbrev pub under_way : Bool → VaState
under_way conv = state (input ∷ device conv) [] true

abbrev stays : Bool → Bool → VaState → Bool
stays conv a t = same_state t (under_way conv)

submit_misc_rc :
    (conv : Bool) (c : Contents)
    → safe watch (some (under_way conv)) (submit_misc rc_buf c) (stays conv) ≡ true
unfolding submit_misc check
submit_misc_rc true c = refl
submit_misc_rc false c = refl

submit_misc_hrd :
    (conv : Bool) (c : Contents)
    → safe watch (some (under_way conv)) (submit_misc hrd_buf c) (stays conv) ≡ true
unfolding submit_misc check
submit_misc_hrd true c = refl
submit_misc_hrd false c = refl

submit_misc_fr :
    (conv : Bool) (c : Contents)
    → safe watch (some (under_way conv)) (submit_misc fr_buf c) (stays conv) ≡ true
unfolding submit_misc check
submit_misc_fr true c = refl
submit_misc_fr false c = refl

submit_packed_header-stays :
    (conv : Bool) (t : HeaderType) (bytes : List ℕ)
    → safe watch (some (under_way conv)) (submit_packed_header t bytes) (stays conv) ≡ true
unfolding submit_packed_header check
submit_packed_header-stays true t bytes = refl
submit_packed_header-stays false t bytes = refl

-- What goes on from where it was.
then_also-safe :
    (conv : Bool) (p next : Calls VaCall Bool) (r : Bool → VaState → Bool)
    → safe watch (some (under_way conv)) p (stays conv) ≡ true
    → safe watch (some (under_way conv)) next r ≡ true
    → safe watch (some (under_way conv)) (p then_also next) r ≡ true
unfolding ◌then_also◌
then_also-safe conv p next r h k =
    safe-bind watch (some (under_way conv)) p _ (stays conv) r
      (λ a t e. subst (λ u. safe watch (some u) next r ≡ true) (sym (same_state→≡ _ _ e)) k) h

-- The states that `encode_surface` can end in: on success the coded buffer is mapped; on a failure
-- the parameter buffer that was not rendered may be left.
abbrev pub endings : Bool → Bool → List VaState
endings conv true = state (input ∷ device conv) (coded_buf ∷ []) false ∷ []
endings conv false =
    state (input ∷ device conv) [] false
    ∷ state (seq_buf ∷ input ∷ device conv) [] false
    ∷ state (pic_buf ∷ input ∷ device conv) [] false
    ∷ state (slice_buf ∷ input ∷ device conv) [] false
    ∷ []

abbrev pub ends_well : Bool → Bool → VaState → Bool
ends_well conv ok t = one_of (endings conv ok) t

submit_param-safe :
    (conv : Bool) (c : Contents) (next : Calls VaCall Bool)
    → safe watch (some (under_way conv)) next (ends_well conv) ≡ true
    → safe watch
        (some (under_way conv))
        (or_fail_end (submit_param pic_buf c) next)
        (ends_well conv)
      ≡ true
unfolding submit_param or_fail_end check ◌>>=◌
submit_param-safe true c next k = rw k refl
submit_param-safe false c next k = rw k refl

slice_param-safe :
    (conv : Bool) (c : Contents)
    → safe watch
        (some (under_way conv))
        (or_fail_end (submit_param slice_buf c) finish_picture)
        (ends_well conv)
      ≡ true
unfolding submit_param or_fail_end check ◌>>=◌ finish_picture
slice_param-safe true c = refl
slice_param-safe false c = refl

submit_sequence-safe :
    (conv b : Bool) (enc : Encoder) (bytes : List ℕ) (next : Calls VaCall Bool)
    → packed_sequence_headers enc ≡ some bytes
    → safe watch (some (under_way conv)) next (ends_well conv) ≡ true
    → safe watch (some (under_way conv)) (or_fail_end (submit_sequence enc b) next) (ends_well conv)
      ≡ true
unfolding submit_sequence submit_param or_fail_end check ◌>>=◌ submit_packed_sequence_headers
    submit_assembled submit_packed_header ◌then_also◌
submit_sequence-safe true true enc bytes next e k = rw (e, k) refl
submit_sequence-safe true false enc bytes next e k = k
submit_sequence-safe false true enc bytes next e k = rw (e, k) refl
submit_sequence-safe false false enc bytes next e k = k

submit_packed_slice_header-stays :
    (conv b : Bool) (enc : Encoder) (bytes : List ℕ)
    → packed_slice_header enc b ≡ some bytes
    → safe watch (some (under_way conv)) (submit_packed_slice_header enc b) (stays conv) ≡ true
unfolding submit_packed_slice_header submit_assembled
submit_packed_slice_header-stays conv b enc bytes e = rw e (submit_packed_header-stays conv _ bytes)

begin_picture-safe :
    (conv : Bool) (next : Calls VaCall Bool)
    → safe watch (some (under_way conv)) next (ends_well conv) ≡ true
    → safe watch
        (some (state (input ∷ device conv) [] false))
        (check begin_picture (done false) next)
        (ends_well conv)
      ≡ true
unfolding check
begin_picture-safe true next k = rw k refl
begin_picture-safe false next k = rw k refl

pub encode_surface-safe :
    (conv : Bool) (enc : Encoder) (sequence_bytes slice_bytes : List ℕ)
    → packed_sequence_headers enc ≡ some sequence_bytes
    → packed_slice_header enc (is_idr enc) ≡ some slice_bytes
    → safe watch (some (state (input ∷ device conv) [] false)) (encode_surface enc) (ends_well conv)
      ≡ true
unfolding encode_surface submit_rate_control submit_hrd_param submit_framerate_param
encode_surface-safe conv enc sequence_bytes slice_bytes e f = begin_picture-safe conv _ (
    submit_sequence-safe conv (is_idr enc) enc sequence_bytes _ e (
      then_also-safe conv _ _ _ (submit_misc_rc conv _) (
        then_also-safe conv _ _ _ (submit_misc_hrd conv _) (
          then_also-safe conv _ _ _ (submit_misc_fr conv _) (
            submit_param-safe conv _ _ (
              then_also-safe conv _ _ _
                (submit_packed_slice_header-stays conv (is_idr enc) enc slice_bytes f)
                (slice_param-safe conv _)))))))
