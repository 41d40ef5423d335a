-- ===== src/Va/Lifetime.antt =====
-- What the functions of ubuntu/src/encoder.c leave of the handles that they acquire.
use mathlib.Core.List.{Memᴰ}
use display_bridge.Prelude.{
  ℕ, ◌^◌, ◌<◌, ◌≡◌, refl, Bool, true, false, not, ◌||◌, some, List, [], ◌∷◌, ltb, u32,
}
use display_bridge.Calls.{check, done, tell, ◌>>=◌, run}
use display_bridge.Calls.Observer.{safe, follow, safe-run, safe-bind}
use display_bridge.Encoder.{Encoder}
use display_bridge.Gop.{is_idr}
use display_bridge.Packed.{packed_sequence_headers, packed_slice_header}
use display_bridge.Va.{
  coded_buf, input, seq_buf, pic_buf, slice_buf, VaImage, VaCall, destroy_surfaces,
}
use display_bridge.Va.Rules.{VaState, watch, one_of, all_of, one_of→Memᴰ, all_of-one_of}
use display_bridge.Va.Surface.{encode_surface}
use display_bridge.Va.Bracket.{device, state, endings, ends_well, encode_surface-safe}
use display_bridge.Packed.Contents.{packed_sequence_headers_lem, packed_slice_header_lem}
use display_bridge.Headers.Slice.{order_count}
use display_bridge.Headers.Sps.{IsPictureSize}
use display_bridge.Va.Frames.{
  import_dmabuf_surface, encode_input, encode_dmabuf, encode_nv12, ConvBuf, allocated,
  ensure_conv_buf, needed, convert_and_encode, encode_bgrx,
}

-- The states that the functions that encode can end in.
abbrev pub frame_endings : Bool → Bool → List VaState
frame_endings conv true = state (device conv) (coded_buf ∷ []) false ∷ []
frame_endings conv false =
    state (device conv) [] false
    ∷ state (seq_buf ∷ device conv) [] false
    ∷ state (pic_buf ∷ device conv) [] false
    ∷ state (slice_buf ∷ device conv) [] false
    ∷ []

abbrev pub frame_ends : Bool → Bool → VaState → Bool
frame_ends conv ok t = one_of (frame_endings conv ok) t

-- The headers of the encoder fit their arrays.
pub record HeadersFit (enc : Encoder) : Type 0 where
  pub sequence_bytes : List ℕ
  pub slice_bytes : List ℕ
  pub sequence_fits : packed_sequence_headers enc ≡ some sequence_bytes
  pub slice_fits : packed_slice_header enc (is_idr enc) ≡ some slice_bytes

destroys_input :
    (conv ok : Bool)
    → all_of
        (λ t. safe watch (some t) (tell (destroy_surfaces input) (done ok)) (frame_ends conv))
        (endings conv ok)
      ≡ true
destroys_input true true = refl
destroys_input true false = refl
destroys_input false true = refl
destroys_input false false = refl

encode_input-safe :
    (conv : Bool) (enc : Encoder)
    → HeadersFit enc
    → safe watch (some (state (input ∷ device conv) [] false)) (encode_input enc) (frame_ends conv)
      ≡ true
unfolding encode_input
encode_input-safe conv enc h =
    safe-bind watch (some (state (input ∷ device conv) [] false)) (encode_surface enc) _
      (ends_well conv) (frame_ends conv)
      (λ ok t e.
        all_of-one_of
          (λ t. safe watch (some t) (tell (destroy_surfaces input) (done ok)) (frame_ends conv))
          (endings conv ok) t (destroys_input conv ok) e)
      (encode_surface-safe conv enc h.sequence_bytes h.slice_bytes h.sequence_fits h.slice_fits)

encode_nv12-safe :
    (conv : Bool) (enc : Encoder) (stride : ℕ) (image : VaImage)
    → HeadersFit enc
    → safe watch
        (some (state (device conv) [] false))
        (encode_nv12 enc stride image)
        (frame_ends conv)
      ≡ true
unfolding encode_nv12 check
encode_nv12-safe true enc stride image h = rw (encode_input-safe true enc h) refl
encode_nv12-safe false enc stride image h = rw (encode_input-safe false enc h) refl

pub encode_dmabuf-safe :
    (conv : Bool) (enc : Encoder) (dmabuf_fd stride offset drm_modifier : ℕ)
    → HeadersFit enc
    → safe watch
        (some (state (device conv) [] false))
        (encode_dmabuf enc dmabuf_fd stride offset drm_modifier)
        (frame_ends conv)
      ≡ true
unfolding encode_dmabuf import_dmabuf_surface ◌>>=◌
encode_dmabuf-safe true enc dmabuf_fd stride offset drm_modifier h =
    rw (encode_input-safe true enc h) refl
encode_dmabuf-safe false enc dmabuf_fd stride offset drm_modifier h =
    rw (encode_input-safe false enc h) refl

abbrev pub ends_with : (Bool × ConvBuf) → VaState → Bool
ends_with v t = frame_ends v.1.present v.0 t

convert_and_encode-safe :
    (size : ℕ) (enc : Encoder) (bgrx : ℕ → ℕ) (stride : ℕ) (image : VaImage)
    → HeadersFit enc
    → safe watch
        (some (state (device true) [] false))
        (convert_and_encode enc bgrx stride image (record { present = true; size = size }))
        ends_with
      ≡ true
unfolding convert_and_encode
convert_and_encode-safe size enc bgrx stride image h =
    safe-bind watch (some (state (device true) [] false)) (encode_nv12 enc (u32 enc.width) image) _
      (frame_ends true) ends_with (λ ok t e. e) (encode_nv12-safe true enc (u32 enc.width) image h)

no_buffer-safe :
    (enc : Encoder) (bgrx : ℕ → ℕ) (stride : ℕ) (image : VaImage)
    → safe watch
        (some (state (device false) [] false))
        (convert_and_encode enc bgrx stride image (allocated (needed enc) false))
        ends_with
      ≡ true
unfolding convert_and_encode
no_buffer-safe enc bgrx stride image = refl

ensure-safe :
    (enc : Encoder) (size : ℕ) (bgrx : ℕ → ℕ) (stride : ℕ) (image : VaImage)
    → HeadersFit enc
    → (present smaller : Bool)
    → safe watch
        (some (state (device present) [] false))
        (ensure_conv_buf
            (smaller || not present)
            (needed enc)
            (record { present = present; size = size })
          >>= convert_and_encode enc bgrx stride image)
        ends_with
      ≡ true
unfolding ensure_conv_buf ◌>>=◌
ensure-safe enc size bgrx stride image h true true =
    rw
      (
        convert_and_encode-safe (needed enc) enc bgrx stride image h,
        no_buffer-safe enc bgrx stride image,
      )
      refl
ensure-safe enc size bgrx stride image h true false =
    convert_and_encode-safe size enc bgrx stride image h
ensure-safe enc size bgrx stride image h false true =
    rw
      (
        convert_and_encode-safe (needed enc) enc bgrx stride image h,
        no_buffer-safe enc bgrx stride image,
      )
      refl
ensure-safe enc size bgrx stride image h false false =
    rw
      (
        convert_and_encode-safe (needed enc) enc bgrx stride image h,
        no_buffer-safe enc bgrx stride image,
      )
      refl

pub encode_bgrx-safe :
    (enc : Encoder) (conv : ConvBuf) (bgrx : ℕ → ℕ) (stride : ℕ) (image : VaImage)
    → HeadersFit enc
    → safe watch
        (some (state (device conv.present) [] false))
        (encode_bgrx enc conv bgrx stride image)
        ends_with
      ≡ true
unfolding encode_bgrx
encode_bgrx-safe enc conv bgrx stride image h =
    ensure-safe enc conv.size bgrx stride image h conv.present (ltb conv.size (needed enc))

pub headers_fit :
    (enc : Encoder)
    → enc.fps < 2 ^ 32
    → IsPictureSize enc
    → order_count enc < 2 ^ 12
    → HeadersFit enc
headers_fit enc h size count =
    let sequence = packed_sequence_headers_lem enc h size in
    let slice = packed_slice_header_lem enc (is_idr enc) count in
    record { sequence_bytes = _; slice_bytes = _; sequence_fits = sequence.3; slice_fits = slice.1 }

-- The observer accepts what a function asked for, and ends in one of some states.
pub EndsIn : VaState → List (VaCall × Bool) → List VaState → Type 0
EndsIn s trace ends = (t : VaState) × Memᴰ t ends × (follow watch (some s) trace ≡ some t)

-- Whatever VA-API and `malloc` answer to `db_encoder_encode_bgrx`, for a frame rate below
-- `2 ^ 32`, a picture size that does not overflow an `int` and an order count of at most 12 bits:
-- every call keeps the rules of VA-API, the picture that is begun is ended exactly once, and the
-- input surface, the image and the buffers are released on every path. When it succeeds the device
-- is as before with the coded buffer mapped; when it fails nothing is mapped, and at most the
-- sequence, picture or slice buffer of a failed `vaRenderPicture` is left.
pub encode_bgrx_lifetime :
    (answers : ℕ → Bool) (enc : Encoder) (conv : ConvBuf) (bgrx : ℕ → ℕ) (stride : ℕ)
    (image : VaImage)
    → enc.fps < 2 ^ 32
    → IsPictureSize enc
    → order_count enc < 2 ^ 12
    → let r = run answers (encode_bgrx enc conv bgrx stride image) in
      EndsIn
        (state (device conv.present) [] false)
        r.trace
        (frame_endings r.value.1.present r.value.0)
unfolding EndsIn
encode_bgrx_lifetime answers enc conv bgrx stride image h size count =
    let p =
      safe-run watch (some (state (device conv.present) [] false))
        (encode_bgrx enc conv bgrx stride image) ends_with answers
        (encode_bgrx-safe enc conv bgrx stride image (headers_fit enc h size count)) in
    (p.final, one_of→Memᴰ _ p.final p.tested, p.followed)

-- The same of `db_encoder_encode_dmabuf`, which leaves the conversion buffer as it is.
encode_dmabuf_lifetime :
    (answers : ℕ → Bool) (conv : Bool) (enc : Encoder) (dmabuf_fd stride offset drm_modifier : ℕ)
    → enc.fps < 2 ^ 32
    → IsPictureSize enc
    → order_count enc < 2 ^ 12
    → let r = run answers (encode_dmabuf enc dmabuf_fd stride offset drm_modifier) in
      EndsIn (state (device conv) [] false) r.trace (frame_endings conv r.value)
unfolding EndsIn
encode_dmabuf_lifetime answers conv enc dmabuf_fd stride offset drm_modifier h size count =
    let p =
      safe-run watch (some (state (device conv) [] false))
        (encode_dmabuf enc dmabuf_fd stride offset drm_modifier) (frame_ends conv) answers
        (encode_dmabuf-safe conv enc dmabuf_fd stride offset drm_modifier
          (headers_fit enc h size count)) in
    (p.final, one_of→Memᴰ _ p.final p.tested, p.followed)
