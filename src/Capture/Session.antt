-- ===== src/Capture/Session.antt =====
-- The capture callback over VA-API, frame after frame, up to the first that is not delivered.
use mathlib.Core.List.{Memᴰ}
use display_bridge.Prelude.{
  ℕ, ◌^◌, ◌<◌, ◌≤◌, ◌≡◌, refl, ap, arith, Bool, true, false, ◌&&◌, Option, none, some, List, [],
  ◌∷◌, if◌then◌else◌, u32, ◌%◌, ◌==◌, Bool-cases, inl, inr,
}
use display_bridge.Calls.{Calls, done, run, ◌>>=◌}
use display_bridge.Calls.Observer.{safe, follow, safe-run, safe-bind}
use display_bridge.Encoder.{Encoder}
use display_bridge.Gop.{advance, force_idr}
use display_bridge.Headers.Sps.{IsPictureSize}
use display_bridge.Protocol.{target_width}
use display_bridge.Va.{VaImage, VaCall}
use display_bridge.Va.Rules.{VaState, watch, one_of, all_of, all_of-one_of, one_of→Memᴰ}
use display_bridge.Va.Bracket.{device, state}
use display_bridge.Va.Frames.{ConvBuf, encode_bgrx, encode_dmabuf, release_frame}
use display_bridge.Va.Lifetime.{
  HeadersFit, headers_fit, frame_endings, frame_ends, ends_with, encode_bgrx-safe,
  encode_dmabuf-safe,
}

-- A captured picture of the target size: whether there are data, with the pixels, `stride`, which is
-- a file descriptor if there are none, and the image that `vaDeriveImage` gives; whether the encoder
-- puts anything into the coded buffer; and whether the main thread forces an IDR picture before it.
pub record Shot : Type 0 where
  pub has_data : Bool
  pub pixels : ℕ → ℕ
  pub stride : ℕ
  pub image : VaImage
  pub has_output : Bool
  pub forced : Bool

-- The two ways to encode it.
unfoldable pub encode_shot : Encoder → ConvBuf → Shot → Calls VaCall (Bool × ConvBuf)
unfolding encode_bgrx encode_dmabuf ◌>>=◌
encode_shot enc conv s =
    if s.has_data
    then encode_bgrx enc conv s.pixels (u32 s.stride) s.image
    else (encode_dmabuf enc s.stride target_width 0 0 >>= λ ret. done (ret, conv))

-- A frame with output is pushed, and the coded buffer is released; without output the callback
-- returns at once.
abbrev pub release_shot : Bool → Bool × ConvBuf → Calls VaCall (Bool × ConvBuf)
release_shot has_output (false, conv) = done (false, conv)
release_shot false (true, conv) = done (false, conv)
release_shot true (true, conv) = release_frame >>= λ ok. done (true, conv)

unfoldable pub capture_shot : Encoder → ConvBuf → Shot → Calls VaCall (Bool × ConvBuf)
unfolding encode_shot ◌>>=◌
capture_shot enc conv s = encode_shot enc conv s >>= λ r. release_shot s.has_output r

abbrev pub encoder_at : Encoder → Shot → Encoder
encoder_at enc s = if s.forced then force_idr enc else enc

abbrev go_on :
    (ConvBuf → Calls VaCall (Option ConvBuf)) → Bool × ConvBuf → Calls VaCall (Option ConvBuf)
go_on next (true, conv) = next conv
go_on next (false, conv) = done none

-- The conversion buffer after all of them, if every one was delivered.
unfoldable pub capture_shots : Encoder → ConvBuf → List Shot → Calls VaCall (Option ConvBuf)
unfolding capture_shot ◌>>=◌
capture_shots enc conv [] = done (some conv)
capture_shots enc conv (s ∷ rest) =
    let now = encoder_at enc s in
    capture_shot now conv s >>= λ r. go_on (λ c. capture_shots (advance now true) c rest) r

-- An encoder whose headers fit.
pub record IsReady (enc : Encoder) : Type 0 where
  pub fps_in : enc.fps < 2 ^ 32
  pub size_in : IsPictureSize enc
  pub interval_pos : 0 < enc.idr_interval
  pub interval_in : enc.idr_interval ≤ 2 ^ 12

advance-IsReady : (enc : Encoder) → IsReady enc → IsReady (advance enc true)
unfolding advance
advance-IsReady enc r = record {
  fps_in = r.fps_in;
  size_in = r.size_in;
  interval_pos = r.interval_pos;
  interval_in = r.interval_in;
}

force_idr-IsReady : (enc : Encoder) → IsReady enc → IsReady (force_idr enc)
unfolding force_idr
force_idr-IsReady enc r = elim (Bool-cases (enc.frame_count % enc.idr_interval == 0)) [
  | inl e ↦ rw e r
  | inr e ↦ rw e (record {
    fps_in = r.fps_in;
    size_in = r.size_in;
    interval_pos = r.interval_pos;
    interval_in = r.interval_in;
  })
]

encoder_at-IsReady : (enc : Encoder) (s : Shot) → IsReady enc → IsReady (encoder_at enc s)
encoder_at-IsReady enc s r = elim (Bool-cases s.forced) [
  | inl e ↦ rw e (force_idr-IsReady enc r)
  | inr e ↦ rw e r
]

ready-HeadersFit : (enc : Encoder) → IsReady enc → HeadersFit enc
ready-HeadersFit enc r =
    headers_fit enc r.fps_in r.size_in (grind (arith, r.interval_pos, r.interval_in))

-- With nothing mapped.
abbrev idle : Bool → VaState
idle conv = state (device conv) [] false

-- After a frame that was delivered nothing is mapped.
abbrev shot_ends : Bool × ConvBuf → VaState → Bool
shot_ends (true, conv) t = one_of (idle conv.present ∷ []) t
shot_ends (false, conv) t = true

abbrev shots_end : Option ConvBuf → VaState → Bool
shots_end none t = true
shots_end (some conv) t = one_of (idle conv.present ∷ []) t

release_shot-safe :
    (has_output ret present : Bool) (size : ℕ)
    → all_of
        (λ t.
          safe watch
            (some t)
            (release_shot has_output (ret, record { present = present; size = size }))
            shot_ends)
        (frame_endings present ret)
      ≡ true
unfolding release_frame ◌>>=◌
release_shot-safe true true true size = refl
release_shot-safe true true false size = refl
release_shot-safe true false true size = refl
release_shot-safe true false false size = refl
release_shot-safe false true true size = refl
release_shot-safe false true false size = refl
release_shot-safe false false true size = refl
release_shot-safe false false false size = refl

if-safe :
    {A : Type 0} (t : VaState) (b : Bool) (p q : Calls VaCall A) (test : A → VaState → Bool)
    → safe watch (some t) p test ≡ true
    → safe watch (some t) q test ≡ true
    → safe watch (some t) (if b then p else q) test ≡ true
if-safe t true p q test h k = h
if-safe t false p q test h k = k

encode_shot-safe :
    (enc : Encoder) (conv : ConvBuf) (s : Shot)
    → HeadersFit enc
    → safe watch (some (idle conv.present)) (encode_shot enc conv s) ends_with ≡ true
unfolding encode_shot
encode_shot-safe enc conv s h =
    let dmabuf = encode_dmabuf enc s.stride target_width 0 0 in
    if-safe (idle conv.present) s.has_data (encode_bgrx enc conv s.pixels (u32 s.stride) s.image)
      (dmabuf >>= λ ret. done (ret, conv)) ends_with
      (encode_bgrx-safe enc conv s.pixels (u32 s.stride) s.image h)
      (safe-bind watch (some (idle conv.present)) dmabuf (λ ret. done (ret, conv))
        (frame_ends conv.present) ends_with (λ ok t e. e)
        (encode_dmabuf-safe conv.present enc s.stride target_width 0 0 h))

capture_shot-safe :
    (enc : Encoder) (conv : ConvBuf) (s : Shot)
    → HeadersFit enc
    → safe watch (some (idle conv.present)) (capture_shot enc conv s) shot_ends ≡ true
unfolding capture_shot
capture_shot-safe enc conv s h =
    safe-bind watch (some (idle conv.present)) (encode_shot enc conv s) (release_shot s.has_output)
      ends_with shot_ends
      (λ r t e.
        all_of-one_of (λ u. safe watch (some u) (release_shot s.has_output r) shot_ends)
          (frame_endings r.1.present r.0) t
          (release_shot-safe s.has_output r.0 r.1.present r.1.size) e)
      (encode_shot-safe enc conv s h)

go_on-safe :
    (next : ConvBuf → Calls VaCall (Option ConvBuf)) (r : Bool × ConvBuf) (t : VaState)
    → ((c : ConvBuf) → safe watch (some (idle c.present)) (next c) shots_end ≡ true)
    → shot_ends r t ≡ true
    → safe watch (some t) (go_on next r) shots_end ≡ true
go_on-safe next (true, c) t h e =
    all_of-one_of (λ u. safe watch (some u) (next c) shots_end) (idle c.present ∷ []) t
      (ap (λ b. b && true) (h c)) e
go_on-safe next (false, c) t h e = refl

idle-one_of : (present : Bool) → one_of (idle present ∷ []) (idle present) ≡ true
idle-one_of true = refl
idle-one_of false = refl

capture_shots-safe :
    (shots : List Shot) (enc : Encoder) (conv : ConvBuf)
    → IsReady enc
    → safe watch (some (idle conv.present)) (capture_shots enc conv shots) shots_end ≡ true
unfolding capture_shots
capture_shots-safe [] enc conv r = idle-one_of conv.present
capture_shots-safe (s ∷ rest) enc conv r =
    let now = encoder_at enc s in
    let ready = encoder_at-IsReady enc s r in
    safe-bind watch (some (idle conv.present)) (capture_shot now conv s)
      (go_on (λ c. capture_shots (advance now true) c rest)) shot_ends shots_end
      (λ x t e.
        go_on-safe (λ c. capture_shots (advance now true) c rest) x t
          (λ c. capture_shots-safe rest (advance now true) c (advance-IsReady now ready)) e)
      (capture_shot-safe now conv s (ready-HeadersFit now ready))

-- The device as it was at first, if every picture was delivered.
abbrev pub Restored : Option ConvBuf → VaState → Type 0
Restored none t = Unit {0}
Restored (some conv) t = t ≡ state (device conv.present) [] false

shots_end-Restored : (o : Option ConvBuf) (t : VaState) → shots_end o t ≡ true → Restored o t
shots_end-Restored none t h = tt
shots_end-Restored (some conv) t h = elim (one_of→Memᴰ (idle conv.present ∷ []) t h) [
  | Memᴰ.head e ↦ e
  | Memᴰ.tail m ↦ elim m [ ]
]

-- Whatever VA-API and `malloc` answer to the callback over any number of pictures, with data or as
-- DMA-BUFs, and whenever an IDR picture is forced, for an encoder whose headers fit: every call keeps
-- the rules of VA-API, up to and with the first picture that is not delivered. If all are delivered,
-- the device is at the end as it was at first: nothing is mapped, no picture is open, and of the
-- handles only the conversion buffer may be new.
pub capture_shots_lifetime :
    (answers : ℕ → Bool) (shots : List Shot) (enc : Encoder) (conv : ConvBuf)
    → IsReady enc
    → let r = run answers (capture_shots enc conv shots) in
      (t : VaState) × (follow watch (some (state (device conv.present) [] false)) r.trace ≡ some t)
      × Restored r.value t
capture_shots_lifetime answers shots enc conv ready =
    let p =
      safe-run watch (some (idle conv.present)) (capture_shots enc conv shots) shots_end answers
        (capture_shots-safe shots enc conv ready) in
    (p.final, p.followed, shots_end-Restored _ p.final p.tested)
