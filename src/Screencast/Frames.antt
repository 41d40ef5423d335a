-- ===== src/Screencast/Frames.antt =====
-- What the callbacks of capture.c promise to PipeWire and to main.c.
use display_bridge.Prelude.{
  ℕ, ◌≡◌, refl, sym, ap, ◌∙◌, Bool, true, false, ◌&&◌, Option, none, some, List, [], ◌∷◌, ◌++◌, ltb,
  ◌==◌, ==_iff, if◌then◌else◌,
}
use display_bridge.Screencast.Stream.{
  VideoInfo, StreamState, SpaData, dma_buf, mem_ptr, mem_fd, other_data, PwBuffer, StreamCall,
  dequeued, queued, frame, update_params, quit, parse_error, not_raw, raw, on_stream_param_changed,
  deliver, delivered, on_stream_process, on_stream_state_changed, capture_stop, StreamEvent,
  param_changed, process, state_changed, stopped, handle, events,
}

-- An observer of the stream: the buffer that is out, and the size that PipeWire was told.
pub record Observed : Type 0 where
  pub out : Option ℕ
  pub told : Option (ℕ × ℕ)

abbrev is_buffer : Option ℕ → ℕ → Bool
is_buffer none n = false
is_buffer (some m) n = m == n

abbrev is_told : Option (ℕ × ℕ) → ℕ → ℕ → Bool
is_told none w h = false
is_told (some size) w h = (size.0 == w) && (size.1 == h)

abbrev is_out : Option ℕ → Bool
is_out none = false
is_out (some m) = true

-- One buffer is out at a time, and the frames are those of the buffer that is out, in the size that
-- was agreed on last.
abbrev pub watch : Observed → StreamCall → Option Observed
watch o (dequeued n) = if is_out o.out then none else some (record o { out = some n })
watch o (queued n) = if is_buffer o.out n then some (record o { out = none }) else none
watch o (frame has_data w h stride) = if is_out o.out && is_told o.told w h then some o else none
watch o (update_params w h) = if is_out o.out then none else some (record o { told = some (w, h) })
watch o quit = some o

abbrev pub follow : Option Observed → List StreamCall → Option Observed
follow none cs = none
follow (some o) [] = some o
follow (some o) (c ∷ cs) = follow (watch o c) cs

abbrev size_of : Option VideoInfo → Option (ℕ × ℕ)
size_of none = none
size_of (some info) = some (info.width, info.height)

-- Between two callbacks no buffer is out.
abbrev pub between : StreamState → Observed
between s = record { out = none; told = size_of s.video_info }

follow-none : (cs : List StreamCall) → follow none cs ≡ none
follow-none [] = refl
follow-none (c ∷ cs) = refl

follow-append :
    (o : Option Observed) (cs ds : List StreamCall) → follow o (cs ++ ds) ≡ follow (follow o cs) ds
follow-append none [] ds = refl
follow-append none (c ∷ cs) ds = sym (follow-none ds)
follow-append (some o) [] ds = refl
follow-append (some o) (c ∷ cs) ds = follow-append (watch o c) cs ds

same : (n : ℕ) → (n == n) ≡ true
same n = (==_iff n n).1 refl

-- The calls between taking a buffer and giving it back.
abbrev holding : ℕ → Option VideoInfo → Observed
holding n info = record { out = some n; told = size_of info }

if-follow :
    (b : Bool) (o : Observed) (cs : List StreamCall)
    → follow (some o) cs ≡ some o
    → follow (some o) (if b then cs else []) ≡ some o
if-follow true o cs h = h
if-follow false o cs h = refl

frame_allowed :
    (n : ℕ) (info : VideoInfo) (has_data : Bool) (stride : ℕ)
    → follow (some (holding n (some info))) (frame has_data info.width info.height stride ∷ [])
      ≡ some (holding n (some info))
frame_allowed n info has_data stride = rw (follow, watch, same info.width, same info.height) refl

deliver_allowed :
    (s : StreamState) (n : ℕ) (info : VideoInfo) (d : SpaData)
    → follow (some (holding n (some info))) (deliver s info d) ≡ some (holding n (some info))
deliver_allowed s n info (dma_buf fd) =
    if-follow s.has_callback (holding n (some info)) (frame false info.width info.height fd ∷ [])
      (frame_allowed n info false fd)
deliver_allowed s n info (mem_ptr has_data size stride) =
    if-follow (ltb 0 size && (has_data && s.has_callback)) (holding n (some info))
      (frame true info.width info.height stride ∷ []) (frame_allowed n info true stride)
deliver_allowed s n info (mem_fd has_data size stride) =
    if-follow (ltb 0 size && (has_data && s.has_callback)) (holding n (some info))
      (frame true info.width info.height stride ∷ []) (frame_allowed n info true stride)
deliver_allowed s n info other_data = refl

delivered_allowed :
    (s : StreamState) (n : ℕ) (info : Option VideoInfo) (d : Option SpaData)
    → follow (some (holding n info)) (delivered s info d) ≡ some (holding n info)
delivered_allowed s n info none = refl
delivered_allowed s n none (some d) = refl
delivered_allowed s n (some info) (some d) = deliver_allowed s n info d

handle_allowed :
    (s : StreamState) (e : StreamEvent)
    → follow (some (between s)) (handle s e).calls ≡ some (between (handle s e).after)
unfolding on_stream_param_changed on_stream_process on_stream_state_changed capture_stop
handle_allowed s (param_changed false is_format parsed) = refl
handle_allowed s (param_changed true false parsed) = refl
handle_allowed s (param_changed true true parse_error) = refl
handle_allowed s (param_changed true true not_raw) = refl
handle_allowed s (param_changed true true (raw info)) = refl
handle_allowed s (process none) = refl
handle_allowed s (process (some b)) =
    follow-append (some (holding b.number s.video_info)) (delivered s s.video_info b.contents)
      (queued b.number ∷ [])
    ∙ ap (λ o. follow o (queued b.number ∷ []))
        (delivered_allowed s b.number s.video_info b.contents)
    ∙ rw (follow, watch, same b.number) refl
handle_allowed s (state_changed true) = refl
handle_allowed s (state_changed false) = refl
handle_allowed s stopped = refl

-- In any run of the callbacks of a stream, every buffer that is taken from PipeWire is given back
-- before the next event, once, and after its frame has been handed to main.c; at most frames of
-- taken buffers are handed over, none before a raw format was agreed on, and all in the size of the
-- last one that was.
pub events-follow :
    (es : List StreamEvent) (s : StreamState)
    → follow (some (between s)) (events s es).1 ≡ some (between (events s es).0)
unfolding events
events-follow [] s = refl
events-follow (e ∷ es) s =
    follow-append (some (between s)) (handle s e).calls (events (handle s e).after es).1
    ∙ ap (λ o. follow o (events (handle s e).after es).1) (handle_allowed s e)
    ∙ events-follow es (handle s e).after

-- The format of the pixels makes no difference to what is handed over.
abbrev with_format : ℕ → StreamState → VideoInfo → StreamState
with_format n s info = record s { video_info = some (record info { format = n }) }

-- For any two pixel formats, the frame of a buffer is handed to main.c in the same way, so the bytes
-- of a stream in RGBx or RGBA are taken for BGRx.
on_stream_process_format :
    (s : StreamState) (info : VideoInfo) (m n : ℕ) (buffer : Option PwBuffer)
    → (on_stream_process (with_format m s info) buffer).calls
      ≡ (on_stream_process (with_format n s info) buffer).calls
unfolding on_stream_process
on_stream_process_format s info m n none = refl
on_stream_process_format s info m n (some b) = go b.contents
  where
    go :
        (d : Option SpaData)
        → dequeued b.number
            ∷ (delivered (with_format m s info) (some (record info { format = m })) d
                ++ (queued b.number ∷ []))
          ≡ dequeued b.number
            ∷ (delivered (with_format n s info) (some (record info { format = n })) d
                ++ (queued b.number ∷ []))
    go none = refl
    go (some (dma_buf fd)) = refl
    go (some (mem_ptr has_data size stride)) = refl
    go (some (mem_fd has_data size stride)) = refl
    go (some other_data) = refl
