-- ===== src/Sender/Shown.antt =====
-- A round of the stream loop hands SRT the frame that was popped, or none.
use mathlib.Core.List.{Sublist, nil-sublist}
use display_bridge.Prelude.{
  ℕ, ◌≡◌, sym, subst, ap, ◌∙◌, Bool, true, false, Option, none, some, List, [], ◌∷◌, ◌++◌, ltb,
  if◌then◌else◌, length, append-nil,
}
use display_bridge.Rate.{elapsed, poll}
use display_bridge.Streamer.Sockets.{get_stats}
use display_bridge.Ring.{Frame}
use display_bridge.Streamer.{Effect, Outcome, send, send_heartbeat, is_connected}
use display_bridge.Streamer.Observer.{IsValid}
use display_bridge.Sender.Order.{arriving, data_of}
use display_bridge.Sender.Receiving.{
  videos, videos-append, videos-send, videos-send_heartbeat, videos-is_connected,
}
use display_bridge.Sender.Stream.{
  Loop, Round, Turn, turn, sent_turn, before, send_frame, keep_alive, send_or_keep, poll_stats,
}

-- A turn hands at most these frames to SRT.
abbrev pub Shows : Turn → List (List ℕ) → Type 0
Shows t d = Sublist (videos t.effects) d

if-Shows :
    (b : Bool) (t u : Turn) (d : List (List ℕ))
    → Shows t d
    → Shows u d
    → Shows (if b then t else u) d
if-Shows true t u d h k = h
if-Shows false t u d h k = k

pub quiet-Shows : (es : List Effect) (d : List (List ℕ)) → videos es ≡ [] → Sublist (videos es) d
quiet-Shows es d e = subst (λ v. Sublist v d) (sym e) (nil-sublist d)

-- With something before or after it that has no frames.
append-Shows :
    (es fs : List Effect) (d : List (List ℕ))
    → Sublist (videos es) d
    → videos fs ≡ []
    → Sublist (videos (es ++ fs)) d
append-Shows es fs d h e =
    subst (λ v. Sublist v d)
      (sym (videos-append es fs ∙ ap (λ v. videos es ++ v) e ∙ append-nil (videos es))) h

-- After a send that failed, whatever the state of the socket is.
again-Shows :
    (goes_on : Bool) (l : Loop) (r : Round) (o again : Outcome) (d : List (List ℕ))
    → Sublist (videos (o.effects ++ again.effects)) d
    → Shows
        (before o.effects (if goes_on then sent_turn l r.sent_at again else turn false l again))
        d
again-Shows true l r o again d h = h
again-Shows false l r o again d h = h

send_frame-Shows :
    (l : Loop) (r : Round) (f : Frame)
    → IsValid l.streamer
    → Shows (send_frame l r f) (arriving f ∷ [])
unfolding send_frame
send_frame-Shows l r f v =
    let o = send l.streamer f.data_bytes f.pts f.is_keyframe r.now r.sent r.send_status in
    let again = is_connected o.streamer r.second_status in
    let d = arriving f ∷ [] in
    let sent =
      videos-send l.streamer f.data_bytes f.pts f.is_keyframe r.now r.sent r.send_status v.seq_in in
    let both =
      append-Shows o.effects again.effects d sent
        (videos-is_connected o.streamer r.second_status) in
    if-Shows o.success (sent_turn l r.sent_at o)
      (before o.effects (if again.success then sent_turn l r.sent_at again else turn false l again))
      d sent (again-Shows again.success l r o again d both)

keep_alive-Shows :
    (l : Loop) (r : Round) (d : List (List ℕ)) → IsValid l.streamer → Shows (keep_alive l r) d
unfolding keep_alive
keep_alive-Shows l r d v =
    let o = send_heartbeat l.streamer r.now r.sent r.send_status in
    let beat =
      quiet-Shows o.effects d
        (videos-send_heartbeat l.streamer r.now r.sent r.send_status v.seq_in) in
    if-Shows (ltb 1000000 (elapsed r.now l.last_send_time))
      (if o.success then sent_turn l r.now o else turn false l o)
      (record { goes_on = true; loop = l; effects = [] }) d
      (if-Shows o.success (sent_turn l r.now o) (turn false l o) d beat beat) (nil-sublist d)

pub send_or_keep-Shows :
    (l : Loop) (r : Round) (popped : Option Frame)
    → IsValid l.streamer
    → Shows (send_or_keep l r popped) (data_of popped)
send_or_keep-Shows l r none v = keep_alive-Shows l r [] v
send_or_keep-Shows l r (some f) v =
    if-Shows (ltb 0 (length f.data_bytes)) (send_frame l r f) (keep_alive l r) (arriving f ∷ [])
      (send_frame-Shows l r f v) (keep_alive-Shows l r (arriving f ∷ []) v)

pub poll_stats-Shows :
    (r : Round) (t : Turn) (d : List (List ℕ)) → Shows t d → Shows (poll_stats r t) d
poll_stats-Shows r t d h =
    if-Shows t.goes_on
      (record t {
        loop = record t.loop {
          rate = poll t.loop.rate r.now_abs (get_stats t.loop.streamer r.perf);
        };
      })
      t d h h
