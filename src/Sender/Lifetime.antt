-- ===== src/Sender/Lifetime.antt =====
-- What `main` makes and what it leaves.
use display_bridge.Prelude.{
  ℕ, ◌≡◌, refl, ap, ◌∙◌, Bool, true, false, Option, none, some, List, [], ◌∷◌, ◌==◌, if◌then◌else◌,
  get_or,
}
use display_bridge.Calls.{check, run, ◌>>=◌}
use display_bridge.Calls.Held.{Named, is_held, all_held, acquire, release, same_held, same_held→≡}
use display_bridge.Calls.Observer.{safe, follow, safe-run}
use display_bridge.Sender.{
  MainCall, ring_init, ring_destroy, encoder_init, encoder_destroy, capture_init, capture_stop,
  capture_destroy, streamer_init, streamer_destroy, input_init, input_stop, input_destroy,
  discovery_start, discovery_stop, create_capture_thread, join_capture_thread, create_input_thread,
  join_input_thread, serve, Exit, cleanup, run_threads, main,
}

-- The parts and the threads, and a join of a thread that is not there.
pub data Part : Type 0 where
  ring encoder capture streamer input discovery capture_thread input_thread wild_join : Part

abbrev number : Part → ℕ
number ring = 0
number encoder = 1
number capture = 2
number streamer = 3
number input = 4
number discovery = 5
number capture_thread = 6
number input_thread = 7
number wild_join = 8

abbrev name : ℕ → Part
name n =
    get_or
      (ring ∷ encoder ∷ capture ∷ streamer ∷ input ∷ discovery ∷ capture_thread ∷ input_thread
        ∷ wild_join ∷ [])
      n ring

pub name-number : (p : Part) → name (number p) ≡ p
name-number ring = refl
name-number encoder = refl
name-number capture = refl
name-number streamer = refl
name-number input = refl
name-number discovery = refl
name-number capture_thread = refl
name-number input_thread = refl
name-number wild_join = refl

abbrev pub parts : Named Part
parts = record { number = number; name = name; name-number = name-number }

abbrev needs : List Part → List Part → Option (List Part) → Option (List Part)
needs s ps o = if all_held parts ps s then o else none

abbrev lacks : List Part → Part → Option (List Part) → Option (List Part)
lacks s p o = if is_held parts p s then none else o

abbrev creates : List Part → Part → Bool → Option (List Part)
creates s p true = acquire parts p s
creates s p false = some s

-- A join of a thread that was never made leaves its mark.
abbrev joins : List Part → Part → Option (List Part)
joins s p = if is_held parts p s then release parts p s else acquire parts wild_join s

-- A part is made before the threads that use it, and destroyed after they have been joined. The
-- callback of the capture uses the encoder and the ring, and the main loop the streamer.
abbrev pub watch : List Part → MainCall → Bool → Option (List Part)
watch s ring_init b = acquire parts ring s
watch s ring_destroy b = lacks s capture_thread (release parts ring s)
watch s encoder_init b = creates s encoder b
watch s encoder_destroy b = lacks s capture_thread (release parts encoder s)
watch s capture_init b = creates s capture b
watch s capture_stop b = needs s (capture ∷ []) (some s)
watch s capture_destroy b = lacks s capture_thread (release parts capture s)
watch s streamer_init b = creates s streamer b
watch s streamer_destroy b = release parts streamer s
watch s input_init b = creates s input b
watch s input_stop b = needs s (input ∷ []) (some s)
watch s input_destroy b = lacks s input_thread (release parts input s)
watch s discovery_start b = creates s discovery b
watch s discovery_stop b = release parts discovery s
watch s create_capture_thread b =
    needs s (ring ∷ encoder ∷ capture ∷ []) (creates s capture_thread b)
watch s join_capture_thread b = joins s capture_thread
watch s create_input_thread b = needs s (input ∷ []) (creates s input_thread b)
watch s join_input_thread b = joins s input_thread
watch s serve b = needs s (ring ∷ encoder ∷ streamer ∷ capture_thread ∷ []) (some s)

-- What is left: after a failure of the start only the ring; at the end nothing, but for the mark of
-- a join if there was no capture thread.
abbrev pub left_by : Exit → List Part
left_by e = if e.code == 1 then ring ∷ [] else if e.capture_thread then [] else wild_join ∷ []

main-safe : safe watch (some []) main (λ e t. same_held parts t (left_by e)) ≡ true
unfolding main run_threads cleanup check ◌>>=◌
main-safe = refl

-- Whichever parts and threads can be made: `main` makes a part before a thread uses it, joins the
-- threads before it destroys what they use, and destroys every part once, the parts that may be
-- missing if they are there. When it returns 1, only the ring is left, and when it returns 0
-- nothing is; but if the capture thread could not be made, the clean-up joins a thread that is not
-- there.
pub main_lifetime :
    (answers : ℕ → Bool)
    → let r = run answers main in follow watch (some []) r.trace ≡ some (left_by r.value)
main_lifetime answers =
    let p =
      safe-run watch (some []) main (λ e t. same_held parts t (left_by e)) answers main-safe in
    p.followed ∙ ap some (same_held→≡ parts p.final _ p.tested)
