-- ===== src/Sender.antt =====
-- `main` of ubuntu/src/main.c: how it starts the parts of the sender, and how it stops them. The
-- answer of a call is whether the part could be made, and the main loop is one call.
pub mod Frames
pub mod Waiting
pub mod Reading
pub mod Same
pub mod Refine
pub mod Order
pub mod Receiving
pub mod Shown
pub mod Delivery
pub mod Shutdown
pub mod Stream
pub mod Service
pub mod Lifetime
use display_bridge.Prelude.{ℕ, Bool, true, false}
use display_bridge.Calls.{Calls, done, tell, check, ask, where_held, ◌>>=◌}

pub data MainCall : Type 0 where
  ring_init ring_destroy : MainCall
  encoder_init encoder_destroy : MainCall
  capture_init capture_stop capture_destroy : MainCall
  streamer_init streamer_destroy : MainCall
  input_init input_stop input_destroy : MainCall
  discovery_start discovery_stop : MainCall
  create_capture_thread join_capture_thread : MainCall
  create_input_thread join_input_thread : MainCall
  serve : MainCall

-- How `main` ends: its value, and whether the capture thread was made.
pub record Exit : Type 0 where
  pub code : ℕ
  pub capture_thread : Bool

abbrev pub exits : ℕ → Bool → Calls MainCall Exit
exits code capture_thread = done (record { code = code; capture_thread = capture_thread })

-- The threads and the parts that may be missing at the label `cleanup`.
pub record Started : Type 0 where
  pub has_input : Bool
  pub has_discovery : Bool
  pub has_capture_thread : Bool
  pub has_input_thread : Bool

-- From the label `cleanup` on.
unfoldable pub cleanup : Started → Calls MainCall Exit
cleanup s = tell capture_stop (
    where_held s.has_input input_stop (
      tell join_capture_thread (
        where_held s.has_input_thread join_input_thread (
          where_held s.has_discovery discovery_stop (
            where_held s.has_input input_destroy (
              tell streamer_destroy (
                tell capture_destroy
                  (tell encoder_destroy (tell ring_destroy (exits 0 s.has_capture_thread))))))))))

-- The input thread, if there is an input handler: whether it is made.
abbrev pub start_input_thread : Bool → Calls MainCall Bool
start_input_thread true = ask create_input_thread done
start_input_thread false = done false

-- Steps 6 and 7.
unfoldable pub run_threads : Bool → Bool → Calls MainCall Exit
unfolding check cleanup ◌>>=◌
run_threads has_input has_discovery =
    check create_capture_thread
      (cleanup (record {
        has_input = has_input;
        has_discovery = has_discovery;
        has_capture_thread = false;
        has_input_thread = false;
      }))
      (start_input_thread has_input >>= λ has_input_thread. tell serve (
        cleanup (record {
          has_input = has_input;
          has_discovery = has_discovery;
          has_capture_thread = true;
          has_input_thread = has_input_thread;
        })))

-- `main`
unfoldable pub main : Calls MainCall Exit
unfolding check run_threads
main = tell ring_init (
    check encoder_init (exits 1 false) (
      check capture_init (tell encoder_destroy (exits 1 false)) (
        check streamer_init (tell capture_destroy (tell encoder_destroy (exits 1 false))) (
          ask input_init λ has_input.
            ask discovery_start λ has_discovery. run_threads has_input has_discovery))))
