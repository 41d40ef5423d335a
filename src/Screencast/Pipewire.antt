-- ===== src/Screencast/Pipewire.antt =====
-- `setup_pw_stream`, `db_capture_init` and `db_capture_destroy` of ubuntu/src/capture.c.
use display_bridge.Prelude.{ℕ, Bool, true, false, Option, none, some}
use display_bridge.Calls.{check, where_held, Calls, done, tell, ◌>>=◌}
use display_bridge.Screencast.{
  ScreencastCall, calloc_cap, free_cap, object_unref, free_session, init, deinit, main_loop_new,
  main_loop_destroy, context_new, context_destroy, context_connect, core_disconnect, stream_new,
  stream_add_listener, stream_disconnect, stream_destroy, stream_connect,
}
use display_bridge.Screencast.Mutter.{MutterState, Waited, mutter_screencast_init}

-- The fields of `struct db_capture` that are handles: whether they are not `NULL`; and the node.
pub record Capture : Type 0 where
  pub has_dbus : Bool
  pub has_session : Bool
  pub pw_node_id : ℕ
  pub has_loop : Bool
  pub has_ctx : Bool
  pub has_core : Bool
  pub has_stream : Bool

-- The value of `setup_pw_stream`, `true` for 0, with the fields.
pub record SetUp : Type 0 where
  pub success : Bool
  pub capture : Capture

abbrev pub stopped : Bool → Capture → Calls ScreencastCall SetUp
stopped success capture = done (record { success = success; capture = capture })

-- `setup_pw_stream`
unfoldable pub setup_pw_stream : Capture → Calls ScreencastCall SetUp
unfolding check
setup_pw_stream c =
    let with_loop = record c { has_loop = true } in
    let with_ctx = record with_loop { has_ctx = true } in
    let with_core = record with_ctx { has_core = true } in
    let with_stream = record with_core { has_stream = true } in
    tell init (
      check main_loop_new (stopped false c) (
        check context_new (stopped false with_loop) (
          check context_connect (stopped false with_ctx) (
            check stream_new (stopped false with_core) (
              tell stream_add_listener (
                check (stream_connect c.pw_node_id) (stopped false with_stream)
                  (stopped true with_stream)))))))

abbrev pub drop_stream {ℓ} : {A : Type ℓ} → Bool → Calls ScreencastCall A → Calls ScreencastCall A
drop_stream true next = tell stream_disconnect (tell stream_destroy next)
drop_stream false next = next

-- `db_capture_destroy`; `free_session` of `NULL` does nothing.
unfoldable pub destroy : Capture → Calls ScreencastCall (Option Capture)
destroy c = drop_stream c.has_stream (
    where_held c.has_core core_disconnect (
      where_held c.has_ctx context_destroy (
        where_held c.has_loop main_loop_destroy (
          tell deinit (
            where_held c.has_dbus object_unref
              (where_held c.has_session free_session (tell free_cap (done none))))))))

-- What follows `mutter_screencast_init` in `db_capture_init`.
unfoldable pub after_mutter : MutterState → Calls ScreencastCall (Option Capture)
unfolding setup_pw_stream destroy ◌>>=◌
after_mutter m =
    let capture : Capture = record {
      has_dbus = m.has_dbus;
      has_session = m.has_session;
      pw_node_id = m.pw_node_id;
      has_loop = false;
      has_ctx = false;
      has_core = false;
      has_stream = false;
    } in
    elim m.success [
      | true ↦ setup_pw_stream capture >>= λ s. elim s.success [
        | true ↦ done (some s.capture)
        | false ↦ destroy s.capture
      ]
      | false ↦ where_held m.has_session free_session (tell free_cap (done none))
    ]

-- `db_capture_init`; `none` is `NULL`.
unfoldable pub capture_init : Waited → Calls ScreencastCall (Option Capture)
unfolding check mutter_screencast_init after_mutter ◌>>=◌
capture_init waited = check calloc_cap (done none) (mutter_screencast_init waited >>= after_mutter)
