-- ===== src/Screencast/Mutter.antt =====
-- `mutter_screencast_init` of ubuntu/src/capture.c and the callbacks that it waits for.
use display_bridge.Prelude.{ℕ, Bool, true, false, ◌||◌, ◌==◌, if◌then◌else◌}
use display_bridge.Calls.{check, Calls, done, tell}
use display_bridge.Screencast.{
  create_session, start, record_monitor, ScreencastCall, bus_get, call_sync, reply_unref,
  error_free, strdup_session, strdup_path, free_path, loop_new, loop_run, loop_unref,
  signal_subscribe, signal_unsubscribe, timeout_new, source_attach, source_destroy, source_unref,
}

-- `pw_stream_added_ctx_t`
pub record AddedContext : Type 0 where
  pub node_id : ℕ
  pub timed_out : Bool

-- `on_pw_stream_added`
unfoldable pub on_pw_stream_added : ℕ → AddedContext → AddedContext
on_pw_stream_added node ctx = record ctx { node_id = node }

-- `mutter_timeout_cb`
unfoldable pub mutter_timeout_cb : AddedContext → AddedContext
mutter_timeout_cb ctx = record ctx { timed_out = true }

-- The callback that ends the wait.
pub data Waited : Type 0 where
  added : ℕ → Waited
  timeout : Waited

unfoldable pub dispatch : Waited → AddedContext → AddedContext
unfolding on_pw_stream_added mutter_timeout_cb
dispatch (added node) ctx = on_pw_stream_added node ctx
dispatch timeout ctx = mutter_timeout_cb ctx

-- What `mutter_screencast_init` sets: whether there is a connection, a session, and the node.
pub record MutterState : Type 0 where
  pub success : Bool
  pub has_dbus : Bool
  pub has_session : Bool
  pub pw_node_id : ℕ

abbrev pub mutter_failed : Bool → Bool → Calls ScreencastCall MutterState
mutter_failed has_dbus has_session =
    done
      (record { success = false; has_dbus = has_dbus; has_session = has_session; pw_node_id = 0 })

-- The node that was announced, unless the wait timed out.
abbrev pub waited_node : AddedContext → Calls ScreencastCall MutterState
waited_node ctx =
    if ctx.timed_out || ctx.node_id == 0
    then mutter_failed true true
    else done
        (record { success = true; has_dbus = true; has_session = true; pw_node_id = ctx.node_id })

-- Step 6.
unfoldable pub wait_for_stream : Waited → Calls ScreencastCall MutterState
unfolding dispatch
wait_for_stream waited = tell (timeout_new 10) (
    tell source_attach (
      tell loop_run (
        tell source_destroy (
          tell source_unref (
            tell signal_unsubscribe (
              tell loop_unref (
                tell free_path
                  (waited_node (dispatch waited (record { node_id = 0; timed_out = false }))))))))))

-- Steps 4 and 5.
unfoldable pub start_session : Waited → Calls ScreencastCall MutterState
unfolding check wait_for_stream
start_session waited = tell loop_new (
    tell signal_subscribe (
      check (call_sync start)
        (tell error_free
          (tell signal_unsubscribe (tell loop_unref (tell free_path (mutter_failed true true)))))
        (tell reply_unref (wait_for_stream waited))))

-- Step 3.
unfoldable pub record_virtual_monitor : Waited → Calls ScreencastCall MutterState
unfolding check start_session
record_virtual_monitor waited =
    check (call_sync (record_monitor 1)) (tell error_free (mutter_failed true true))
      (tell strdup_path (tell reply_unref (start_session waited)))

-- `mutter_screencast_init`
unfoldable pub mutter_screencast_init : Waited → Calls ScreencastCall MutterState
unfolding check record_virtual_monitor
mutter_screencast_init waited = check bus_get (tell error_free (mutter_failed false false)) (
    check (call_sync create_session) (tell error_free (mutter_failed true false))
      (tell strdup_session (tell reply_unref (record_virtual_monitor waited))))
