-- ===== src/Screencast.antt =====
-- The capture of the screen, ubuntu/src/capture.c: what it asks of GLib, of Mutter over D-Bus and of
-- PipeWire. What the code holds goes by the name of its variable.
pub mod Rules
pub mod Mutter
pub mod Pipewire
pub mod Lifetime
pub mod Stream
pub mod Frames
use display_bridge.Prelude.{ℕ, Bool, true, false}

pub data Resource : Type 0 where
  cap dbus session_handle err reply stream_path : Resource
  loop subscription timeout_src attached : Resource
  pw pw_loop pw_ctx pw_core pw_stream : Resource

-- The methods that are called over D-Bus, with the arguments that matter.
pub data Method : Type 0 where
  create_session start : Method
  -- The cursor mode; the connector is `Virtual-1`.
  record_monitor : ℕ → Method

pub data ScreencastCall : Type 0 where
  calloc_cap free_cap : ScreencastCall
  -- GLib and D-Bus.
  bus_get object_unref : ScreencastCall
  call_sync : Method → ScreencastCall
  reply_unref error_free : ScreencastCall
  strdup_session free_session strdup_path free_path : ScreencastCall
  loop_new loop_run loop_unref : ScreencastCall
  signal_subscribe signal_unsubscribe : ScreencastCall
  -- The number of seconds.
  timeout_new : ℕ → ScreencastCall
  source_attach source_destroy source_unref : ScreencastCall
  -- PipeWire.
  init deinit : ScreencastCall
  main_loop_new main_loop_destroy : ScreencastCall
  context_new context_destroy : ScreencastCall
  context_connect core_disconnect : ScreencastCall
  stream_new stream_add_listener stream_disconnect stream_destroy : ScreencastCall
  -- The node.
  stream_connect : ℕ → ScreencastCall
