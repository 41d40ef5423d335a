-- ===== src/Screencast/Rules.antt =====
-- The rules of the libraries that ubuntu/src/capture.c calls, as an observer of the calls.
use display_bridge.Prelude.{
  ℕ, ◌≡◌, refl, Bool, true, false, Option, none, some, List, [], ◌∷◌, if◌then◌else◌, get_or,
}
use display_bridge.Calls.Held.{Named, all_held, acquire, release}
use display_bridge.Screencast.{
  Resource, cap, dbus, session_handle, err, reply, stream_path, loop, subscription, timeout_src,
  attached, pw, pw_loop, pw_ctx, pw_core, pw_stream, ScreencastCall, calloc_cap, free_cap, bus_get,
  object_unref, call_sync, reply_unref, error_free, strdup_session, free_session, strdup_path,
  free_path, loop_new, loop_run, loop_unref, signal_subscribe, signal_unsubscribe, timeout_new,
  source_attach, source_destroy, source_unref, init, deinit, main_loop_new, main_loop_destroy,
  context_new, context_destroy, context_connect, core_disconnect, stream_new, stream_add_listener,
  stream_disconnect, stream_destroy, stream_connect,
}

abbrev number : Resource → ℕ
number cap = 0
number dbus = 1
number session_handle = 2
number err = 3
number reply = 4
number stream_path = 5
number loop = 6
number subscription = 7
number timeout_src = 8
number attached = 9
number pw = 10
number pw_loop = 11
number pw_ctx = 12
number pw_core = 13
number pw_stream = 14

abbrev name : ℕ → Resource
name n =
    get_or
      (cap ∷ dbus ∷ session_handle ∷ err ∷ reply ∷ stream_path ∷ loop ∷ subscription ∷ timeout_src
        ∷ attached ∷ pw ∷ pw_loop ∷ pw_ctx ∷ pw_core ∷ pw_stream ∷ [])
      n cap

pub name-number : (r : Resource) → name (number r) ≡ r
name-number cap = refl
name-number dbus = refl
name-number session_handle = refl
name-number err = refl
name-number reply = refl
name-number stream_path = refl
name-number loop = refl
name-number subscription = refl
name-number timeout_src = refl
name-number attached = refl
name-number pw = refl
name-number pw_loop = refl
name-number pw_ctx = refl
name-number pw_core = refl
name-number pw_stream = refl

abbrev pub resources : Named Resource
resources = record { number = number; name = name; name-number = name-number }

-- What is held.
abbrev pub Holding : Type 0
Holding = List Resource

abbrev needs : Holding → List Resource → Option Holding → Option Holding
needs s rs o = if all_held resources rs s then o else none

abbrev creates : Holding → Resource → Bool → Option Holding
creates s r true = acquire resources r s
creates s r false = some s

-- A call that gives a value, or else an error to be freed.
abbrev replies : Holding → Resource → Bool → Option Holding
replies s r true = acquire resources r s
replies s r false = acquire resources err s

-- A source that is attached is destroyed before its last reference goes.
abbrev pub watch : Holding → ScreencastCall → Bool → Option Holding
watch s calloc_cap b = creates s cap b
watch s free_cap b = release resources cap s
watch s bus_get b = replies s dbus b
watch s object_unref b = release resources dbus s
watch s (call_sync method) b = needs s (dbus ∷ []) (replies s reply b)
watch s reply_unref b = release resources reply s
watch s error_free b = release resources err s
watch s strdup_session b = needs s (reply ∷ []) (acquire resources session_handle s)
watch s free_session b = release resources session_handle s
watch s strdup_path b = needs s (reply ∷ []) (acquire resources stream_path s)
watch s free_path b = release resources stream_path s
watch s loop_new b = acquire resources loop s
watch s loop_run b = needs s (loop ∷ subscription ∷ attached ∷ []) (some s)
watch s loop_unref b = release resources loop s
watch s signal_subscribe b = needs s (dbus ∷ stream_path ∷ []) (acquire resources subscription s)
watch s signal_unsubscribe b = needs s (dbus ∷ []) (release resources subscription s)
watch s (timeout_new seconds) b = acquire resources timeout_src s
watch s source_attach b = needs s (timeout_src ∷ loop ∷ []) (acquire resources attached s)
watch s source_destroy b = needs s (timeout_src ∷ []) (release resources attached s)
watch s source_unref b =
    if all_held resources (attached ∷ []) s then none else release resources timeout_src s
watch s init b = acquire resources pw s
watch s deinit b = release resources pw s
watch s main_loop_new b = needs s (pw ∷ []) (creates s pw_loop b)
watch s main_loop_destroy b = needs s (pw ∷ []) (release resources pw_loop s)
watch s context_new b = needs s (pw_loop ∷ []) (creates s pw_ctx b)
watch s context_destroy b = needs s (pw_loop ∷ []) (release resources pw_ctx s)
watch s context_connect b = needs s (pw_ctx ∷ []) (creates s pw_core b)
watch s core_disconnect b = needs s (pw_ctx ∷ []) (release resources pw_core s)
watch s stream_new b = needs s (pw_core ∷ []) (creates s pw_stream b)
watch s stream_add_listener b = needs s (pw_stream ∷ []) (some s)
watch s (stream_connect node) b = needs s (pw_stream ∷ []) (some s)
watch s stream_disconnect b = needs s (pw_stream ∷ []) (some s)
watch s stream_destroy b = needs s (pw_core ∷ []) (release resources pw_stream s)
