-- ===== src/Input/Lifetime.antt =====
-- What `db_input_init` acquires and `db_input_destroy` releases, on every path.
use display_bridge.Prelude.{
  ℕ, zero, suc, ◌+◌, ◌≡◌, refl, sym, subst, ap, ◌∙◌, Bool, true, false, ◌&&◌, Option, none, some,
  List, [], ◌∷◌, if◌then◌else◌, get_or,
}
use display_bridge.Calls.{Calls, check, or_else, run, ◌>>=◌}
use display_bridge.Calls.Held.{
  Named, is_held, all_held, acquire, release, drop_held, same_held, same_held→≡,
}
use display_bridge.Calls.Observer.{safe, follow, safe-run, safe-bind}
use display_bridge.Input.Device.{
  DeviceCodes, DeviceCall, calloc_input, free_input, open_uinput, close_uinput, set_evbit,
  set_keybit, set_relbit, set_absbit, abs_setup, dev_setup, dev_create, dev_destroy, usleep,
  udp_socket, close_udp, setsockopt, udp_bind, enable_keys, create_device, setup_uinput_device,
  setup_udp_listener, InputHandles, both_handles, after_uinput, input_init, input_destroy,
}

-- What is held, with the states of the device and of the socket.
pub data Resource : Type 0 where
  input uinput configured created udp bound : Resource

abbrev number : Resource → ℕ
number input = 0
number uinput = 1
number configured = 2
number created = 3
number udp = 4
number bound = 5

abbrev name : ℕ → Resource
name n = get_or (input ∷ uinput ∷ configured ∷ created ∷ udp ∷ bound ∷ []) n input

pub name-number : (r : Resource) → name (number r) ≡ r
name-number input = refl
name-number uinput = refl
name-number configured = refl
name-number created = refl
name-number udp = refl
name-number bound = refl

abbrev pub resources : Named Resource
resources = record { number = number; name = name; name-number = name-number }

abbrev needs : List Resource → List Resource → Option (List Resource) → Option (List Resource)
needs s rs o = if all_held resources rs s then o else none

abbrev lacks : List Resource → Resource → Option (List Resource) → Option (List Resource)
lacks s r o = if is_held resources r s then none else o

abbrev creates : List Resource → Resource → Bool → Option (List Resource)
creates s r true = acquire resources r s
creates s r false = some s

-- The bits are set before the device is created, the device is set up before, and a device that was
-- created is destroyed before its descriptor is closed.
abbrev pub watch : List Resource → DeviceCall → Bool → Option (List Resource)
watch s calloc_input b = creates s input b
watch s free_input b = release resources input s
watch s open_uinput b = creates s uinput b
watch s close_uinput b =
    lacks s created (release resources uinput (drop_held resources configured s))
watch s (set_evbit k) b = needs s (uinput ∷ []) (lacks s created (some s))
watch s (set_keybit k) b = needs s (uinput ∷ []) (lacks s created (some s))
watch s (set_relbit k) b = needs s (uinput ∷ []) (lacks s created (some s))
watch s (set_absbit k) b = needs s (uinput ∷ []) (lacks s created (some s))
watch s (abs_setup a) b = needs s (uinput ∷ []) (lacks s created (some s))
watch s (dev_setup id) b = needs s (uinput ∷ []) (lacks s created (creates s configured b))
watch s dev_create b = needs s (configured ∷ []) (creates s created b)
watch s dev_destroy b = release resources created s
watch s usleep b = some s
watch s udp_socket b = creates s udp b
watch s close_udp b = release resources udp (drop_held resources bound s)
watch s (setsockopt o) b = needs s (udp ∷ []) (lacks s bound (some s))
watch s (udp_bind port) b = needs s (udp ∷ []) (creates s bound b)

-- What an input handler holds.
abbrev pub input_holds : List Resource
input_holds = bound ∷ udp ∷ created ∷ configured ∷ uinput ∷ input ∷ []

abbrev pub held_by : Option InputHandles → List Resource
held_by none = []
held_by (some h) = if h.has_uinput && h.has_udp then input_holds else []

abbrev same : List Resource → List Resource → Bool
same s t = same_held resources s t

-- With a device that is open.
abbrev device_open : List Resource
device_open = uinput ∷ input ∷ []

-- A device, or nothing but the handler.
abbrev device_test : Bool → List Resource → Bool
device_test true t = same t (created ∷ configured ∷ device_open)
device_test false t = same t (input ∷ [])

-- The loop over the keys changes nothing that matters.
enable_keys-safe :
    (n i : ℕ) (next : Calls DeviceCall Bool)
    → safe watch (some device_open) next device_test ≡ true
    → safe watch (some device_open) (enable_keys n i next) device_test ≡ true
unfolding enable_keys
enable_keys-safe zero i next h = h
enable_keys-safe (suc n) i next h = enable_keys-safe n (i + 1) next h

setup_uinput_device-safe :
    (d : DeviceCodes) → safe watch (some (input ∷ [])) (setup_uinput_device d) device_test ≡ true
unfolding setup_uinput_device check create_device
setup_uinput_device-safe d = rw (enable_keys-safe d.key_max 0 _ refl) refl

abbrev init_test : Option InputHandles → List Resource → Bool
init_test o t = same t (held_by o)

after_device :
    (port : ℕ) (ok : Bool)
    → safe watch
        (some (if ok then created ∷ configured ∷ device_open else input ∷ []))
        (after_uinput port ok)
        init_test
      ≡ true
unfolding setup_udp_listener check or_else ◌>>=◌
after_device port true = refl
after_device port false = refl

device_states :
    (ok : Bool) (t : List Resource)
    → device_test ok t ≡ true
    → t ≡ (if ok then created ∷ configured ∷ device_open else input ∷ [])
device_states true t h = same_held→≡ resources t _ h
device_states false t h = same_held→≡ resources t _ h

input_init-safe :
    (d : DeviceCodes) (port : ℕ) → safe watch (some []) (input_init d port) init_test ≡ true
unfolding input_init check
input_init-safe d port =
    rw
      (safe-bind watch (some (input ∷ [])) (setup_uinput_device d) (after_uinput port) device_test
        init_test
        (λ ok t h.
          subst (λ u. safe watch (some u) (after_uinput port ok) init_test ≡ true)
            (sym (device_states ok t h)) (after_device port ok))
        (setup_uinput_device-safe d))
      refl

destroy-safe : safe watch (some input_holds) (input_destroy both_handles) (λ b t. same t []) ≡ true
unfolding input_destroy
destroy-safe = refl

-- Whatever the kernel and `calloc` answer to `db_input_init`, the calls come in the order that
-- uinput and the sockets ask for: the bits are set before the device is created, the socket is bound
-- after its options are set. When it succeeds the handler, a device that was created and a socket
-- that is bound are held; when it fails, at whatever step, nothing is. `db_input_destroy` removes
-- the device and releases all of that, each once.
pub input_lifetime :
    (answers : ℕ → Bool) (d : DeviceCodes) (port : ℕ)
    → let r = run answers (input_init d port) in
      (follow watch (some []) r.trace ≡ some (held_by r.value))
      × (follow watch (some input_holds) (run answers (input_destroy both_handles)).trace ≡ some [])
input_lifetime answers d port =
    let p =
      safe-run watch (some []) (input_init d port) init_test answers (input_init-safe d port) in
    let q =
      safe-run watch (some input_holds) (input_destroy both_handles) (λ b t. same t []) answers
        destroy-safe in
    (
      p.followed ∙ ap some (same_held→≡ resources p.final _ p.tested),
      q.followed ∙ ap some (same_held→≡ resources q.final [] q.tested),
    )
