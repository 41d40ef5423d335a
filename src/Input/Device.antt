-- ===== src/Input/Device.antt =====
-- The set-up and the end of input forwarding in ubuntu/src/input.c: `setup_uinput_device`,
-- `setup_udp_listener`, `db_input_init` and `db_input_destroy`.
use display_bridge.Prelude.{
  ℕ, zero, suc, ◌+◌, ◌-◌, Bool, true, false, Option, none, some, List, [], ◌∷◌, u16,
}
use display_bridge.Calls.{Calls, done, tell, check, where_held, or_else, ◌>>=◌}
use display_bridge.Protocol.{target_width, target_height}
use display_bridge.Input.{EventCodes}

-- The further constants of linux/input-event-codes.h and linux/input.h.
pub record DeviceCodes : Type 0 where
  pub codes : EventCodes
  pub key_max : ℕ
  pub btn_side : ℕ
  pub btn_extra : ℕ
  pub rel_x : ℕ
  pub rel_y : ℕ
  pub bus_virtual : ℕ

-- `struct uinput_abs_setup`, the fields that are not 0.
pub record AbsSetup : Type 0 where
  pub code : ℕ
  pub maximum : ℕ
  pub resolution : ℕ

-- `struct input_id`
pub record InputId : Type 0 where
  pub bustype : ℕ
  pub vendor : ℕ
  pub product : ℕ
  pub version : ℕ

-- The options of the UDP socket.
pub data UdpOption : Type 0 where
  reuseaddr v6only : ℕ → UdpOption
  -- Seconds.
  rcvtimeo : ℕ → UdpOption

pub data DeviceCall : Type 0 where
  calloc_input free_input : DeviceCall
  open_uinput close_uinput : DeviceCall
  set_evbit set_keybit set_relbit set_absbit : ℕ → DeviceCall
  abs_setup : AbsSetup → DeviceCall
  dev_setup : InputId → DeviceCall
  dev_create dev_destroy usleep : DeviceCall
  udp_socket close_udp : DeviceCall
  setsockopt : UdpOption → DeviceCall
  -- The port.
  udp_bind : ℕ → DeviceCall

-- The loop over the keys: the rounds left, and the key.
unfoldable pub enable_keys {ℓ} : {A : Type ℓ} → ℕ → ℕ → Calls DeviceCall A → Calls DeviceCall A
enable_keys zero i next = next
enable_keys (suc n) i next = tell (set_keybit i) (enable_keys n (i + 1) next)

abbrev pub tell_all {ℓ} : {A : Type ℓ} → List DeviceCall → Calls DeviceCall A → Calls DeviceCall A
tell_all [] next = next
tell_all (c ∷ cs) next = tell c (tell_all cs next)

abbrev pub axis : ℕ → ℕ → AbsSetup
axis code maximum = record { code = code; maximum = maximum; resolution = 1 }

abbrev pub close_failed : Calls DeviceCall Bool
close_failed = tell close_uinput (done false)

module _ (d : DeviceCodes) where
  -- The buttons and the axes.
  abbrev pub enable_axes : List DeviceCall
  enable_axes =
      set_keybit d.codes.btn_left
      ∷ set_keybit d.codes.btn_right
      ∷ set_keybit d.codes.btn_middle
      ∷ set_keybit d.btn_side
      ∷ set_keybit d.btn_extra
      ∷ set_relbit d.rel_x
      ∷ set_relbit d.rel_y
      ∷ set_relbit d.codes.rel_wheel
      ∷ set_relbit d.codes.rel_hwheel
      ∷ set_absbit d.codes.abs_x
      ∷ set_absbit d.codes.abs_y
      ∷ abs_setup (axis d.codes.abs_x (target_width - 1))
      ∷ abs_setup (axis d.codes.abs_y (target_height - 1))
      ∷ []

  -- From `UI_DEV_SETUP` on.
  unfoldable pub create_device : Calls DeviceCall Bool
  unfolding check
  create_device =
      check
        (dev_setup (record { bustype = d.bus_virtual; vendor = 0xDB01; product = 1; version = 1 }))
        close_failed (check dev_create close_failed (tell usleep (done true)))

  -- `setup_uinput_device`: whether it gives a device.
  unfoldable pub setup_uinput_device : Calls DeviceCall Bool
  unfolding check enable_keys create_device
  setup_uinput_device = check open_uinput (done false) (
      check (set_evbit d.codes.ev_key) close_failed (
        check (set_evbit d.codes.ev_rel) close_failed (
          check (set_evbit d.codes.ev_abs) close_failed (
            check (set_evbit d.codes.ev_syn) close_failed
              (enable_keys d.key_max 0 (tell_all enable_axes create_device))))))

-- `setup_udp_listener`: whether it gives a socket.
unfoldable pub setup_udp_listener : ℕ → Calls DeviceCall Bool
unfolding check
setup_udp_listener port = check udp_socket (done false) (
    tell (setsockopt (reuseaddr 1)) (
      tell (setsockopt (v6only 0)) (
        tell (setsockopt (rcvtimeo 1))
          (check (udp_bind (u16 port)) (tell close_udp (done false)) (done true)))))

-- `db_input_t`: whether its descriptors are valid.
pub record InputHandles : Type 0 where
  pub has_uinput : Bool
  pub has_udp : Bool

abbrev pub both_handles : InputHandles
both_handles = record { has_uinput = true; has_udp = true }

-- The rest of `db_input_init`, whether there is a device or not; `none` is `NULL`.
abbrev pub after_uinput : ℕ → Bool → Calls DeviceCall (Option InputHandles)
after_uinput port false = tell free_input (done none)
after_uinput port true =
    or_else (setup_udp_listener port)
      (tell dev_destroy (tell close_uinput (tell free_input (done none))))
      (done (some both_handles))

-- `db_input_init`
unfoldable pub input_init : DeviceCodes → ℕ → Calls DeviceCall (Option InputHandles)
unfolding check setup_uinput_device
input_init d port = check calloc_input (done none) (setup_uinput_device d >>= after_uinput port)

abbrev pub destroy_device : Bool → Calls DeviceCall Bool → Calls DeviceCall Bool
destroy_device true next = tell dev_destroy (tell close_uinput next)
destroy_device false next = next

-- `db_input_destroy`
unfoldable pub input_destroy : InputHandles → Calls DeviceCall Bool
input_destroy h =
    destroy_device h.has_uinput (where_held h.has_udp close_udp (tell free_input (done true)))
