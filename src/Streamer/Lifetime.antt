-- ===== src/Streamer/Lifetime.antt =====
-- What `db_streamer_init` acquires and `db_streamer_destroy` releases, on every path.
use Prim.{Unit, tt}
use display_bridge.Prelude.{
  ℕ, ◌^◌, ◌<◌, ◌≡◌, refl, ap, ◌∙◌, arith, Bool, true, false, not, ◌&&◌, Option, none, some, List,
  [], ◌∷◌, ◌==◌, if◌then◌else◌, get_or, and_both,
}
use display_bridge.Calls.{check, run}
use display_bridge.Calls.Held.{
  Named, is_held, all_held, acquire, release, drop_held, same_held, same_held→≡,
}
use display_bridge.Calls.Observer.{safe, follow, safe-run}
use display_bridge.Streamer.{Streamer}
use display_bridge.Streamer.Observer.{IsValid, is_some}
use display_bridge.Streamer.Sockets.{
  SocketCall, calloc_streamer, free_streamer, malloc_send_buf, free_send_buf, startup, cleanup,
  create_socket, close_listener, close_client, setsockflag, srt_bind, srt_listen, streamer_init,
  streamer_destroy,
}

-- What the streamer holds, with the states of its listening socket.
pub data Resource : Type 0 where
  streamer send_buf library listener bound listening client : Resource

abbrev number : Resource → ℕ
number streamer = 0
number send_buf = 1
number library = 2
number listener = 3
number bound = 4
number listening = 5
number client = 6

abbrev name : ℕ → Resource
name n =
    get_or (streamer ∷ send_buf ∷ library ∷ listener ∷ bound ∷ listening ∷ client ∷ []) n streamer

pub name-number : (r : Resource) → name (number r) ≡ r
name-number streamer = refl
name-number send_buf = refl
name-number library = refl
name-number listener = refl
name-number bound = refl
name-number listening = refl
name-number client = refl

abbrev pub resources : Named Resource
resources = record { number = number; name = name; name-number = name-number }

abbrev needs : List Resource → List Resource → Option (List Resource) → Option (List Resource)
needs s rs o = if all_held resources rs s then o else none

abbrev lacks : List Resource → Resource → Option (List Resource) → Option (List Resource)
lacks s r o = if is_held resources r s then none else o

abbrev creates : List Resource → Resource → Bool → Option (List Resource)
creates s r true = acquire resources r s
creates s r false = some s

-- The options are set before the socket is bound, it is bound before it listens, and the library is
-- left when no socket is open.
abbrev pub watch : List Resource → SocketCall → Bool → Option (List Resource)
watch s calloc_streamer b = creates s streamer b
watch s free_streamer b = lacks s send_buf (release resources streamer s)
watch s (malloc_send_buf size) b = creates s send_buf b
watch s free_send_buf b = release resources send_buf s
watch s startup b = creates s library b
watch s cleanup b = lacks s listener (lacks s client (release resources library s))
watch s create_socket b = needs s (library ∷ []) (creates s listener b)
watch s close_listener b =
    release resources listener (drop_held resources bound (drop_held resources listening s))
watch s close_client b = needs s (library ∷ []) (release resources client s)
watch s (setsockflag o) b = needs s (listener ∷ []) (lacks s bound (some s))
watch s (srt_bind port) b = needs s (listener ∷ []) (creates s bound b)
watch s (srt_listen backlog) b = needs s (bound ∷ []) (creates s listening b)

-- What a streamer holds, with or without a client.
abbrev pub streamer_holds : Option ℕ → List Resource
streamer_holds none = listening ∷ bound ∷ listener ∷ library ∷ send_buf ∷ streamer ∷ []
streamer_holds (some sock) =
    client ∷ listening ∷ bound ∷ listener ∷ library ∷ send_buf ∷ streamer ∷ []

abbrev pub held_by : Option Streamer → List Resource
held_by none = []
held_by (some s) = streamer_holds s.client_sock

abbrev same : List Resource → List Resource → Bool
same s t = same_held resources s t

abbrev is_fresh : Bool → Option ℕ → ℕ → Bool
is_fresh connected (some sock) seq = false
is_fresh connected none seq = not connected && (seq == 0)

abbrev fresh : Option Streamer → Bool
fresh none = true
fresh (some s) = is_fresh s.connected s.client_sock s.seq

fresh_fields :
    (connected : Bool) (client_sock : Option ℕ) (seq : ℕ)
    → is_fresh connected client_sock seq ≡ true
    → (connected ≡ is_some client_sock) × (seq < 2 ^ 16)
fresh_fields true none seq h = ground arith
fresh_fields false none seq h = (refl, ground arith)
fresh_fields connected (some sock) seq h = ground arith

-- What the rest of streamer.c relies on, if there is a streamer.
abbrev pub ValidIfMade : Option Streamer → Type 0
ValidIfMade none = Unit {0}
ValidIfMade (some s) = IsValid s

fresh→Valid : (o : Option Streamer) → fresh o ≡ true → ValidIfMade o
fresh→Valid none h = tt
fresh→Valid (some s) h =
    let fields = fresh_fields s.connected s.client_sock s.seq h in
    record { synced = fields.0; seq_in = fields.1 }

abbrev init_test : Option Streamer → List Resource → Bool
init_test o t = same t (held_by o) && fresh o

init-safe :
    (port latency socket now : ℕ)
    → safe watch (some []) (streamer_init port latency socket now) init_test ≡ true
unfolding streamer_init check
init-safe port latency socket now = refl

destroy-safe :
    (s : Streamer) (client_sock : Option ℕ)
    → safe watch
        (some (streamer_holds client_sock))
        (streamer_destroy (record s { client_sock = client_sock }))
        (λ b t. same t [])
      ≡ true
unfolding streamer_destroy
destroy-safe s none = refl
destroy-safe s (some sock) = refl

-- Whatever SRT and `malloc` answer to `db_streamer_init`, every call keeps their rules: the options
-- are set before the socket is bound, and the library is left only after its sockets are closed.
-- When it fails, at whatever step, nothing is held; when it succeeds the streamer holds itself, its
-- buffer, the library and a socket that is bound and listens, and it is valid for the calls of a
-- session. `db_streamer_destroy` releases all of that, and the client if there is one, each once.
pub streamer_lifetime :
    (answers : ℕ → Bool) (port latency socket now : ℕ) (s : Streamer)
    → let r = run answers (streamer_init port latency socket now) in
      (follow watch (some []) r.trace ≡ some (held_by r.value))
      × ValidIfMade r.value
      × (follow watch (some (streamer_holds s.client_sock)) (run answers (streamer_destroy s)).trace
          ≡ some [])
streamer_lifetime answers port latency socket now s =
    let p =
      safe-run watch (some []) (streamer_init port latency socket now) init_test answers
        (init-safe port latency socket now) in
    let d =
      safe-run watch (some (streamer_holds s.client_sock)) (streamer_destroy s) (λ b t. same t [])
        answers (destroy-safe s s.client_sock) in
    let o = (run answers (streamer_init port latency socket now)).value in
    let both = and_both (same p.final (held_by o)) (fresh o) p.tested in
    (
      p.followed ∙ ap some (same_held→≡ resources p.final (held_by o) both.0),
      fresh→Valid o both.1,
      d.followed ∙ ap some (same_held→≡ resources d.final [] d.tested),
    )
