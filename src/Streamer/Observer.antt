-- ===== src/Streamer/Observer.antt =====
-- An observer of what streamer.c asks of SRT, who knows the protocol.
use display_bridge.Prelude.{
  ℕ, ◌+◌, ◌^◌, ◌<◌, ◌≡◌, refl, sym, Bool, true, false, ◌&&◌, Option, none, some, List, [], ◌∷◌,
  ◌++◌, ◌==◌, if◌then◌else◌, u16,
}
use display_bridge.Protocol.{packet_header_at}
use display_bridge.Streamer.{Streamer, Effect, accepted, closed, message}

-- An observer of SRT that knows the open client socket and the number of its next message, and
-- gives up at a call that breaks the protocol: a second client, a call on a socket that is not the
-- open one, or a message out of sequence.
abbrev pub Observed : Type 0
Observed = Option (ℕ × ℕ)

abbrev pub seq_of : List ℕ → ℕ
seq_of bytes = (packet_header_at bytes).seq

abbrev pub watch : Observed → Effect → Option Observed
watch none (accepted sock) = some (some (sock, 0))
watch none (closed sock) = none
watch none (message sock bytes) = none
watch (some (current, n)) (accepted sock) = none
watch (some (current, n)) (closed sock) = if current == sock then some none else none
watch (some (current, n)) (message sock bytes) =
    if (current == sock) && (seq_of bytes == n) then some (some (current, u16 (n + 1))) else none

abbrev pub follow : Option Observed → List Effect → Option Observed
follow none es = none
follow (some o) [] = some o
follow (some o) (e ∷ es) = follow (watch o e) es

-- What the streamer itself holds.
abbrev pub held : Option ℕ → ℕ → Observed
held none seq = none
held (some sock) seq = some (sock, seq)

abbrev pub view : Streamer → Observed
view s = held s.client_sock s.seq

abbrev pub is_some : Option ℕ → Bool
is_some none = false
is_some (some k) = true

pub record IsValid (s : Streamer) : Type 0 where
  pub synced : s.connected ≡ is_some s.client_sock
  pub seq_in : s.seq < 2 ^ 16

follow-none : (es : List Effect) → follow none es ≡ none
follow-none [] = refl
follow-none (e ∷ es) = refl

pub follow-append :
    (o : Option Observed) (es fs : List Effect) → follow o (es ++ fs) ≡ follow (follow o es) fs
follow-append none [] fs = refl
follow-append none (e ∷ es) fs = sym (follow-none fs)
follow-append (some o) [] fs = refl
follow-append (some o) (e ∷ es) fs = follow-append (watch o e) es fs
