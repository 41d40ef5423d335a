-- ===== src/Rate/Bounds.antt =====
-- Over any connection the bitrate stays between 5 and 15 Mbit/s, and the encoder has it.
use display_bridge.Prelude.{ℕ, ◌≤◌, ◌<◌, ◌≡◌, arith, Option, none, some, List, [], ◌∷◌}
use display_bridge.Prelude.Int.{ℤ, ◌-ℤ◌}
use display_bridge.Encoder.{Encoder, set_bitrate}
use display_bridge.Rate.{Stats, Rate, initial_bitrate, target_bitrate, adapt, poll, connect, polls}

pub record IsValid (r : Rate) : Type 0 where
  pub at_least : 5000 ≤ r.current_bitrate
  pub at_most : r.current_bitrate ≤ initial_bitrate
  pub synced : r.encoder.bitrate_kbps ≡ r.current_bitrate

pub target_bitrate_bounds :
    (current : ℕ) (loss_delta : ℤ) (rtt_us : ℕ)
    → 5000 ≤ current
    → current ≤ initial_bitrate
    → (5000 ≤ target_bitrate current loss_delta rtt_us)
      × (target_bitrate current loss_delta rtt_us ≤ initial_bitrate)
unfolding target_bitrate
target_bitrate_bounds current loss_delta rtt_us lo hi = ground arith

set_bitrate_lem : (enc : Encoder) (kbps : ℕ) → 0 < kbps → (set_bitrate enc kbps).bitrate_kbps ≡ kbps
unfolding set_bitrate
set_bitrate_lem enc kbps h = ground arith

connect-IsValid : (enc : Encoder) (now : ℕ) → IsValid (connect enc now)
unfolding connect
connect-IsValid enc now = record {
  at_least = omega arith;
  at_most = omega arith;
  synced = set_bitrate_lem enc initial_bitrate (omega arith);
}

adapt-IsValid : (r : Rate) (stats : Stats) → IsValid r → IsValid (adapt r stats)
unfolding adapt
adapt-IsValid r stats v =
    let target =
      target_bitrate r.current_bitrate (stats.pkt_loss_total -ℤ r.prev_loss) stats.rtt_us in
    let bounds =
      target_bitrate_bounds r.current_bitrate (stats.pkt_loss_total -ℤ r.prev_loss) stats.rtt_us
        v.at_least v.at_most in
    ground (arith, bounds, set_bitrate_lem r.encoder target)

poll-IsValid : (r : Rate) (now : ℕ) (stats : Option Stats) → IsValid r → IsValid (poll r now stats)
unfolding poll
poll-IsValid r now none v = ground arith
poll-IsValid r now (some stats) v =
    ground (arith, adapt-IsValid (record r { last_stats_time = now }) stats)

pub polls-IsValid :
    (rounds : List (ℕ × Option Stats)) (r : Rate) → IsValid r → IsValid (polls r rounds)
polls-IsValid [] r v = v
polls-IsValid ((now, stats) ∷ rest) r v =
    polls-IsValid rest (poll r now stats) (poll-IsValid r now stats v)

-- From the moment a receiver connects, whatever the network does and however often the statistics
-- fail, the bitrate is between 5000 and 15000 kbit/s, and the encoder is set to it.
pub polls-connect :
    (enc : Encoder) (now : ℕ) (rounds : List (ℕ × Option Stats))
    → IsValid (polls (connect enc now) rounds)
polls-connect enc now rounds = polls-IsValid rounds (connect enc now) (connect-IsValid enc now)
