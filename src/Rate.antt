-- ===== src/Rate.antt =====
-- The adaptive bitrate of the stream loop in ubuntu/src/main.c. SRT reports the round-trip time in
-- milliseconds as a `double` made from a count of microseconds, and the loop compares it with 20.0
-- and 50.0 only, so here it is that count.
pub mod Bounds
pub mod Settling
use display_bridge.Prelude.{
  ℕ, ◌+◌, ◌-◌, ◌*◌, ◌/◌, ◌^◌, Bool, Option, none, some, List, [], ◌∷◌, ◌&&◌, ◌||◌, ltb, ◌==◌,
  if◌then◌else◌, u64,
}
use display_bridge.Prelude.Int.{ℤ, pos, ◌-ℤ◌, ltb_ℤ, eqb_ℤ}
use display_bridge.Encoder.{Encoder, set_bitrate}

-- The fields of `db_streamer_stats_t` that the loop reads.
pub record Stats : Type 0 where
  pub rtt_us : ℕ
  pub pkt_loss_total : ℤ

-- The locals of the stream loop, with the encoder.
pub record Rate : Type 0 where
  pub encoder : Encoder
  pub current_bitrate : ℕ
  pub prev_loss : ℤ
  pub last_stats_time : ℕ

abbrev pub initial_bitrate : ℕ
initial_bitrate = 15000

-- `loss_delta > 5 || stats.rtt_ms > 50.0`
abbrev pub congested : ℤ → ℕ → Bool
congested loss_delta rtt_us = ltb_ℤ (pos 5) loss_delta || ltb 50000 rtt_us

-- `loss_delta == 0 && stats.rtt_ms < 20.0`
abbrev pub healthy : ℤ → ℕ → Bool
healthy loss_delta rtt_us = eqb_ℤ loss_delta (pos 0) && ltb rtt_us 20000

-- The new target.
unfoldable pub target_bitrate : ℕ → ℤ → ℕ → ℕ
target_bitrate current loss_delta rtt_us =
    if congested loss_delta rtt_us
    then (let target = current * 60 / 100 in if ltb target 5000 then 5000 else target)
    else if healthy loss_delta rtt_us && ltb current 10000
    then (let target = current * 115 / 100 in if ltb 10000 target then 10000 else target)
    else current

-- What the loop does with the statistics.
adapt : Rate → Stats → Rate
adapt r stats =
    let target =
      target_bitrate r.current_bitrate (stats.pkt_loss_total -ℤ r.prev_loss) stats.rtt_us in
    if target == r.current_bitrate
    then record r { prev_loss = stats.pkt_loss_total }
    else record r {
      encoder = set_bitrate r.encoder target;
      current_bitrate = target;
      prev_loss = stats.pkt_loss_total;
    }

-- `uint64_t` subtraction.
abbrev pub elapsed : ℕ → ℕ → ℕ
elapsed now before = u64 (now + 2 ^ 64 - before)

-- The block at the end of each round; `stats` is what `db_streamer_get_stats` gives, if it
-- succeeds.
unfoldable pub poll : Rate → ℕ → Option Stats → Rate
unfolding adapt
poll r now none =
    if ltb 2000000 (elapsed now r.last_stats_time) then record r { last_stats_time = now } else r
poll r now (some stats) =
    if ltb 2000000 (elapsed now r.last_stats_time)
    then adapt (record r { last_stats_time = now }) stats
    else r

-- What a new connection does: the encoder and the locals start again.
unfoldable pub connect : Encoder → ℕ → Rate
unfolding set_bitrate
connect enc now = record {
  encoder = set_bitrate enc initial_bitrate;
  current_bitrate = initial_bitrate;
  prev_loss = pos 0;
  last_stats_time = now;
}

-- A run of rounds.
abbrev pub polls : Rate → List (ℕ × Option Stats) → Rate
polls r [] = r
polls r ((now, stats) ∷ rest) = polls (poll r now stats) rest
