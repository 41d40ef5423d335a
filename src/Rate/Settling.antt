-- ===== src/Rate/Settling.antt =====
-- Where the bitrate settles when every poll sees congestion.
use display_bridge.Prelude.{
  ℕ, zero, suc, ◌*◌, ◌/◌, ◌≤◌, ◌<◌, ◌≡◌, refl, arith, true, Option, none, some, List, [], ◌∷◌,
  lt→ltb, le→ltb, if◌then◌else◌, ◌∙◌, ltb,
}
use display_bridge.Prelude.Int.{◌-ℤ◌}
use display_bridge.Rate.{
  Stats, Rate, initial_bitrate, congested, target_bitrate, elapsed, adapt, poll, polls,
}
use display_bridge.Rate.Bounds.{IsValid, polls-IsValid}

-- Rounds of the loop in which the statistics, whenever they are read, show congestion; the number is
-- how often they are read. Other rounds come within two seconds of the last poll, or
-- `db_streamer_get_stats` fails.
pub data Congested : Rate → ℕ → List (ℕ × Option Stats) → Type 0 where
  over : {r : Rate} → Congested r zero []
  early :
      {r : Rate} {n now : ℕ} {stats : Option Stats} {rest : List (ℕ × Option Stats)}
      → elapsed now r.last_stats_time ≤ 2000000
      → Congested (poll r now stats) n rest
      → Congested r n ((now, stats) ∷ rest)
  failed :
      {r : Rate} {n now : ℕ} {rest : List (ℕ × Option Stats)}
      → 2000000 < elapsed now r.last_stats_time
      → Congested (poll r now none) n rest
      → Congested r n ((now, none) ∷ rest)
  seen :
      {r : Rate} {n now : ℕ} {stats : Stats} {rest : List (ℕ × Option Stats)}
      → 2000000 < elapsed now r.last_stats_time
      → congested (stats.pkt_loss_total -ℤ r.prev_loss) stats.rtt_us ≡ true
      → Congested (poll r now (some stats)) n rest
      → Congested r (suc n) ((now, some stats) ∷ rest)

-- One step down.
abbrev down : ℕ → ℕ
down b = if ltb (b * 60 / 100) 5000 then 5000 else b * 60 / 100

abbrev downs : ℕ → ℕ → ℕ
downs zero b = b
downs (suc n) b = downs n (down b)

down_mono : (a b : ℕ) → a ≤ b → down a ≤ down b
down_mono a b h = ground arith

early_lem :
    (r : Rate) (now : ℕ) (stats : Option Stats)
    → elapsed now r.last_stats_time ≤ 2000000
    → (poll r now stats).current_bitrate ≡ r.current_bitrate
unfolding poll
early_lem r now none h = rw (le→ltb 2000000 (elapsed now r.last_stats_time) h) refl
early_lem r now (some stats) h = rw (le→ltb 2000000 (elapsed now r.last_stats_time) h) refl

failed_lem : (r : Rate) (now : ℕ) → (poll r now none).current_bitrate ≡ r.current_bitrate
unfolding poll
failed_lem r now = ground arith

seen_lem :
    (r : Rate) (now : ℕ) (stats : Stats)
    → 2000000 < elapsed now r.last_stats_time
    → congested (stats.pkt_loss_total -ℤ r.prev_loss) stats.rtt_us ≡ true
    → (poll r now (some stats)).current_bitrate ≡ down r.current_bitrate
unfolding poll adapt target_bitrate
seen_lem r now stats due bad =
    rw (lt→ltb 2000000 (elapsed now r.last_stats_time) due, bad) (ground arith)

polls_bound :
    (b n : ℕ) (r : Rate) (rounds : List (ℕ × Option Stats))
    → Congested r n rounds
    → r.current_bitrate ≤ b
    → (polls r rounds).current_bitrate ≤ downs n b
polls_bound b zero r [] over h = h
polls_bound b (suc n) r [] c h = elim c [ ]
polls_bound b n r ((now, stats) ∷ rest) (early soon c) h =
    polls_bound b n (poll r now stats) rest c (omega (arith, early_lem r now stats soon, h))
polls_bound b n r ((now, none) ∷ rest) (failed due c) h =
    polls_bound b n (poll r now none) rest c (omega (arith, failed_lem r now, h))
polls_bound b (suc n) r ((now, some stats) ∷ rest) (seen due bad c) h =
    polls_bound (down b) n (poll r now (some stats)) rest c
      (omega (arith, seen_lem r now stats due bad, down_mono r.current_bitrate b h))

downs_low : (n : ℕ) → downs n 5000 ≡ 5000
downs_low zero = refl
downs_low (suc n) = downs_low n

-- From any valid state of the loop, and in particular from a new connection, after rounds in which
-- the statistics were read at least three times and showed congestion each time, the bitrate is
-- 5000 kbit/s, and the encoder is set to it. Rounds in between that come too early or whose
-- statistics fail change nothing.
pub polls-Congested :
    (n : ℕ) (r : Rate) (rounds : List (ℕ × Option Stats))
    → IsValid r
    → Congested r (suc (suc (suc n))) rounds
    → ((polls r rounds).current_bitrate ≡ 5000) × ((polls r rounds).encoder.bitrate_kbps ≡ 5000)
polls-Congested n r rounds v c =
    let last = polls-IsValid rounds r v in
    let high : (polls r rounds).current_bitrate ≤ downs n 5000 =
      polls_bound initial_bitrate (suc (suc (suc n))) r rounds c v.at_most in
    let settled : (polls r rounds).current_bitrate ≡ 5000 =
      omega (arith, high, downs_low n, last.at_least) in
    (settled, last.synced ∙ settled)
