-- ===== src/Tests/Rates.antt =====
-- The adaptive bitrate on a congested and on a healthy link.
use display_bridge.Prelude.{ℕ, ◌≡◌, refl, arith, some, none, Option, List, [], ◌∷◌}
use display_bridge.Prelude.Int.{pos}
use display_bridge.Encoder.{Encoder}
use display_bridge.Rate.{Stats, connect, poll, polls, target_bitrate}
use display_bridge.Rate.Bounds.{IsValid, polls-connect}
use display_bridge.Rate.Settling.{Congested, early, failed, over, polls-Congested, seen}

abbrev idle : Encoder
idle = record {
  recon_surfaces = 11 ∷ 12 ∷ [];
  num_recon_surfaces = 2;
  current_recon_idx = 0;
  width = 2880;
  height = 1800;
  bitrate_kbps = 40000;
  fps = 60;
  codec = 1;
  frame_count = 0;
  idr_interval = 120;
}

abbrev rounds : List (ℕ × Option Stats)
rounds =
    (3000000, some (record { rtt_us = 80000; pkt_loss_total = pos 9 }))
    ∷ (6000000, none)
    ∷ (9000000, some (record { rtt_us = 9000; pkt_loss_total = pos 9 }))
    ∷ []

polls-connect_example : IsValid (polls (connect idle 0) rounds)
polls-connect_example = polls-connect idle 0 rounds

-- Three polls with loss, and a round in which the statistics fail.
abbrev losses : List (ℕ × Option Stats)
losses =
    (3000000, some (record { rtt_us = 80000; pkt_loss_total = pos 9 }))
    ∷ (3100000, none)
    ∷ (6000000, none)
    ∷ (9000000, some (record { rtt_us = 9000; pkt_loss_total = pos 20 }))
    ∷ (12000000, some (record { rtt_us = 60000; pkt_loss_total = pos 20 }))
    ∷ []

losses-Congested : Congested (connect idle 0) 3 losses
unfolding connect poll target_bitrate
losses-Congested = seen (omega arith) refl (
    early (omega arith)
      (failed (omega arith) (seen (omega arith) refl (seen (omega arith) refl over))))

polls-Congested_example :
    ((polls (connect idle 0) losses).current_bitrate ≡ 5000)
    × ((polls (connect idle 0) losses).encoder.bitrate_kbps ≡ 5000)
polls-Congested_example =
    polls-Congested 0 (connect idle 0) losses (polls-connect idle 0 []) losses-Congested
