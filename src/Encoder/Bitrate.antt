-- ===== src/Encoder/Bitrate.antt =====
-- `db_encoder_set_bitrate` of ubuntu/src/encoder.c; 0 stands for the values that are not positive.
use display_bridge.Prelude.{ℕ, ◌==◌, if◌then◌else◌}
use display_bridge.Encoder.State.{Encoder}

unfoldable pub set_bitrate : Encoder → ℕ → Encoder
set_bitrate enc kbps =
    if kbps == 0
    then enc
    else if enc.bitrate_kbps == kbps
    then enc
    else record enc { bitrate_kbps = kbps }
