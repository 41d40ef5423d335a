-- ===== src/Encoder.antt =====
-- The encoder of ubuntu/src/encoder.c and ubuntu/include/encoder.h.
mod State
pub mod Bitrate
pub use State.{Encoder}
unfoldable pub use Bitrate.{set_bitrate}
