-- ===== src/Tests.antt =====
-- Concrete inputs for the theorems: streams, encoders, rings and statistics at which their
-- hypotheses hold.
mod Bits
mod Nals
mod Pictures
mod Rings
mod Rates
mod Streams
mod Inputs
mod Gops
mod Captures
mod Devices
mod Screens
mod Services
mod Names
mod Senders
mod Utilities
