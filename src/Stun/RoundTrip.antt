-- ===== src/Stun/RoundTrip.antt =====
-- The decoder on what the encoder writes.
mod Rounds
mod Blocks
mod Addresses
mod Attributes
pub mod Body
mod Frames
mod Tail
pub mod Whole
