-- ===== src/Stream.antt =====
-- The stream layer: stream management (XEP-0198) and the table of pending IQ requests.
pub mod Ack
pub mod Nonzas
pub mod Failed
