-- ===== src/Client.antt =====
-- The outgoing stream of a client.
pub mod Requests
pub mod Configuration
