-- ===== src/Stun.antt =====
-- The STUN messages of base/QXmppStun.cpp: QXmppStunMessage with its codec.
pub mod Wire
pub mod AttributeType
pub mod Message
pub mod Encode
pub mod Decode
pub mod RoundTrip
pub mod Total
mod Tests
