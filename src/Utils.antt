-- ===== src/Utils.antt =====
-- The functions of base/QXmppUtils.cpp on bytes: checksums and message authentication.
pub mod Bits
pub mod Crc
pub mod Hmac
mod Tests
