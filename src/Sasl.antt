-- ===== src/Sasl.antt =====
-- SASL: the mechanisms, their clients and servers of base/QXmppSasl.cpp, and the managers of
-- client/QXmppSaslManager.cpp.
pub mod Mechanism
pub mod Credentials
pub mod Choose
pub mod Message
pub mod DigestMd5
pub mod Scram
pub mod Clients
pub mod Servers
pub mod Manager
pub mod Manager2
pub mod Fast
mod Tests
