-- ===== src/Transfer.antt =====
-- QXmppTransferManager (client/QXmppTransferManager.cpp): jobs that send and receive files, and the
-- in-band bytestreams (XEP-0047) that carry them.
pub mod Job
pub mod Manager
pub mod Channel
mod Lookup
mod Steps
mod Ending
pub mod Copy
pub mod Full
mod Tests
