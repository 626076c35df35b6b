-- ===== src/Trust.antt =====
-- Trust in the keys of end-to-end encryption: the trust storages that stand in memory and the
-- automatic trust management (ATM, XEP-0450) above them.
pub mod Levels
pub mod Storage
pub mod Postponed
pub mod Atm
