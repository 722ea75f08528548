-- ===== src/Keyer.antt =====
-- The WinKeyer side of the daemon: crates/cathub/src/winkeyer.
pub mod Protocol
pub mod Broker
pub mod Endpoint
