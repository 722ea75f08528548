-- ===== src/Radio.antt =====
-- The radio that the programs share: its model, the state that every endpoint reads, the transmit
-- lease and the permissions of an endpoint (crates/cathub/src).
pub mod Model
pub mod Power
pub mod Tokens
pub mod State
pub mod Replay
pub mod Redundant
pub mod Certainty
pub mod Lease
pub mod Permissions
pub mod Link
pub mod Session
mod Tests
