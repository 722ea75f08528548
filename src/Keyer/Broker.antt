-- ===== src/Keyer/Broker.antt =====
-- crates/cathub/src/winkeyer/broker.rs.
pub mod State
pub mod Schedule
pub mod Requests
pub mod Cancel
pub mod Jobs
pub mod Cancelling
pub mod Invariant
pub mod Clients
pub mod Enqueue
pub mod Growth
pub mod Steps
pub mod Sound
pub mod Histories
pub mod Accounting
pub mod Counter
pub mod Ledger
pub mod Handover
pub mod Safety
pub mod Snapshot
mod Tests
