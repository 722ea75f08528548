-- ===== src/Hamlib.antt =====
-- The server for Hamlib's rigctld protocol (crates/cathub/src/hamlib_net.rs).
pub mod Words
pub mod Commands
pub mod Lines
pub mod Writes
pub mod Hidden
pub mod Reading
pub mod Extended
pub mod Bridge
pub mod Chained
mod Tests
