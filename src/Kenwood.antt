-- ===== src/Kenwood.antt =====
-- Kenwood CAT: the TS-590 backend (crates/cathub/src/backend/kenwood/ts590.rs) and the dialects that
-- programs speak to the hub (crates/cathub/src/dialect).
pub mod Frames
pub mod Ts590
pub mod Writes
pub mod Echo
pub mod Status
pub mod Dialect
mod Tests
