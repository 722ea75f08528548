-- ===== src/VirtualSerial.antt =====
-- crates/cathub-virtual-serial/src/protocol.rs: the frames between CatHub and the virtual serial
-- driver. Tags, lengths and ids are numbers; the theorems say where they fit their width. `usize`
-- has 64 bits, so that the `try_from` and `checked_add` on it never fail and are left out.
pub mod Wire
pub mod Version
pub mod Fields
pub mod Payloads
pub mod Frame
pub mod Decoder
pub mod Streams
mod Tests
