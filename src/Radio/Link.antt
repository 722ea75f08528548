-- ===== src/Radio/Link.antt =====
-- The radio task of radio/mod.rs: framing of the byte stream, matching of replies, reconnection, and
-- the scheduler of operations; and events.rs, the poller.
pub mod Capabilities
pub mod Loopback
pub mod Framer
pub mod Framing
pub mod Scheduler
pub mod Selection
pub mod Fifo
pub mod Drain
pub mod Transport
pub mod Replies
mod Tests
