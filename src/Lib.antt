-- ===== src/Lib.antt =====
-- CatHub: several programs share one transceiver and one WinKeyer.
--
-- The keyer (crates/cathub/src/winkeyer). Programs talk to virtual keyers; protocol.rs cuts their
-- bytes into characters and commands and classifies what the device sends back; broker.rs is the
-- scheduler that owns the one device: it queues jobs, starts one at a time, brings each client's
-- settings before its job, and restores the foreground client's when the keyer goes idle. The
-- scheduler has no clock and does no I/O: every method returns the writes and reports for the actor
-- to carry out. Keyer/Protocol.antt has the definitions of protocol.rs under their Rust names
-- (`from_byte` is `event_from_byte` and `status_from_byte`). Keyer/Broker.antt has broker.rs:
-- State.antt its types, Schedule.antt the hand-over of the keyer (`complete_active`,
-- `start_next_or_restore`, `restore_foreground_speed`), Requests.antt what clients ask for,
-- Cancel.antt cancelling, stopping and observing, Snapshot.antt the view for status queries. A
-- method on `&mut self` is a function from the state to the state and the list of actions. Steps.antt
-- makes the methods a machine whose steps are calls, and `run` is a history of calls.
-- Keyer/Endpoint.antt has endpoint.rs, the session of one virtual keyer: a read of its client's bytes
-- is a function to the new state and the effects on the scheduler and the client, in order; whether the
-- scheduler's actor takes an effect, and the port a byte, is an argument. Its theorems are in
-- Permitted.antt (with Spelled.antt, Parsing.antt and Effects.antt), Texting.antt and Status.antt.
--
-- The virtual serial driver (crates/cathub-virtual-serial/src/protocol.rs). CatHub and a driver
-- exchange frames of tag-length-value fields. VirtualSerial/Wire.antt has the integers and errors,
-- Version.antt versions, message kinds and flags, Fields.antt and Payloads.antt the fields,
-- Frame.antt the frames, Decoder.antt `FrameDecoder`, and Streams.antt streams of frames. The loop
-- that decodes fields runs on fuel, the length of its input: a round consumes at least 6 bytes, and a
-- loop that runs out has no result.
--
-- The radio (crates/cathub/src). Radio/Model.antt and Radio/Power.antt have model.rs, Radio/State.antt
-- has state.rs: the snapshot that every endpoint reads, and the handle that records changes and
-- decides which writes to suppress; `record` is `record_change`, `Snapshot::is_redundant` is
-- `snapshot_is_redundant`, and what is sent to subscribers is a list of events. Replay.antt,
-- Redundant.antt and Certainty.antt prove what these do. Radio/Lease.antt has ptt.rs, the lease of
-- the transmitter, and Radio/Permissions.antt has permissions.rs. Locks are left out: each method
-- runs alone.
--
-- The radio link (radio/mod.rs, with error.rs, backend/mod.rs and events.rs). Radio/Link/Framer.antt
-- has `Framer`, Scheduler.antt the queues of operations with `enqueue`, `select_next` and the loop of
-- `spawn_scheduler` as `round` and `serve`, and Transport.antt `run_transport`: each branch of its loop
-- is a function, `Step` says which branch can run when, and a run lists what the task takes, writes,
-- answers and routes. A reply channel is a number. A round of the scheduler takes what has arrived and
-- executes one operation; what it does to the radio is the backend's. Capabilities.antt has what a
-- backend says of itself and the polling interval. Framing.antt, Selection.antt, Fifo.antt, Drain.antt
-- and Replies.antt prove what these do.
--
-- The TS-590 backend (backend/kenwood/ts590.rs). Kenwood/Frames.antt has frames and their fields,
-- Ts590.antt the status frame, polling, writes and recording; what the link answers is an argument.
-- Text is UTF-8 bytes, and Prelude/Text.antt has what the program uses of Rust's `str`. Echo.antt and
-- Writes.antt read back what the backend writes, Status.antt the status frame.
--
-- Client sessions (dialect/mod.rs) and the Kenwood dialects (dialect/kenwood). Radio/Session.antt has
-- `ClientSessionContext`: `apply_modeled` is cut where it waits for the radio, into `begin_modeled` and
-- `finish_modeled`; Session/Outcomes.antt describes every outcome of the first, and Session/Arbiter.antt is the machine of all sessions with their requests,
-- replies and disconnections in any order (without the watchdog of lib.rs). Kenwood/Dialect.antt has
-- what the dialects share, and Dialect/Ts590.antt, Ts2000.antt and Transparent.antt one dialect each:
-- `handle` is the answer to a request from the snapshot, or the write or the passthrough it asks the
-- session for. Retarget.antt and Keying.antt say what they may send, Presented.antt what a single-VFO
-- session can tell, Answers.antt and Resync.antt what their frames say.
--
-- The server for Hamlib's rigctld protocol (hamlib_net.rs). Hamlib/Words.antt has lines, words and
-- numbers, Commands.antt `dispatch_plain` (the names of its match are the constructors of `Command`, and
-- its answer is a reply or the writes whose outcome is the reply), and Lines.antt `handle_line` and
-- `handle_ext`. Radio/Tokens.antt has the texts of model.rs. Writes.antt, Hidden.antt, Reading.antt and
-- Extended.antt prove what a client can write, what it can tell, and how an extended reply ends. The
-- text of the state dump is an argument, and a line is UTF-8 already. Bridge.antt is the rigctld backend
-- (backend/rigctld.rs), a client of the same protocol, and Chained.antt puts the one behind the other.
-- Radio/Link/Loopback.antt is the in-memory radio (backend/loopback.rs).
--
-- The configuration (config.rs). Config.antt has `validate` and what it calls: each check is the message
-- that refuses, if any. Config/Permissions.antt relates the checks of an endpoint to the permissions
-- that its session takes (winkeyer/endpoint.rs), and Sound.antt says what a checked configuration
-- guarantees. Reading a socket address is an argument.
--
-- Bounds. A byte is a natural number; job ids saturate at 2 ^ 64 - 1 as in the program, and theorems
-- that need fresh ids say so. Instants and durations are numbers of one unit, and a method that reads
-- the clock takes the reading as an argument. A `usize` has 64 bits.
--
-- Sorted maps (`BTreeMap`) are association lists in key order (Prelude/Map.antt).
--
-- Not modelled: serial ports, sockets, tasks and the gRPC service, logging, the command line and the
-- reading and migration of configuration files; the loop of
-- `run_transport_supervised` beyond its backoff; the actor
-- that drives the scheduler (winkeyer/actor.rs). The check that a field is UTF-8 is a parameter.
pub mod Prelude
pub mod Keyer
pub mod VirtualSerial
pub mod Radio
pub mod Kenwood
pub mod Hamlib
pub mod Config
