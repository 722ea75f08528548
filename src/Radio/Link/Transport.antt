-- ===== src/Radio/Link/Transport.antt =====
-- `run_transport` of radio/mod.rs: one command in flight, and every other frame routed to the
-- state. Each branch of its loop is a function; `Step` says which branch can run when. A reply channel
-- is a number, `now` is what the clock reads, and writing may fail.
use cathub.Prelude.{
  ℕ, ◌+◌, ◌-◌, Bool, true, false, ◌||◌, List, [], ◌∷◌, ◌++◌, Option, none, some, ◌==◌,
  if◌then◌else◌, Bytes, min, ◌*◌,
}

-- `BackendError` of error.rs; the text of a transport failure is left out.
pub data BackendError : Type 0 where
  transport timeout unsupported : BackendError
  rejected : Bytes → BackendError

pub data Reply : Type 0 where
  answer : Bytes → Reply
  failure : BackendError → Reply

pub data Expect : Type 0 where
  verbs : List Bytes → Expect
  lines : ℕ → Expect
  no_reply : Expect

pub data Matcher : Type 0 where
  verb : List Bytes → Matcher
  lines_left : ℕ → Bytes → Matcher

pub record RawCommand : Type 0 where
  pub bytes : Bytes
  pub expect : Expect
  pub reply : ℕ

pub record Pending : Type 0 where
  pub matcher : Matcher
  pub reply : ℕ
  pub deadline : ℕ

-- What the task takes, writes, answers and routes, in order.
pub data Event : Type 0 where
  accepted : ℕ → Event
  wrote : Bytes → Event
  answered : ℕ → Reply → Event
  routed : Bytes → Event

pub data ExitReason : Type 0 where
  shutdown disconnected : ExitReason

pub data Transport : Type 0 where
  running : Option Pending → Transport
  exited : ExitReason → Transport

abbrev pub Outcome : Type 0
Outcome = Transport × List Event

-- `REPLY_TIMEOUT`, in milliseconds.
abbrev pub reply_timeout : ℕ
reply_timeout = 1000

abbrev pub starts_with : Bytes → Bytes → Bool
starts_with frame [] = true
starts_with [] (v ∷ vs) = false
starts_with (b ∷ bs) (v ∷ vs) = if b == v then starts_with bs vs else false

unfoldable pub frame_matches : Bytes → List Bytes → Bool
frame_matches frame [] = false
frame_matches frame (v ∷ vs) = starts_with frame v || frame_matches frame vs

abbrev pub rprt : Bytes
rprt = b'R' ∷ b'P' ∷ b'R' ∷ b'T' ∷ b' ' ∷ []

abbrev pub await : RawCommand → Matcher → ℕ → Option Pending
await c m now = some (record { matcher = m; reply = c.reply; deadline = now + reply_timeout })

abbrev pub expect_reply : RawCommand → Expect → ℕ → Outcome
expect_reply c no_reply now = (running none, answered c.reply (answer []) ∷ [])
expect_reply c (verbs vs) now = (running (await c (verb vs) now), [])
expect_reply c (lines n) now =
    if n == 0
    then (running none, answered c.reply (answer []) ∷ [])
    else (running (await c (lines_left n []) now), [])

abbrev pub prepend : List Event → Outcome → Outcome
prepend es (t, rest) = (t, es ++ rest)

-- A command arrives while none is in flight.
unfoldable pub on_command : RawCommand → (written : Bool) → ℕ → Outcome
on_command c true now =
    prepend (accepted c.reply ∷ wrote c.bytes ∷ []) (expect_reply c c.expect now)
on_command c false now =
    (exited disconnected, accepted c.reply ∷ answered c.reply (failure transport) ∷ [])

abbrev pub match_frame : Pending → Matcher → Bytes → Outcome
match_frame p (verb vs) frame =
    if frame_matches frame vs
    then (running none, answered p.reply (answer frame) ∷ [])
    else (running (some (record p { matcher = verb vs })), routed frame ∷ [])
match_frame p (lines_left remaining acc) frame =
    let gathered = acc ++ frame in
    let left = remaining - 1 in
    if left == 0 || starts_with frame rprt
    then (running none, answered p.reply (answer gathered) ∷ [])
    else (running (some (record p { matcher = lines_left left gathered })), [])

unfoldable pub on_frame : Option Pending → Bytes → Outcome
unfolding frame_matches
on_frame none frame = (running none, routed frame ∷ [])
on_frame (some p) frame = match_frame p p.matcher frame

-- Frames that arrive one after another.
abbrev pub read_on : List Bytes → Transport → Outcome
read_on [] t = (t, [])
read_on (frame ∷ frames) (exited reason) = (exited reason, [])
read_on (frame ∷ frames) (running p) =
    let (t, es) = on_frame p frame in let (u, fs) = read_on frames t in (u, es ++ fs)

-- The deadline of the command in flight passes.
unfoldable pub on_elapsed : Pending → Outcome
on_elapsed p = (running none, answered p.reply (failure timeout) ∷ [])

-- The stream of frames or the channel of commands ends; a command in flight fails.
unfoldable pub on_closed : Option Pending → ExitReason → Outcome
on_closed none reason = (exited reason, [])
on_closed (some p) reason = (exited reason, answered p.reply (failure transport) ∷ [])

-- One turn of the loop. Commands are taken only while none is in flight, and the channel of
-- commands is watched only then.
pub data Step : Transport → Outcome → Type 0 where
  takes :
      (c : RawCommand) (written : Bool) (now : ℕ) → Step (running none) (on_command c written now)
  reads : (p : Option Pending) (frame : Bytes) → Step (running p) (on_frame p frame)
  waits : (p : Pending) → Step (running (some p)) (on_elapsed p)
  ends : (p : Option Pending) → Step (running p) (on_closed p disconnected)
  drops : Step (running none) (on_closed none shutdown)

pub data Run : Transport → Outcome → Type 0 where
  stays : (t : Transport) → Run t (t, [])
  goes :
      (t u v : Transport) (es fs : List Event)
      → Step t (u, es)
      → Run u (v, fs)
      → Run t (v, es ++ fs)

-- The backoff of `run_transport_supervised`, in milliseconds: it doubles after each failed reopening
-- up to its bound, and starts again after a success.
abbrev pub reconnect_initial : ℕ
reconnect_initial = 500

abbrev pub reconnect_max : ℕ
reconnect_max = 5000

unfoldable pub next_backoff : (initial most : ℕ) → (reopened : Bool) → ℕ → ℕ
next_backoff initial most true backoff = initial
next_backoff initial most false backoff = min (backoff * 2) most
