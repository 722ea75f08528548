-- ===== src/Kenwood/Dialect.antt =====
-- What the client dialects share (dialect/mod.rs and dialect/kenwood/mod.rs). A dialect's `handle` is
-- its answer to a request from the snapshot, an `Action`, and what the session then does: a reply, a
-- modeled write or a command passed through. `session.ai` is an argument.
pub mod Ts590
pub mod Ts2000
pub mod Transparent
pub mod Retarget
pub mod Presented
pub mod Keying
pub mod Answers
pub mod Resync
mod Tests
use cathub.Prelude.{
  ℕ, ◌-◌, Bool, true, false, not, List, [], ◌∷◌, ◌++◌, Option, none, some, ◌==◌, if◌then◌else◌,
  is_empty, equal, Bytes,
}
use cathub.Prelude.Text.{padded}
use cathub.Radio.Model.{
  Vfo, Mode, to_kenwood_digit, StateMutation, set_vfo_freq, set_mode, set_ptt, generic,
  from_kenwood_digit, StateChange,
}
use cathub.Radio.State.{Snapshot, vfo_of, as_changes}
use cathub.Radio.Permissions.{
  CommandClass, modeled_write, passthrough_read, ptt_write, config_write_class,
}
use cathub.Radio.Session.{ApplyOutcome, outcome_ok, err_reply}
use cathub.Kenwood.Frames.{body_of, verb_of, with_verb, parse_u64, semicolon}

pub data Action : Type 0 where
  says : Bytes → Action
  toggles : Bool → Action
  applies : StateMutation → CommandClass → Action
  forwards : Bytes → CommandClass → Action

-- What an applied write answers.
unfoldable pub reply : ApplyOutcome → Bytes
reply outcome_ok = []
reply _ = err_reply

unfoldable pub parse_command : Bytes → Option (Bytes × Bytes)
unfolding body_of verb_of
parse_command frame = with_verb (verb_of (body_of frame))

abbrev pub ai_frame : Bool → Bytes
ai_frame on = b'A' ∷ b'I' ∷ (if on then b'2' else b'0') ∷ semicolon ∷ []

unfoldable pub freq_frame : Bytes → ℕ → Bytes
freq_frame verb hz = verb ++ padded 11 hz ++ semicolon ∷ []

abbrev pub is_verb : Bytes → ℕ → ℕ → Bool
is_verb verb c d = equal verb (c ∷ d ∷ [])

abbrev pub bit : Bool → ℕ
bit on = if on then 1 else 0

-- `{n}` of a byte.
abbrev pub decimal : ℕ → Bytes
decimal = padded 1

-- The 15 bytes after the frequency: step, offset and memory.
abbrev pub defaults : Bytes
defaults =
    b'0' ∷ b'0' ∷ b'0' ∷ b'0' ∷ b'+' ∷ b'0' ∷ b'0' ∷ b'0' ∷ b'0' ∷ b'0' ∷ b'0' ∷ b'0' ∷ b'0' ∷ b'0'
    ∷ b'0' ∷ []

-- The layout of both `synth_if`.
unfoldable pub status_text : ℕ → Bool → Mode → ℕ → Bool → Bytes
unfolding to_kenwood_digit
status_text hz keyed m rx_vfo split =
    b'I' ∷ b'F' ∷ padded 11 hz
    ++ defaults
    ++ decimal (bit keyed)
    ++ decimal (to_kenwood_digit m - b'0')
    ++ decimal rx_vfo
    ++ b'0' ∷ decimal (bit split)
    ++ b'0' ∷ b'0' ∷ b'0' ∷ b'0' ∷ semicolon ∷ []

abbrev pub mode_frame : Mode → Bytes
mode_frame m = b'M' ∷ b'D' ∷ to_kenwood_digit m ∷ semicolon ∷ []

-- The receiving VFO.
abbrev pub active : Snapshot → Vfo
active s = s.receive

abbrev pub freq_write : Vfo → Option ℕ → Action
freq_write vfo none = says err_reply
freq_write vfo (some hz) = applies (set_vfo_freq vfo hz) modeled_write

unfoldable pub set_freq : Vfo → Bytes → Action
unfolding parse_u64
set_freq vfo payload = freq_write vfo (parse_u64 payload)

abbrev pub mode_write : Vfo → Bytes → Action
mode_write vfo [] = says err_reply
mode_write vfo (digit ∷ rest) = applies (set_mode vfo (from_kenwood_digit digit)) modeled_write

-- `payload.first().is_some_and(|&d| d != b'0')`.
abbrev pub turns_on : Bytes → Bool
turns_on [] = false
turns_on (digit ∷ rest) = not (digit == b'0')

abbrev pub key : Bool → Action
key keyed = applies (set_ptt keyed generic) ptt_write

abbrev pub auto_info : Bool → Bytes → Action
auto_info ai payload = if is_empty payload then says (ai_frame ai) else toggles (turns_on payload)

abbrev pub forward : Bytes → Bytes → Action
forward request payload =
    forwards request (if is_empty payload then passthrough_read else config_write_class)

-- `filter_map` of a dialect's notification over the changes of the snapshot, the default `resync`.
abbrev pub notify_all : (StateChange → Option Bytes) → List StateChange → List Bytes
notify_all notify [] = []
notify_all notify (c ∷ cs) = notified (notify c) (notify_all notify cs)
  where
    notified : Option Bytes → List Bytes → List Bytes
    notified none rest = rest
    notified (some frame) rest = frame ∷ rest
