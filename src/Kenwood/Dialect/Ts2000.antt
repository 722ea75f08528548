-- ===== src/Kenwood/Dialect/Ts2000.antt =====
-- The TS-2000 translator (dialect/kenwood/ts2000.rs).
use cathub.Prelude.{Bool, ◌&&◌, [], ◌∷◌, ◌++◌, Option, none, some, if◌then◌else◌, is_empty, Bytes}
use cathub.Radio.Model.{same_vfo, StateChange, rx_vfo, freq, mode}
use cathub.Radio.State.{Snapshot, vfo_of}
use cathub.Radio.Session.{err_reply}
use cathub.Kenwood.Frames.{semicolon, vfo_digit}
use cathub.Kenwood.Ts590.{transmit_vfo}
use cathub.Kenwood.Dialect.{
  Action, says, parse_command, freq_frame, is_verb, status_text, mode_frame, active, set_freq,
  auto_info,
}
use cathub.Kenwood.Dialect.Ts590.{letters, vfo_number, mode_request, freq_request}

unfoldable pub synth_if : Snapshot → Bytes
synth_if s =
    status_text (vfo_of (active s) s).freq_hz s.keyed (vfo_of (active s) s).base_mode
      (vfo_number (active s)) s.split_on

unfoldable pub verb_action : (ai : Bool) → Snapshot → Bytes → Bytes → Action
unfolding set_freq freq_frame synth_if
verb_action ai s verb payload =
    if is_verb verb b'I' b'F' && is_empty payload
    then says (synth_if s)
    else if is_verb verb b'F' b'A'
    then freq_request (letters b'F' b'A') (active s) s payload
    else if is_verb verb b'F' b'B'
    then freq_request (letters b'F' b'B') (active s) s payload
    else if is_verb verb b'M' b'D'
    then mode_request s payload
    else if is_verb verb b'F' b'R' && is_empty payload
    then says (b'F' ∷ b'R' ∷ vfo_digit (active s) ∷ semicolon ∷ [])
    else if is_verb verb b'F' b'T' && is_empty payload
    then says (b'F' ∷ b'T' ∷ vfo_digit (transmit_vfo s) ∷ semicolon ∷ [])
    else if is_verb verb b'A' b'I'
    then auto_info ai payload
    else if is_verb verb b'I' b'D' && is_empty payload
    then says (b'I' ∷ b'D' ∷ b'0' ∷ b'1' ∷ b'9' ∷ semicolon ∷ [])
    else if is_verb verb b'P' b'S' && is_empty payload
    then says (b'P' ∷ b'S' ∷ b'1' ∷ semicolon ∷ [])
    else says err_reply

abbrev pub command_action : (ai : Bool) → Snapshot → Option (Bytes × Bytes) → Action
command_action ai s none = says err_reply
command_action ai s (some (verb, payload)) = verb_action ai s verb payload

unfoldable pub handle : (ai : Bool) → Snapshot → Bytes → Action
unfolding parse_command verb_action
handle ai s request = command_action ai s (parse_command request)

abbrev pub notification : StateChange → Snapshot → Option Bytes
notification (freq vfo hz) s =
    if same_vfo vfo (active s) then some (freq_frame (letters b'F' b'A') hz) else none
notification (mode vfo m) s = if same_vfo vfo (active s) then some (mode_frame m) else none
notification (rx_vfo vfo) s = some (
    freq_frame (letters b'F' b'A') (vfo_of (active s) s).freq_hz
    ++ mode_frame (vfo_of (active s) s).base_mode
    ++ synth_if s)
notification _ s = none

unfoldable pub format_notification : (ai : Bool) → StateChange → Snapshot → Option Bytes
unfolding freq_frame synth_if
format_notification ai c s = if ai then notification c s else none
