-- ===== src/Kenwood/Dialect/Transparent.antt =====
-- The transparent mirror of a TS-590 (dialect/kenwood/transparent.rs).
use cathub.Prelude.{
  Bool, true, false, ◌&&◌, List, [], ◌∷◌, Option, none, some, if◌then◌else◌, is_empty, Bytes,
}
use cathub.Radio.Model.{StateChange}
use cathub.Radio.State.{Snapshot}
use cathub.Radio.Session.{err_reply}
use cathub.Kenwood.Frames.{semicolon}
use cathub.Kenwood.Dialect.{Action, says, parse_command, is_verb, key, auto_info, forward}
use cathub.Kenwood.Dialect.Ts590.{snapshot_resync_frames}

unfoldable pub verb_action : (ai : Bool) → Bytes → Bytes → Bytes → Action
verb_action ai request verb payload =
    if is_verb verb b'T' b'X'
    then key true
    else if is_verb verb b'R' b'X'
    then key false
    else if is_verb verb b'A' b'I'
    then auto_info ai payload
    else if is_verb verb b'I' b'D' && is_empty payload
    then says (b'I' ∷ b'D' ∷ b'0' ∷ b'2' ∷ b'1' ∷ semicolon ∷ [])
    else if is_verb verb b'P' b'S' && is_empty payload
    then says (b'P' ∷ b'S' ∷ b'1' ∷ semicolon ∷ [])
    else forward request payload

abbrev pub command_action : (ai : Bool) → Bytes → Option (Bytes × Bytes) → Action
command_action ai request none = says err_reply
command_action ai request (some (verb, payload)) = verb_action ai request verb payload

unfoldable pub handle : (ai : Bool) → Bytes → Action
unfolding parse_command verb_action
handle ai request = command_action ai request (parse_command request)

abbrev pub format_notification : StateChange → Option Bytes
format_notification c = none

-- `format_passthrough` and `format_native_passthrough`.
unfoldable pub format_passthrough : (ai : Bool) → Bytes → Option Bytes
format_passthrough ai raw = if ai then some raw else none

unfoldable pub resync : (ai : Bool) → Snapshot → List Bytes
unfolding snapshot_resync_frames
resync ai s = if ai then snapshot_resync_frames s else []
