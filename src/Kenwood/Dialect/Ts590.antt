-- ===== src/Kenwood/Dialect/Ts590.antt =====
-- The native TS-590 dialect (dialect/kenwood/ts590.rs).
use cathub.Prelude.{
  ℕ, Bool, true, false, not, ◌&&◌, List, [], ◌∷◌, ◌++◌, Option, none, some, if◌then◌else◌, is_empty,
  Bytes,
}
use cathub.Radio.Model.{Vfo, a, b, same_vfo, Mode, StateChange, rx_vfo, freq, mode}
use cathub.Radio.State.{Snapshot, vfo_of}
use cathub.Radio.Session.{err_reply}
use cathub.Kenwood.Frames.{semicolon}
use cathub.Kenwood.Dialect.{
  Action, says, parse_command, freq_frame, is_verb, status_text, mode_frame, active, set_freq,
  mode_write, key, auto_info, forward,
}

abbrev pub vfo_number : Vfo → ℕ
vfo_number a = 0
vfo_number b = 1

unfoldable pub synth_if : Snapshot → (single_vfo : Bool) → Bytes
synth_if s single_vfo =
    status_text (vfo_of (active s) s).freq_hz s.keyed (vfo_of (active s) s).base_mode
      (if single_vfo then 0 else vfo_number (active s)) (not single_vfo && s.split_on)

abbrev pub letters : ℕ → ℕ → Bytes
letters c d = c ∷ d ∷ []

-- A frequency verb: its VFO is read or written.
abbrev pub freq_request : Bytes → Vfo → Snapshot → Bytes → Action
freq_request verb target s payload =
    if is_empty payload
    then says (freq_frame verb (vfo_of target s).freq_hz)
    else set_freq target payload

abbrev pub mode_request : Snapshot → Bytes → Action
mode_request s payload =
    if is_empty payload
    then says (mode_frame (vfo_of (active s) s).base_mode)
    else mode_write (active s) payload

-- The selectors of a single-VFO session.
abbrev pub selector : ℕ → Bytes → Action
selector c payload = says (if is_empty payload then b'F' ∷ c ∷ b'0' ∷ semicolon ∷ [] else [])

unfoldable pub verb_action : (single_vfo ai : Bool) → Snapshot → Bytes → Bytes → Bytes → Action
unfolding set_freq freq_frame synth_if
verb_action single_vfo ai s request verb payload =
    if is_verb verb b'F' b'A'
    then freq_request (letters b'F' b'A') (if single_vfo then active s else a) s payload
    else if is_verb verb b'F' b'B'
    then freq_request (letters b'F' b'B') (if single_vfo then active s else b) s payload
    else if is_verb verb b'F' b'R' && single_vfo
    then selector b'R' payload
    else if is_verb verb b'F' b'T' && single_vfo
    then selector b'T' payload
    else if is_verb verb b'M' b'D'
    then mode_request s payload
    else if is_verb verb b'T' b'X'
    then key true
    else if is_verb verb b'R' b'X'
    then key false
    else if is_verb verb b'A' b'I'
    then auto_info ai payload
    else if is_verb verb b'I' b'D' && is_empty payload
    then says (b'I' ∷ b'D' ∷ b'0' ∷ b'2' ∷ b'1' ∷ semicolon ∷ [])
    else if is_verb verb b'P' b'S' && is_empty payload
    then says (b'P' ∷ b'S' ∷ b'1' ∷ semicolon ∷ [])
    else if is_verb verb b'I' b'F' && is_empty payload
    then says (synth_if s single_vfo)
    else forward request payload

abbrev pub command_action :
    (single_vfo ai : Bool) → Snapshot → Bytes → Option (Bytes × Bytes) → Action
command_action single_vfo ai s request none = says err_reply
command_action single_vfo ai s request (some (verb, payload)) =
    verb_action single_vfo ai s request verb payload

unfoldable pub handle : (single_vfo ai : Bool) → Snapshot → Bytes → Action
unfolding parse_command verb_action
handle single_vfo ai s request = command_action single_vfo ai s request (parse_command request)

-- The operating VFO as VFO A.
abbrev pub present : ℕ → Mode → Snapshot → Bytes
present hz m s = freq_frame (letters b'F' b'A') hz ++ mode_frame m ++ synth_if s true

unfoldable pub single_vfo_notification : StateChange → Snapshot → Option Bytes
unfolding freq_frame synth_if
single_vfo_notification (freq vfo hz) s =
    if same_vfo vfo (active s)
    then some (freq_frame (letters b'F' b'A') hz ++ synth_if s true)
    else none
single_vfo_notification (mode vfo m) s =
    if same_vfo vfo (active s) then some (mode_frame m ++ synth_if s true) else none
single_vfo_notification (rx_vfo vfo) s =
    some (present (vfo_of (active s) s).freq_hz (vfo_of (active s) s).base_mode s)
single_vfo_notification _ s = none

abbrev pub freq_letters : Vfo → Bytes
freq_letters a = letters b'F' b'A'
freq_letters b = letters b'F' b'B'

unfoldable pub dual_vfo_notification : StateChange → Snapshot → Option Bytes
unfolding freq_frame synth_if
dual_vfo_notification (freq vfo hz) s =
    some (
      freq_frame (freq_letters vfo) hz
      ++ (if same_vfo vfo (active s) then synth_if s false else []))
dual_vfo_notification (mode vfo m) s =
    if same_vfo vfo (active s) then some (mode_frame m ++ synth_if s false) else none
dual_vfo_notification (rx_vfo vfo) s = some (synth_if s false)
dual_vfo_notification _ s = none

unfoldable pub format_notification : (single_vfo ai : Bool) → StateChange → Snapshot → Option Bytes
unfolding single_vfo_notification dual_vfo_notification
format_notification single_vfo ai c s =
    if not ai
    then none
    else if single_vfo
    then single_vfo_notification c s
    else dual_vfo_notification c s

unfoldable pub format_passthrough : (single_vfo ai : Bool) → Bytes → Option Bytes
format_passthrough single_vfo ai raw = if single_vfo then none else if ai then some raw else none

-- The frames that present the whole state again.
unfoldable pub snapshot_resync_frames : Snapshot → List Bytes
unfolding freq_frame synth_if
snapshot_resync_frames s =
    freq_frame (letters b'F' b'A') s.vfo_a.freq_hz
    ∷ freq_frame (letters b'F' b'B') s.vfo_b.freq_hz
    ∷ (b'F' ∷ b'R' ∷ (if same_vfo s.receive a then b'0' else b'1') ∷ semicolon ∷ [])
    ∷ (b'F' ∷ b'T' ∷ (if same_vfo s.transmit a then b'0' else b'1') ∷ semicolon ∷ [])
    ∷ mode_frame (vfo_of (active s) s).base_mode
    ∷ synth_if s false
    ∷ []
