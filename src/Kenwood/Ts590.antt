-- ===== src/Kenwood/Ts590.antt =====
-- The TS-590 backend (backend/kenwood/ts590.rs). Its commands go out through the radio link, whose
-- answers are parameters; a changed state is the handle, the events sent to subscribers beside it.
use cathub.Prelude.{
  ℕ, Bool, true, false, not, List, [], ◌∷◌, ◌++◌, Option, none, some, ◌==◌, leb, if◌then◌else◌,
  get_elem?, equal, Bytes, ◌-◌, ◌^◌,
}
use cathub.VirtualSerial.Wire.{take?}
use cathub.Radio.Model.{
  Vfo, a, b, other, same_vfo, Mode, am, same_mode, to_kenwood_digit, from_kenwood_digit, PttSource,
  generic, mic, data_source, StateMutation, set_rx_vfo, set_vfo_freq, set_mode, set_data_mode,
  set_split, set_ptt, set_rit, set_xit, into_change, StateChange, rx_vfo, freq, mode, data_mode,
  split, ptt, tx_power, RadioEventSource, poll_diff, optimistic_write,
}
use cathub.Radio.Power.{from_watts}
use cathub.Radio.State.{
  Snapshot, vfo_of, vfo_or, StateHandle, RadioEvent, record_change, raw, raw_native,
}
use cathub.Radio.Link.Framer.{semicolon_terminated}
use cathub.Radio.Link.Capabilities.{BackendCapabilities, vfo_pair, kenwood, certified_native}
use cathub.Radio.Link.Transport.{BackendError, Reply, answer, failure, Expect, verbs, no_reply}
use cathub.Kenwood.Frames.{
  split_frame, parse_u64, vfo_digit, parse_digit, parse_rx_vfo_digit, is_query, freq_set,
  rx_vfo_set, semicolon,
}

abbrev pub query : ℕ → ℕ → Bytes
query c d = c ∷ d ∷ semicolon ∷ []

abbrev pub poll_commands : List Bytes
poll_commands =
    query b'F' b'A'
    ∷ query b'F' b'B'
    ∷ query b'I' b'F'
    ∷ query b'M' b'D'
    ∷ query b'D' b'A'
    ∷ query b'P' b'C'
    ∷ []

pub record IfStatus : Type 0 where
  pub freq_hz : ℕ
  pub keyed : Bool
  pub if_mode : Mode
  pub receive : Vfo
  pub split_on : Bool

abbrev pub max_power_watts : Mode → ℕ
max_power_watts m = if same_mode m am then 25 else 100

abbrev pub is_one : ℕ → Bool
is_one c = c == b'1'

-- `?` on an option.
abbrev pub bind {ℓ κ} : {A : Type ℓ} {B : Type κ} → Option A → (A → Option B) → Option B
bind none f = none
bind (some x) f = f x

-- The offsets are those of the status frame: 0 to 11, 26, 27, 28 and 30.
unfoldable pub parse_if_payload : Bytes → Option IfStatus
parse_if_payload payload = bind (get_elem? payload 28) (λ vfo. bind (parse_digit vfo) (λ receive.
    bind (take? 11 payload) (λ hz. bind (parse_u64 hz) (λ freq_hz.
      bind (get_elem? payload 26) (λ tx. bind (get_elem? payload 27) (λ digit.
        bind (get_elem? payload 30) (λ split_digit. some (record {
          freq_hz = freq_hz;
          keyed = is_one tx;
          if_mode = from_kenwood_digit digit;
          receive = receive;
          split_on = is_one split_digit;
        }))))))))

abbrev pub status_of : Option (Bytes × Bytes) → Option IfStatus
status_of none = none
status_of (some (verb, payload)) =
    if equal verb (b'I' ∷ b'F' ∷ []) then parse_if_payload payload else none

unfoldable pub parse_if_status : Bytes → Option IfStatus
parse_if_status frame = status_of (split_frame frame)

-- What `record_if_status` records, in order.
abbrev pub status_changes : IfStatus → List StateChange
status_changes s =
    freq s.receive s.freq_hz
    ∷ mode s.receive s.if_mode
    ∷ ptt s.keyed
    ∷ split s.split_on (some (if s.split_on then other s.receive else s.receive))
    ∷ rx_vfo s.receive
    ∷ []

abbrev pub one : StateChange → Option (List StateChange)
one c = some (c ∷ [])

abbrev pub transmit_vfo : Snapshot → Vfo
transmit_vfo s = if s.split_on then s.transmit else s.receive

abbrev pub to_u32 : ℕ → Option ℕ
to_u32 n = if leb n (2 ^ 32 - 1) then some n else none

abbrev pub first : Bytes → Option ℕ
first bytes = get_elem? bytes 0

-- The changes that `record_event` records for a frame, from the snapshot before; `none` when the
-- frame is not modeled.
unfoldable pub verb_changes : Snapshot → Bytes → Bytes → Option (List StateChange)
verb_changes s verb payload =
    if equal verb (b'F' ∷ b'A' ∷ [])
    then bind (parse_u64 payload) (λ hz. one (freq a hz))
    else if equal verb (b'F' ∷ b'B' ∷ [])
    then bind (parse_u64 payload) (λ hz. one (freq b hz))
    else if equal verb (b'F' ∷ b'R' ∷ [])
    then bind (parse_rx_vfo_digit payload) (λ vfo. one (rx_vfo vfo))
    else if equal verb (b'F' ∷ b'T' ∷ [])
    then bind (parse_rx_vfo_digit payload)
        (λ tx. one (split (not (same_vfo s.receive tx)) (some tx)))
    else if equal verb (b'M' ∷ b'D' ∷ [])
    then bind (first payload) (λ digit. one (mode s.receive (from_kenwood_digit digit)))
    else if equal verb (b'D' ∷ b'A' ∷ [])
    then bind (first payload) (λ digit. one (data_mode s.receive (is_one digit)))
    else if equal verb (b'P' ∷ b'C' ∷ [])
    then bind (bind (parse_u64 payload) to_u32) (λ watts.
      one (
        tx_power (some (from_watts watts (max_power_watts (vfo_of (transmit_vfo s) s).base_mode)))))
    else none

abbrev pub frame_changes : Snapshot → Option (Bytes × Bytes) → Option (List StateChange)
frame_changes s none = none
frame_changes s (some (verb, payload)) = verb_changes s verb payload

abbrev pub or_frame : Option IfStatus → Option (List StateChange) → Option (List StateChange)
or_frame (some status) otherwise = some (status_changes status)
or_frame none otherwise = otherwise

unfoldable pub changes_of : Snapshot → Bytes → Option (List StateChange)
changes_of s frame = or_frame (parse_if_status frame) (frame_changes s (split_frame frame))

abbrev receives : Option IfStatus → Option StateMutation
receives none = none
receives (some status) = some (set_rx_vfo status.receive)

-- The one write that `parse_event` makes of a frame.
unfoldable pub verb_event : Bytes → Bytes → Bytes → Option StateMutation
verb_event frame verb payload =
    if equal verb (b'F' ∷ b'A' ∷ [])
    then bind (parse_u64 payload) (λ hz. some (set_vfo_freq a hz))
    else if equal verb (b'F' ∷ b'B' ∷ [])
    then bind (parse_u64 payload) (λ hz. some (set_vfo_freq b hz))
    else if equal verb (b'M' ∷ b'D' ∷ [])
    then bind (first payload) (λ digit. some (set_mode a (from_kenwood_digit digit)))
    else if equal verb (b'D' ∷ b'A' ∷ [])
    then bind (first payload) (λ digit. some (set_data_mode a (is_one digit)))
    else if equal verb (b'I' ∷ b'F' ∷ [])
    then receives (parse_if_status frame)
    else none

unfoldable pub parse_event : Bytes → Option StateMutation
parse_event frame = bind (split_frame frame) (λ r. verb_event frame r.0 r.1)

abbrev pub Recorded : Type 0
Recorded = StateHandle × List RadioEvent

unfoldable pub record_list : List StateChange → RadioEventSource → StateHandle → Recorded
record_list [] source h = (h, [])
record_list (c ∷ cs) source h =
    let (next, sent) = record_change c source h in
    let (last, later) = record_list cs source next in (last, sent ++ later)

abbrev pub record_if : Option (List StateChange) → RadioEventSource → StateHandle → Recorded × Bool
record_if none source h = ((h, []), false)
record_if (some cs) source h = (record_list cs source h, true)

unfoldable pub record_event : Bytes → RadioEventSource → StateHandle → Recorded × Bool
unfolding record_list
record_event frame source h = record_if (changes_of h.snapshot frame) source h

-- `route_event` of radio/mod.rs on this backend: the frame follows its changes.
unfoldable pub route_event : Bytes → RadioEventSource → StateHandle → Recorded
route_event frame source h =
    let ((next, sent), modeled) = record_event frame source h in
    (next, sent ++ (if modeled then raw_native frame else raw frame) ∷ [])

abbrev pub ptt_set : Bool → PttSource → Bytes
ptt_set false source = b'R' ∷ b'X' ∷ semicolon ∷ []
ptt_set true generic = b'T' ∷ b'X' ∷ semicolon ∷ []
ptt_set true mic = b'T' ∷ b'X' ∷ b'0' ∷ semicolon ∷ []
ptt_set true data_source = b'T' ∷ b'X' ∷ b'1' ∷ semicolon ∷ []

abbrev pub flag : Bool → ℕ
flag on = if on then b'1' else b'0'

abbrev pub ft_set : Vfo → Bytes
ft_set vfo = b'F' ∷ b'T' ∷ vfo_digit vfo ∷ semicolon ∷ []

-- The bytes that `apply` writes, from the snapshot before.
unfoldable pub mutation_bytes : Snapshot → StateMutation → Bytes
unfolding freq_set to_kenwood_digit
mutation_bytes s (set_rx_vfo vfo) =
    rx_vfo_set vfo ++ ft_set (if s.split_on then s.transmit else vfo)
mutation_bytes s (set_vfo_freq vfo hz) = freq_set vfo hz
mutation_bytes s (set_mode vfo m) = b'M' ∷ b'D' ∷ to_kenwood_digit m ∷ semicolon ∷ []
mutation_bytes s (set_data_mode vfo on) = b'D' ∷ b'A' ∷ flag on ∷ semicolon ∷ []
mutation_bytes s (set_ptt keyed source) = ptt_set keyed source
mutation_bytes s (set_split enabled tx) =
    if enabled then rx_vfo_set a ++ ft_set (vfo_or tx b) else rx_vfo_set a ++ ft_set a
mutation_bytes s (set_rit offset_hz enabled) = b'R' ∷ b'T' ∷ flag enabled ∷ semicolon ∷ []
mutation_bytes s (set_xit offset_hz enabled) = b'X' ∷ b'T' ∷ flag enabled ∷ semicolon ∷ []

-- The second change of a switch of the operating VFO.
abbrev pub following : Snapshot → StateMutation → List StateChange
following s (set_rx_vfo vfo) = if s.split_on then [] else split false (some vfo) ∷ []
following s _ = []

pub data Applied : Type 0 where
  failed : BackendError → Applied
  done : Recorded → Applied

-- `apply`: what the link says of the write decides whether the change is recorded.
unfoldable pub apply : StateMutation → Reply → StateHandle → Applied
apply m (failure e) h = failed e
apply m (answer bytes) h =
    done (record_list (into_change m ∷ following h.snapshot m) optimistic_write h)

pub record Polled : Type 0 where
  pub asked : List Bytes
  pub recorded : Recorded
  pub error : Option BackendError

abbrev pub poll_reply : Bytes → List Bytes → Reply → StateHandle → (StateHandle → Polled) → Polled
poll_reply cmd rest (failure e) h go = record {
  asked = cmd ∷ [];
  recorded = (h, []);
  error = some e;
}
poll_reply cmd rest (answer reply) h go =
    let ((next, sent), modeled) = record_event reply poll_diff h in
    let later = go next in
    record {
      asked = cmd ∷ later.asked;
      recorded = (later.recorded.0, sent ++ later.recorded.1);
      error = later.error;
    }

-- `poll`: the queries in order, until one fails. `ask` is what the link answers.
unfoldable pub poll_all : List Bytes → (Bytes → Reply) → StateHandle → Polled
poll_all [] ask h = record { asked = []; recorded = (h, []); error = none }
poll_all (cmd ∷ rest) ask h = poll_reply cmd rest (ask cmd) h (poll_all rest ask)

unfoldable pub poll : (Bytes → Reply) → StateHandle → Polled
poll = poll_all poll_commands

abbrev pub verb_or_empty : Option (Bytes × Bytes) → Bytes
verb_or_empty none = []
verb_or_empty (some (verb, payload)) = verb

-- What `passthrough` expects of the link.
unfoldable pub passthrough_expect : Bytes → Expect
passthrough_expect frame =
    if is_query frame then verbs (verb_or_empty (split_frame frame) ∷ []) else no_reply

abbrev pub native_push_enable : Bytes
native_push_enable = b'A' ∷ b'I' ∷ b'2' ∷ semicolon ∷ []

abbrev pub capabilities : BackendCapabilities
capabilities = record {
  model = b'T' ∷ b'S' ∷ b'-' ∷ b'5' ∷ b'9' ∷ b'0' ∷ [];
  vfo_count = 2;
  has_rit = true;
  has_xit = true;
  has_smeter = true;
  split = vfo_pair;
  native_push = true;
  native_command_family = some kenwood;
  framing = semicolon_terminated;
  freq_min_hz = 30000;
  freq_max_hz = 60000000;
  trust = certified_native;
}
