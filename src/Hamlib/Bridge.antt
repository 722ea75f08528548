-- ===== src/Hamlib/Bridge.antt =====
-- The rigctld backend (backend/rigctld.rs). `ask` is what the radio link answers to a command.
use cathub.Prelude.{
  ℕ, ◌^◌, ◌-◌, Bool, true, false, List, [], ◌∷◌, ◌++◌, Option, none, some, if◌then◌else◌, equal,
  get_elem?, Bytes,
}
use cathub.Prelude.Text.{text, trim, utf8_or_empty, parse_unsigned}
use cathub.Radio.Model.{
  Vfo, a, b, Mode, unknown, same_mode, PttSource, generic, mic, data_source, StateMutation,
  set_rx_vfo, set_vfo_freq, set_mode, set_data_mode, set_split, set_ptt, set_rit, set_xit,
  into_change, StateChange, freq, mode, data_mode, split, tx_power, poll_diff, optimistic_write,
}
use cathub.Radio.Power.{from_relative_millionths}
use cathub.Radio.Tokens.{
  hamlib_token, hamlib_token_with_data, from_hamlib_token, decompose_hamlib_token,
  parse_relative_millionths, strip_prefix,
}
use cathub.Radio.State.{Snapshot, vfo_of, vfo_or, StateHandle}
use cathub.Radio.Link.Framer.{line_terminated}
use cathub.Radio.Link.Capabilities.{
  BackendCapabilities, vfo_pair, certified_native, uncertified_bridge,
}
use cathub.Radio.Link.Transport.{
  BackendError, rejected, unsupported, Reply, answer, failure, starts_with,
}
use cathub.Kenwood.Ts590.{record_list, transmit_vfo, Polled, Applied, failed, done}
use cathub.Hamlib.Words.{decimal, flag_text, line_of, vfo_name, named_b, split_at}

abbrev pub or_empty : Option Bytes → Bytes
or_empty none = []
or_empty (some line) = line

abbrev pub nth_line : Bytes → ℕ → Bytes
nth_line bytes n = or_empty (get_elem? (split_at 10 bytes) n)

abbrev pub first_line : Bytes → Bytes
first_line bytes = nth_line bytes 0

abbrev pub rprt_result : Bytes → Option Bytes → Option BackendError
rprt_result line none = none
rprt_result line (some code) =
    if equal (trim code) (text "0") then none else some (rejected (text "rigctld " ++ line))

-- The error that a reply reports.
unfoldable pub check_rprt : Bytes → Option BackendError
unfolding trim
check_rprt bytes =
    let line = trim (utf8_or_empty (first_line bytes)) in
    rprt_result line (strip_prefix (text "RPRT ") line)

unfoldable pub is_rprt_error : Bytes → Bool
unfolding trim
is_rprt_error bytes = starts_with (trim (utf8_or_empty (first_line bytes))) (text "RPRT ")

-- A command and what follows its answer; a failure ends the poll.
abbrev pub answered : Bytes → Reply → (Bytes → StateHandle → Polled) → StateHandle → Polled
answered cmd (failure e) next h = record { asked = cmd ∷ []; recorded = (h, []); error = some e }
answered cmd (answer reply) next h =
    let rest = next reply h in record rest { asked = cmd ∷ rest.asked }

abbrev pub submit : Bytes → (Bytes → Reply) → (Bytes → StateHandle → Polled) → StateHandle → Polled
submit cmd ask next h = answered cmd (ask cmd) next h

abbrev pub recording : List StateChange → (StateHandle → Polled) → StateHandle → Polled
recording changes next h =
    let (later, sent) = record_list changes poll_diff h in
    let rest = next later in record rest { recorded = (rest.recorded.0, sent ++ rest.recorded.1) }

abbrev pub finished : StateHandle → Polled
finished h = record { asked = []; recorded = (h, []); error = none }

abbrev pub freq_change : Vfo → Option ℕ → List StateChange
freq_change vfo none = []
freq_change vfo (some hz) = freq vfo hz ∷ []

abbrev pub number_of : ℕ → Bytes → Option ℕ
number_of most reply = parse_unsigned most (trim (utf8_or_empty (first_line reply)))

abbrev pub u64_most : ℕ
u64_most = 2 ^ 64 - 1

abbrev pub split_freq_changes : Vfo → Bytes → List StateChange
split_freq_changes tx reply =
    if is_rprt_error reply then [] else freq_change tx (number_of u64_most reply)

abbrev pub known_modes : Vfo → Mode × Bool → List StateChange
known_modes tx (m, packet) =
    if same_mode m unknown then [] else mode tx m ∷ data_mode tx packet ∷ []

abbrev pub split_mode_changes : Vfo → Bytes → List StateChange
split_mode_changes tx reply =
    if is_rprt_error reply
    then []
    else known_modes tx (decompose_hamlib_token (utf8_or_empty (first_line reply)))

unfoldable pub poll_split_details :
    Vfo → (Bytes → Reply) → (StateHandle → Polled) → StateHandle → Polled
unfolding is_rprt_error parse_unsigned decompose_hamlib_token
poll_split_details tx ask next = submit (line_of (text "i")) ask (λ hz.
    recording (split_freq_changes tx hz)
      (submit (line_of (text "x")) ask (λ m. recording (split_mode_changes tx m) next)))

abbrev pub power_of : ℕ → Option ℕ → StateChange
power_of relative none = tx_power none
power_of relative (some milliwatts) = tx_power (from_relative_millionths relative milliwatts)

abbrev pub power_change : ℕ → Bytes → StateChange
power_change relative reply =
    if is_rprt_error reply then tx_power none else power_of relative (number_of (2 ^ 32 - 1) reply)

-- The question for the power at the level and the frequency and mode in use.
abbrev pub conversion : Bytes → Snapshot → Bytes
conversion level s =
    let tx = vfo_of (transmit_vfo s) s in
    line_of (
      text "2 "
      ++ level
      ++ text " "
      ++ decimal tx.freq_hz
      ++ text " "
      ++ hamlib_token_with_data tx.base_mode tx.data_on)

abbrev pub poll_level : Bytes → Option ℕ → (Bytes → Reply) → StateHandle → Polled
poll_level level none ask h = recording (tx_power none ∷ []) finished h
poll_level level (some relative) ask h =
    submit (conversion level h.snapshot) ask
      (λ reply. recording (power_change relative reply ∷ []) finished) h

unfoldable pub poll_tx_power : (Bytes → Reply) → StateHandle → Polled
unfolding parse_relative_millionths is_rprt_error parse_unsigned from_relative_millionths
    hamlib_token_with_data
poll_tx_power ask = submit (line_of (text "l RFPOWER")) ask (λ reply.
    let level = trim (utf8_or_empty (first_line reply)) in
    poll_level level (parse_relative_millionths level) ask)

abbrev pub poll_split : Bytes → (Bytes → Reply) → StateHandle → Polled
poll_split reply ask h =
    let enabled = equal (trim (utf8_or_empty (first_line reply))) (text "1") in
    let tx = named_b (some (trim (utf8_or_empty (nth_line reply 1)))) in
    recording (split enabled (some tx) ∷ [])
      (λ later.
        if enabled
        then poll_split_details tx ask (poll_tx_power ask) later
        else poll_tx_power ask later)
      h

unfoldable pub poll : (Bytes → Reply) → StateHandle → Polled
unfolding poll_split_details poll_tx_power from_hamlib_token parse_unsigned
poll ask = submit (line_of (text "f")) ask (λ hz.
    recording (freq_change a (number_of u64_most hz)) (
      submit (line_of (text "m")) ask (λ m.
        recording (mode a (from_hamlib_token (utf8_or_empty (first_line m))) ∷ [])
          (submit (line_of (text "s")) ask (λ reply. poll_split reply ask)))))

abbrev pub ptt_value : Bool → PttSource → Bytes
ptt_value false source = text "0"
ptt_value true generic = text "1"
ptt_value true mic = text "2"
ptt_value true data_source = text "3"

-- The line of a write, without its end; `none` where the bridge does not support it.
unfoldable pub write_line : Snapshot → StateMutation → Option Bytes
unfolding hamlib_token hamlib_token_with_data
write_line s (set_vfo_freq vfo hz) = some (text "F " ++ decimal hz)
write_line s (set_mode vfo m) = some (text "M " ++ hamlib_token m ++ text " 0")
write_line s (set_data_mode vfo on) =
    some (text "M " ++ hamlib_token_with_data (vfo_of vfo s).base_mode on ++ text " 0")
write_line s (set_split enabled tx) =
    some (text "S " ++ flag_text enabled ++ text " " ++ vfo_name (vfo_or tx b))
write_line s (set_ptt keyed source) = some (text "T " ++ ptt_value keyed source)
write_line s (set_rx_vfo vfo) = none
write_line s (set_rit offset_hz enabled) = none
write_line s (set_xit offset_hz enabled) = none

abbrev pub checked : Option BackendError → StateMutation → StateHandle → Applied
checked (some e) m h = failed e
checked none m h = done (record_list (into_change m ∷ []) optimistic_write h)

abbrev pub replied : Reply → StateMutation → StateHandle → Applied
replied (failure e) m h = failed e
replied (answer bytes) m h = checked (check_rprt bytes) m h

abbrev pub written : Option Bytes → (Bytes → Reply) → StateMutation → StateHandle → Applied
written none ask m h = failed unsupported
written (some line) ask m h = replied (ask (line_of line)) m h

unfoldable pub apply : StateMutation → (Bytes → Reply) → StateHandle → Applied
unfolding write_line check_rprt
apply m ask h = written (write_line h.snapshot m) ask m h

abbrev pub capabilities : Bytes → (certified : Bool) → BackendCapabilities
capabilities name certified = record {
  model = text "rigctld:" ++ name;
  vfo_count = 2;
  has_rit = false;
  has_xit = false;
  has_smeter = false;
  split = vfo_pair;
  native_push = false;
  native_command_family = none;
  framing = line_terminated;
  freq_min_hz = 30000;
  freq_max_hz = 60000000;
  trust = if certified then certified_native else uncertified_bridge;
}
