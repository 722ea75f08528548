-- ===== src/Kenwood/Tests.antt =====
-- Instances of the theorems on the TS-590 backend, and runs of it.
use cathub.Prelude.{◌≡◌, refl, true, false, [], ◌∷◌, some, Bytes, arith}
use cathub.Radio.Model.{
  a, b, usb, other, from_kenwood_digit, set_rx_vfo, set_split, freq, mode, ptt, split, rx_vfo,
  into_change,
}
use cathub.Radio.State.{snapshot_default, StateHandle, new_handle, record_change, apply_change}
use cathub.Radio.Link.Framer.{push, push_bytes, push_byte}
use cathub.Kenwood.Frames.{split_frame, body_of, verb_of}
use cathub.Kenwood.Ts590.{
  changes_of, mutation_bytes, parse_if_status, verb_changes, record_event, record_list,
}
use cathub.Kenwood.Echo.{frames_of, observe, optimistic, is_explicit, echo}
use cathub.Kenwood.Status.{IfFrame, if_frame, IsStatus, if_frame-changes_of}

on_a-is_explicit : is_explicit new_handle.snapshot (set_rx_vfo b) ≡ true
unfolding new_handle
on_a-is_explicit = refl

echo_example :
    (observe (frames_of (mutation_bytes new_handle.snapshot (set_rx_vfo b))) new_handle).snapshot
    ≡ (optimistic (set_rx_vfo b) new_handle).snapshot
echo_example = echo new_handle (set_rx_vfo b) on_a-is_explicit

-- VFO B receives 14034.320 kHz upper sideband, keyed, under split.
abbrev spaces : Bytes
spaces =
    b'1' ∷ b'2' ∷ b'3' ∷ b'4' ∷ b'-' ∷ b'0' ∷ b'0' ∷ b'0' ∷ b'0' ∷ b'0' ∷ b'1' ∷ b'2' ∷ b'3' ∷ b'4'
    ∷ b'5' ∷ []

abbrev sent : IfFrame
sent = record {
  hz = 14034320;
  filler = spaces;
  keyed = true;
  mode_digit = b'2';
  receive = b;
  scan = b'0';
  split_on = true;
  tail = b'9' ∷ [];
}

sent-IsStatus : IsStatus sent
sent-IsStatus = record { tunable = omega arith; filled = refl; closed = refl }

if_frame-changes_of_example :
    changes_of snapshot_default (if_frame sent)
    ≡ some (freq b 14034320 ∷ mode b usb ∷ ptt true ∷ split true (some a) ∷ rx_vfo b ∷ [])
unfolding from_kenwood_digit other
if_frame-changes_of_example = if_frame-changes_of snapshot_default sent sent-IsStatus

-- With VFO B receiving, split is turned off: the radio receives on A from then on, and the state says B.
abbrev on_b : StateHandle
on_b = record new_handle { snapshot = record snapshot_default { receive = b; split_on = true } }

split_off-observed :
    (observe
      (frames_of (mutation_bytes on_b.snapshot (set_split false (some a))))
      on_b).snapshot.receive
    ≡ a
unfolding mutation_bytes push push_bytes push_byte record_event record_list record_change
    apply_change changes_of parse_if_status split_frame body_of verb_of verb_changes
split_off-observed = refl

split_off-optimistic : (optimistic (set_split false (some a)) on_b).snapshot.receive ≡ b
unfolding record_list record_change apply_change into_change
split_off-optimistic = refl
