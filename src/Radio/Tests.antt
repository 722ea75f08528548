-- ===== src/Radio/Tests.antt =====
-- Instances of the theorems on the shared radio.
use cathub.Prelude.{◌≡◌, refl, true, false, [], ◌∷◌, some}
use cathub.Radio.Model.{
  a, b, pos, usb, cw, to_kenwood_digit, set_mode, into_change, native_push, poll_diff,
  optimistic_write, freq, mode, rx_vfo, set_vfo_freq,
}
use cathub.Radio.State.{
  Snapshot, snapshot_default, StateHandle, new_handle, as_changes, snapshot_is_redundant,
  record_change, is_redundant,
}
use cathub.Radio.Replay.{replay, replay-as_changes}
use cathub.Radio.Redundant.{record_change-is_redundant}
use cathub.Radio.Certainty.{record_all, freq-set_mode}
use cathub.Radio.Lease.{new, try_key, keys, unkeys, run, granted, denied, busy, try_key-keeps}
use cathub.Radio.Permissions.{
  from_tokens, read_token, frequency_write_token, modeled_write, grant_all, allows_mutation, grant,
}

-- VFO A receives CW at 14 MHz, with RIT.
abbrev tuned : Snapshot
tuned = record snapshot_default {
  vfo_a = record {
    freq_hz = 14025000;
    base_mode = cw;
    mode_known = true;
    data_on = false;
    passband_hz = 500;
  };
  rit_enabled = true;
  rit_offset_hz = pos 100;
}

abbrev tuned_handle : StateHandle
tuned_handle = record new_handle { snapshot = tuned }

replay-as_changes_example : replay (as_changes tuned) snapshot_default ≡ record tuned {
  vfo_a = record tuned.vfo_a { mode_known = true; passband_hz = 2400 };
  vfo_b = record tuned.vfo_b { mode_known = true; passband_hz = 2400 };
  power_on = true;
}
replay-as_changes_example = replay-as_changes tuned snapshot_default

tuned-is_redundant : snapshot_is_redundant tuned (set_mode a cw) ≡ true
unfolding snapshot_is_redundant to_kenwood_digit
tuned-is_redundant = refl

record_change-is_redundant_example :
    is_redundant
      (record_change (into_change (set_mode a usb)) poll_diff tuned_handle).0
      (set_mode a usb)
    ≡ true
record_change-is_redundant_example =
    record_change-is_redundant tuned_handle (set_mode a usb) poll_diff refl refl

freq-set_mode_example :
    let next = (record_change (freq a 7030000) optimistic_write tuned_handle).0 in
    is_redundant
      (record_all ((mode b usb, native_push) ∷ (rx_vfo a, poll_diff) ∷ []) next)
      (set_mode a cw)
    ≡ false
freq-set_mode_example =
    freq-set_mode tuned_handle a 7030000 ((mode b usb, native_push) ∷ (rx_vfo a, poll_diff) ∷ []) cw
      refl refl

first_key : (try_key 1 true 5 (new 30)).1 ≡ granted
unfolding try_key new
first_key = refl

try_key-keeps_example :
    let held = run (try_key 1 true 5 (new 30)).0 (keys 2 true 6 ∷ unkeys 2 ∷ []) in
    (held.owner ≡ some 1) × (try_key 3 true 8 held ≡ (held, denied busy))
try_key-keeps_example =
    try_key-keeps (new 30) 1 3 5 8 (keys 2 true 6 ∷ unkeys 2 ∷ []) first_key refl refl

narrow-allows :
    allows_mutation
      (from_tokens (read_token ∷ frequency_write_token ∷ []))
      modeled_write
      (set_vfo_freq a 7030000)
    ≡ true
unfolding allows_mutation from_tokens grant_all grant
narrow-allows = refl
