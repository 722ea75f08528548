-- ===== src/Radio/State.antt =====
-- state.rs: the snapshot of the radio, what changes do to it, and the handle that records changes.
-- The locks are left out: every method runs alone. A broadcast is the list of events sent.
use cathub.Prelude.{
  ℕ, Bool, true, false, not, ◌&&◌, ◌||◌, List, [], ◌∷◌, Option, none, some, ◌==◌, if◌then◌else◌,
  retain, Bytes,
}
use cathub.Radio.Model.{
  Vfo, a, b, same_vfo, ℤ, pos, same_int, same_bool, TxPower, Mode, usb, same_mode, to_kenwood_digit,
  StateMutation, set_rx_vfo, set_vfo_freq, set_mode, set_data_mode, set_split, set_ptt, set_rit,
  set_xit, StateChange, rx_vfo, freq, mode, data_mode, split, ptt, rit, xit, tx_power, Field,
  rx_vfo_field, freq_field, mode_field, split_field, ptt_field, rit_field, xit_field, s_meter_field,
  power_field, field, RadioEventSource, native_push, optimistic_write,
}

abbrev pub default_passband_hz : ℕ
default_passband_hz = 2400

pub record VfoSnapshot : Type 0 where
  pub freq_hz : ℕ
  pub base_mode : Mode
  pub mode_known : Bool
  pub data_on : Bool
  pub passband_hz : ℕ

abbrev pub vfo_default : VfoSnapshot
vfo_default = record {
  freq_hz = 0;
  base_mode = usb;
  mode_known = false;
  data_on = false;
  passband_hz = default_passband_hz;
}

pub record Snapshot : Type 0 where
  pub vfo_a : VfoSnapshot
  pub vfo_b : VfoSnapshot
  pub receive : Vfo
  pub transmit : Vfo
  pub split_on : Bool
  pub keyed : Bool
  pub power_on : Bool
  pub power : Option TxPower
  pub rit_enabled : Bool
  pub rit_offset_hz : ℤ
  pub xit_enabled : Bool
  pub xit_offset_hz : ℤ

abbrev pub snapshot_default : Snapshot
snapshot_default = record {
  vfo_a = vfo_default;
  vfo_b = vfo_default;
  receive = a;
  transmit = a;
  split_on = false;
  keyed = false;
  power_on = true;
  power = none;
  rit_enabled = false;
  rit_offset_hz = pos 0;
  xit_enabled = false;
  xit_offset_hz = pos 0;
}

-- `Snapshot::vfo`, and the write through `vfo_mut`.
abbrev pub vfo_of : Vfo → Snapshot → VfoSnapshot
vfo_of a s = s.vfo_a
vfo_of b s = s.vfo_b

abbrev pub put_vfo : Vfo → VfoSnapshot → Snapshot → Snapshot
put_vfo a v s = record s { vfo_a = v }
put_vfo b v s = record s { vfo_b = v }

abbrev pub vfo_or : Option Vfo → Vfo → Vfo
vfo_or none v = v
vfo_or (some w) v = w

abbrev pub same_option : Option ℕ → Option ℕ → Bool
same_option none none = true
same_option (some m) (some n) = m == n
same_option _ _ = false

-- The derived equality of `Option<TxPower>`.
abbrev pub same_power : Option TxPower → Option TxPower → Bool
same_power none none = true
same_power (some p) (some q) =
    p.relative_millionths == q.relative_millionths
    && p.milliwatts == q.milliwatts
    && same_option p.max_milliwatts q.max_milliwatts
same_power _ _ = false

unfoldable pub snapshot_is_redundant : Snapshot → StateMutation → Bool
snapshot_is_redundant s (set_rx_vfo vfo) = same_vfo s.receive vfo
snapshot_is_redundant s (set_vfo_freq vfo hz) = (vfo_of vfo s).freq_hz == hz
snapshot_is_redundant s (set_mode vfo m) =
    to_kenwood_digit (vfo_of s.receive s).base_mode == to_kenwood_digit m
snapshot_is_redundant s (set_data_mode vfo on) = same_bool (vfo_of vfo s).data_on on
snapshot_is_redundant s (set_split enabled tx) =
    same_bool s.split_on enabled && same_vfo s.transmit (vfo_or tx s.transmit)
snapshot_is_redundant s (set_rit offset_hz enabled) =
    same_bool s.rit_enabled enabled && same_int s.rit_offset_hz offset_hz
snapshot_is_redundant s (set_xit offset_hz enabled) =
    same_bool s.xit_enabled enabled && same_int s.xit_offset_hz offset_hz
snapshot_is_redundant s (set_ptt on source) = false

unfoldable pub as_changes : Snapshot → List StateChange
as_changes s =
    freq a s.vfo_a.freq_hz
    ∷ freq b s.vfo_b.freq_hz
    ∷ mode a s.vfo_a.base_mode
    ∷ mode b s.vfo_b.base_mode
    ∷ data_mode a s.vfo_a.data_on
    ∷ data_mode b s.vfo_b.data_on
    ∷ split s.split_on (some s.transmit)
    ∷ rit s.rit_enabled s.rit_offset_hz
    ∷ xit s.xit_enabled s.xit_offset_hz
    ∷ ptt s.keyed
    ∷ tx_power s.power
    ∷ rx_vfo s.receive
    ∷ []

-- The new snapshot, and whether a value changed.
unfoldable pub apply_change : Snapshot → StateChange → Snapshot × Bool
apply_change s (rx_vfo vfo) =
    if same_vfo s.receive vfo then (s, false) else (record s { receive = vfo }, true)
apply_change s (freq vfo hz) =
    if (vfo_of vfo s).freq_hz == hz
    then (s, false)
    else (put_vfo vfo (record (vfo_of vfo s) { freq_hz = hz }) s, true)
apply_change s (mode vfo m) = (
  put_vfo vfo (record (vfo_of vfo s) { base_mode = m; mode_known = true }) s,
  not (same_mode (vfo_of vfo s).base_mode m),
)
apply_change s (data_mode vfo on) =
    if same_bool (vfo_of vfo s).data_on on
    then (s, false)
    else (put_vfo vfo (record (vfo_of vfo s) { data_on = on }) s, true)
apply_change s (split enabled tx) =
    let new_tx = vfo_or tx s.transmit in
    if same_bool s.split_on enabled && same_vfo s.transmit new_tx
    then (s, false)
    else (record s { split_on = enabled; transmit = new_tx }, true)
apply_change s (ptt on) =
    if same_bool s.keyed on then (s, false) else (record s { keyed = on }, true)
apply_change s (rit enabled offset_hz) =
    if same_bool s.rit_enabled enabled && same_int s.rit_offset_hz offset_hz
    then (s, false)
    else (record s { rit_enabled = enabled; rit_offset_hz = offset_hz }, true)
apply_change s (xit enabled offset_hz) =
    if same_bool s.xit_enabled enabled && same_int s.xit_offset_hz offset_hz
    then (s, false)
    else (record s { xit_enabled = enabled; xit_offset_hz = offset_hz }, true)
apply_change s (tx_power p) =
    if same_power s.power p then (s, false) else (record s { power = p }, true)

-- A cached fact of a VFO that a change of frequency may have made stale.
pub data ModeFact : Type 0 where
  base_fact data_fact : Vfo → ModeFact

abbrev pub same_fact : ModeFact → ModeFact → Bool
same_fact (base_fact v) (base_fact w) = same_vfo v w
same_fact (data_fact v) (data_fact w) = same_vfo v w
same_fact _ _ = false

pub data RadioEvent : Type 0 where
  change : StateChange → RadioEvent
  raw raw_native : Bytes → RadioEvent

-- `covered` and `uncertain_mode` are `HashSet`s: here, lists read by membership.
pub record StateHandle : Type 0 where
  pub snapshot : Snapshot
  pub covered : List Field
  pub uncertain : List ModeFact

unfoldable pub new_handle : StateHandle
new_handle = record { snapshot = snapshot_default; covered = []; uncertain = [] }

abbrev pub is_uncertain : List ModeFact → ModeFact → Bool
is_uncertain [] f = false
is_uncertain (g ∷ gs) f = same_fact g f || is_uncertain gs f

abbrev pub forget : ModeFact → List ModeFact → List ModeFact
forget f = retain (λ g. not (same_fact g f))

abbrev pub is_optimistic : RadioEventSource → Bool
is_optimistic optimistic_write = true
is_optimistic _ = false

-- The `match` on the change in `record`.
unfoldable pub update_uncertain :
    StateChange → Bool → RadioEventSource → List ModeFact → List ModeFact
update_uncertain (freq vfo hz) changed source facts =
    if changed && is_optimistic source then base_fact vfo ∷ data_fact vfo ∷ facts else facts
update_uncertain (mode vfo m) changed source facts = forget (base_fact vfo) facts
update_uncertain (data_mode vfo on) changed source facts = forget (data_fact vfo) facts
update_uncertain _ changed source facts = facts

abbrev pub cover : RadioEventSource → Field → List Field → List Field
cover native_push f fields = f ∷ fields
cover _ f fields = fields

abbrev pub same_field : Field → Field → Bool
same_field rx_vfo_field rx_vfo_field = true
same_field (freq_field v) (freq_field w) = same_vfo v w
same_field (mode_field v) (mode_field w) = same_vfo v w
same_field split_field split_field = true
same_field ptt_field ptt_field = true
same_field rit_field rit_field = true
same_field xit_field xit_field = true
same_field s_meter_field s_meter_field = true
same_field power_field power_field = true
same_field _ _ = false

abbrev pub has_field : List Field → Field → Bool
has_field [] f = false
has_field (g ∷ gs) f = same_field g f || has_field gs f

abbrev pub is_native_push_covered : StateHandle → Field → Bool
is_native_push_covered h f = has_field h.covered f

-- `record`: the new state, and the events that are broadcast.
unfoldable pub record_change :
    StateChange → RadioEventSource → StateHandle → StateHandle × List RadioEvent
unfolding update_uncertain
record_change c source h =
    let (after, changed) = apply_change h.snapshot c in
    (
      record {
        snapshot = after;
        covered = cover source (field c) h.covered;
        uncertain = update_uncertain c changed source h.uncertain;
      },
      if changed then change c ∷ [] else [],
    )

abbrev pub record_raw : Bytes → List RadioEvent
record_raw frame = raw frame ∷ []

abbrev pub record_raw_native : Bytes → List RadioEvent
record_raw_native frame = raw_native frame ∷ []

unfoldable pub invalidated : List ModeFact → StateMutation → Bool
invalidated facts (set_mode vfo m) = is_uncertain facts (base_fact vfo)
invalidated facts (set_data_mode vfo on) = is_uncertain facts (data_fact vfo)
invalidated facts _ = false

unfoldable pub is_redundant : StateHandle → StateMutation → Bool
is_redundant h m = not (invalidated h.uncertain m) && snapshot_is_redundant h.snapshot m
