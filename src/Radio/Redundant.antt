-- ===== src/Radio/Redundant.antt =====
-- Writes that state.rs suppresses.
use cathub.Prelude.{
  and_true, ℕ, ◌≡◌, refl, sym, ap, ◌∙◌, Bool, true, false, not, List, [], ◌∷◌, none, some, ==_iff,
  ==_refl, Bool-cases, inl, inr,
}
use cathub.Radio.Model.{
  Vfo, a, b, same_vfo, ℤ, pos, negsuc, same_int, same_bool, Mode, usb, to_kenwood_digit,
  StateMutation, set_rx_vfo, set_vfo_freq, set_mode, set_data_mode, set_split, set_ptt, set_rit,
  set_xit, into_change, RadioEventSource,
}
use cathub.Radio.State.{
  VfoSnapshot, Snapshot, vfo_of, snapshot_is_redundant, apply_change, StateHandle, record_change,
  invalidated, is_redundant, ModeFact, base_fact, data_fact, same_fact, is_uncertain, forget,
  update_uncertain,
}
use cathub.Radio.Replay.{assign, apply_change-assign, same_vfo_sound}

-- A mode write concerns the VFO that receives; every other write is taken as it is.
abbrev pub concerns_receiver : Snapshot → StateMutation → Bool
concerns_receiver s (set_mode vfo m) = same_vfo s.receive vfo
concerns_receiver s _ = true

-- What the radio holds: the snapshot, with each mode reduced to its digit.
abbrev pub Wire : Type 0
Wire = Snapshot × ℕ × ℕ

abbrev pub blank : VfoSnapshot → VfoSnapshot
blank v = record v { base_mode = usb; mode_known = false }

abbrev pub wire : Snapshot → Wire
wire s = (
  record s { vfo_a = blank s.vfo_a; vfo_b = blank s.vfo_b },
  to_kenwood_digit s.vfo_a.base_mode,
  to_kenwood_digit s.vfo_b.base_mode,
)

abbrev pub is_ptt : StateMutation → Bool
is_ptt (set_ptt on source) = true
is_ptt _ = false

same_vfo_refl : (v : Vfo) → same_vfo v v ≡ true
same_vfo_refl a = refl
same_vfo_refl b = refl

same_bool_refl : (x : Bool) → same_bool x x ≡ true
same_bool_refl true = refl
same_bool_refl false = refl

same_int_refl : (x : ℤ) → same_int x x ≡ true
same_int_refl (pos n) = ==_refl n
same_int_refl (negsuc n) = ==_refl n

mode-wire :
    (s : Snapshot) (vfo : Vfo) (m : Mode)
    → s.receive ≡ vfo
    → to_kenwood_digit (vfo_of s.receive s).base_mode ≡ to_kenwood_digit m
    → to_kenwood_digit (vfo_of vfo s).base_mode ≡ to_kenwood_digit m
mode-wire s vfo m r e = ap (λ v. to_kenwood_digit (vfo_of v s).base_mode) (sym r) ∙ e

-- A write that the snapshot calls redundant, a mode write being for the receiving VFO, leaves what
-- the radio holds as it is: every value, and the digit of each mode.
pub snapshot_is_redundant-wire :
    (s : Snapshot) (m : StateMutation)
    → snapshot_is_redundant s m ≡ true
    → concerns_receiver s m ≡ true
    → wire (apply_change s (into_change m)).0 ≡ wire s
unfolding snapshot_is_redundant into_change apply_change
snapshot_is_redundant-wire s (set_rx_vfo vfo) h k = rw h refl
snapshot_is_redundant-wire s (set_vfo_freq vfo hz) h k = rw h refl
snapshot_is_redundant-wire s (set_mode a m) h k =
    ap
      (λ d. (
        record s { vfo_a = blank s.vfo_a; vfo_b = blank s.vfo_b },
        d,
        to_kenwood_digit s.vfo_b.base_mode,
      ))
      (sym (mode-wire s a m (same_vfo_sound s.receive a k) ((==_iff _ (to_kenwood_digit m)).0 h)))
snapshot_is_redundant-wire s (set_mode b m) h k =
    ap
      (λ d. (
        record s { vfo_a = blank s.vfo_a; vfo_b = blank s.vfo_b },
        to_kenwood_digit s.vfo_a.base_mode,
        d,
      ))
      (sym (mode-wire s b m (same_vfo_sound s.receive b k) ((==_iff _ (to_kenwood_digit m)).0 h)))
snapshot_is_redundant-wire s (set_data_mode vfo on) h k = rw h refl
snapshot_is_redundant-wire s (set_split enabled tx) h k = rw h refl
snapshot_is_redundant-wire s (set_ptt on source) h k = cc
snapshot_is_redundant-wire s (set_rit offset_hz enabled) h k = rw h refl
snapshot_is_redundant-wire s (set_xit offset_hz enabled) h k = rw h refl

forget_gone : (f : ModeFact) (facts : List ModeFact) → is_uncertain (forget f facts) f ≡ false
forget_gone f [] = refl
forget_gone f (g ∷ gs) = elim (Bool-cases (same_fact g f)) [
  | inl e ↦ rw e (forget_gone f gs)
  | inr e ↦ rw (e, e) (forget_gone f gs)
]

assigned-redundant :
    (s : Snapshot) (m : StateMutation)
    → is_ptt m ≡ false
    → concerns_receiver s m ≡ true
    → snapshot_is_redundant (assign s (into_change m)) m ≡ true
unfolding snapshot_is_redundant into_change
assigned-redundant s (set_rx_vfo vfo) p k = same_vfo_refl vfo
assigned-redundant s (set_vfo_freq a hz) p k = ==_refl hz
assigned-redundant s (set_vfo_freq b hz) p k = ==_refl hz
assigned-redundant s (set_mode a m) p k =
    rw (same_vfo_sound s.receive a k) (==_refl (to_kenwood_digit m))
assigned-redundant s (set_mode b m) p k =
    rw (same_vfo_sound s.receive b k) (==_refl (to_kenwood_digit m))
assigned-redundant s (set_data_mode a on) p k = same_bool_refl on
assigned-redundant s (set_data_mode b on) p k = same_bool_refl on
assigned-redundant s (set_split enabled none) p k =
    and_true _ _ (same_bool_refl enabled) (same_vfo_refl s.transmit)
assigned-redundant s (set_split enabled (some v)) p k =
    and_true _ _ (same_bool_refl enabled) (same_vfo_refl v)
assigned-redundant s (set_ptt on source) p k = cc
assigned-redundant s (set_rit offset_hz enabled) p k =
    and_true _ _ (same_bool_refl enabled) (same_int_refl offset_hz)
assigned-redundant s (set_xit offset_hz enabled) p k =
    and_true _ _ (same_bool_refl enabled) (same_int_refl offset_hz)

settled :
    (m : StateMutation) (changed : Bool) (source : RadioEventSource) (facts : List ModeFact)
    → invalidated (update_uncertain (into_change m) changed source facts) m ≡ false
unfolding invalidated update_uncertain into_change
settled (set_rx_vfo vfo) changed source facts = refl
settled (set_vfo_freq vfo hz) changed source facts = refl
settled (set_mode vfo m) changed source facts = forget_gone (base_fact vfo) facts
settled (set_data_mode vfo on) changed source facts = forget_gone (data_fact vfo) facts
settled (set_split enabled tx) changed source facts = refl
settled (set_ptt on source') changed source facts = refl
settled (set_rit offset_hz enabled) changed source facts = refl
settled (set_xit offset_hz enabled) changed source facts = refl

-- Once the change of a write is recorded, from any source, the same write is redundant: for every
-- write but keying, a mode write being for the receiving VFO.
pub record_change-is_redundant :
    (h : StateHandle) (m : StateMutation) (source : RadioEventSource)
    → is_ptt m ≡ false
    → concerns_receiver h.snapshot m ≡ true
    → is_redundant (record_change (into_change m) source h).0 m ≡ true
unfolding is_redundant record_change
record_change-is_redundant h m source p k =
    and_true _ _ (ap not (settled m (apply_change h.snapshot (into_change m)).1 source h.uncertain))
      (ap (λ s. snapshot_is_redundant s m) (apply_change-assign h.snapshot (into_change m))
        ∙ assigned-redundant h.snapshot m p k)
