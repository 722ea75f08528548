-- ===== src/Radio/Certainty.antt =====
-- Mode facts that a change of frequency made uncertain (state.rs).
use cathub.Prelude.{
  or_left, or_right, ℕ, ◌≡◌, refl, Bool, true, false, ◌||◌, List, [], ◌∷◌, arith, ◌==◌,
}
use cathub.Radio.Model.{
  Vfo, a, b, same_vfo, Mode, set_mode, set_data_mode, RadioEventSource, optimistic_write,
  StateChange, rx_vfo, freq, mode, data_mode, split, ptt, rit, xit, tx_power,
}
use cathub.Radio.State.{
  vfo_of, apply_change, StateHandle, record_change, invalidated, is_redundant, ModeFact, base_fact,
  data_fact, same_fact, is_uncertain, forget, update_uncertain,
}

-- Whether a recorded change settles a fact.
abbrev pub settles : StateChange → ModeFact → Bool
settles (mode vfo m) f = same_fact (base_fact vfo) f
settles (data_mode vfo on) f = same_fact (data_fact vfo) f
settles _ f = false

abbrev pub Observation : Type 0
Observation = StateChange × RadioEventSource

abbrev pub record_all : List Observation → StateHandle → StateHandle
record_all [] h = h
record_all ((c, source) ∷ cs) h = record_all cs (record_change c source h).0

abbrev pub settles_any : List Observation → ModeFact → Bool
settles_any [] f = false
settles_any ((c, source) ∷ cs) f = settles c f || settles_any cs f

same_vfo_refl : (v : Vfo) → same_vfo v v ≡ true
same_vfo_refl a = refl
same_vfo_refl b = refl

same_fact-euclid :
    (f g e : ModeFact) → same_fact f e ≡ true → same_fact f g ≡ true → same_fact g e ≡ true
same_fact-euclid (base_fact a) (base_fact a) e h k = h
same_fact-euclid (base_fact b) (base_fact b) e h k = h
same_fact-euclid (data_fact a) (data_fact a) e h k = h
same_fact-euclid (data_fact b) (data_fact b) e h k = h
same_fact-euclid (base_fact a) (base_fact b) e h k = cc
same_fact-euclid (base_fact b) (base_fact a) e h k = cc
same_fact-euclid (data_fact a) (data_fact b) e h k = cc
same_fact-euclid (data_fact b) (data_fact a) e h k = cc
same_fact-euclid (base_fact v) (data_fact w) e h k = cc
same_fact-euclid (data_fact v) (base_fact w) e h k = cc

forget_other :
    (g f : ModeFact) (facts : List ModeFact)
    → same_fact g f ≡ false
    → is_uncertain facts f ≡ true
    → is_uncertain (forget g facts) f ≡ true
forget_other g f [] n h = h
forget_other g f (k ∷ ks) n h = ground (arith, same_fact-euclid k g f, forget_other g f ks n)

update-stays :
    (c : StateChange) (changed : Bool) (source : RadioEventSource) (facts : List ModeFact)
    (f : ModeFact)
    → settles c f ≡ false
    → is_uncertain facts f ≡ true
    → is_uncertain (update_uncertain c changed source facts) f ≡ true
unfolding update_uncertain
update-stays (rx_vfo vfo) changed source facts f n h = h
update-stays (freq vfo hz) changed source facts f n h = ground (arith, h)
update-stays (mode vfo m) changed source facts f n h = forget_other (base_fact vfo) f facts n h
update-stays (data_mode vfo on) changed source facts f n h =
    forget_other (data_fact vfo) f facts n h
update-stays (split enabled tx) changed source facts f n h = h
update-stays (ptt on) changed source facts f n h = h
update-stays (rit enabled offset_hz) changed source facts f n h = h
update-stays (xit enabled offset_hz) changed source facts f n h = h
update-stays (tx_power p) changed source facts f n h = h

record_all-stays :
    (cs : List Observation) (h : StateHandle) (f : ModeFact)
    → settles_any cs f ≡ false
    → is_uncertain h.uncertain f ≡ true
    → is_uncertain (record_all cs h).uncertain f ≡ true
unfolding record_change
record_all-stays [] h f n u = u
record_all-stays ((c, source) ∷ cs) h f n u =
    record_all-stays cs (record_change c source h).0 f (or_right (settles c f) _ n) (
      update-stays c (apply_change h.snapshot c).1 source h.uncertain f (or_left (settles c f) _ n)
        u)

freq-uncertain :
    (h : StateHandle) (vfo : Vfo) (hz : ℕ)
    → ((vfo_of vfo h.snapshot).freq_hz == hz) ≡ false
    → let after = (record_change (freq vfo hz) optimistic_write h).0 in
      (is_uncertain after.uncertain (base_fact vfo) ≡ true)
      × (is_uncertain after.uncertain (data_fact vfo) ≡ true)
unfolding record_change apply_change update_uncertain
freq-uncertain h vfo hz n = rw (n, same_vfo_refl vfo) (refl, refl)

-- After a written frequency that differs from the one held, and through any further changes of
-- which none is a mode of this VFO, no mode write for it is suppressed.
pub freq-set_mode :
    (h : StateHandle) (vfo : Vfo) (hz : ℕ) (cs : List Observation) (m : Mode)
    → ((vfo_of vfo h.snapshot).freq_hz == hz) ≡ false
    → settles_any cs (base_fact vfo) ≡ false
    → let next = (record_change (freq vfo hz) optimistic_write h).0 in
      is_redundant (record_all cs next) (set_mode vfo m) ≡ false
unfolding is_redundant invalidated
freq-set_mode h vfo hz cs m n quiet =
    let next = (record_change (freq vfo hz) optimistic_write h).0 in
    rw (record_all-stays cs next (base_fact vfo) quiet (freq-uncertain h vfo hz n).0) refl

-- After a written frequency that differs from the one held, and through any further changes of
-- which none is a DATA flag of this VFO, no DATA write for it is suppressed.
pub freq-set_data_mode :
    (h : StateHandle) (vfo : Vfo) (hz : ℕ) (cs : List Observation) (on : Bool)
    → ((vfo_of vfo h.snapshot).freq_hz == hz) ≡ false
    → settles_any cs (data_fact vfo) ≡ false
    → let next = (record_change (freq vfo hz) optimistic_write h).0 in
      is_redundant (record_all cs next) (set_data_mode vfo on) ≡ false
unfolding is_redundant invalidated
freq-set_data_mode h vfo hz cs on n quiet =
    let next = (record_change (freq vfo hz) optimistic_write h).0 in
    rw (record_all-stays cs next (data_fact vfo) quiet (freq-uncertain h vfo hz n).1) refl
