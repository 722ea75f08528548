-- ===== src/Radio/Replay.antt =====
-- Changes of state.rs as assignments, and the replay that brings a session up to date.
use cathub.Prelude.{
  and_both, ℕ, ◌≡◌, refl, ap, ◌∙◌, Bool, true, false, ◌&&◌, List, [], ◌∷◌, Option, none, some,
  arith, ◌==◌, ==_iff, if◌then◌else◌,
}
use cathub.Radio.Model.{
  Vfo, a, b, same_vfo, ℤ, pos, negsuc, same_int, same_bool, TxPower, StateChange, rx_vfo, freq,
  mode, data_mode, split, ptt, rit, xit, tx_power,
}
use cathub.Radio.State.{
  Snapshot, vfo_of, put_vfo, vfo_or, same_option, same_power, as_changes, apply_change,
}

pub same_vfo_sound : (v w : Vfo) → same_vfo v w ≡ true → v ≡ w
same_vfo_sound a a e = refl
same_vfo_sound a b e = cc
same_vfo_sound b a e = cc
same_vfo_sound b b e = refl

pub same_bool_sound : (x y : Bool) → same_bool x y ≡ true → x ≡ y
same_bool_sound true true e = refl
same_bool_sound true false e = cc
same_bool_sound false true e = cc
same_bool_sound false false e = refl

pub same_int_sound : (x y : ℤ) → same_int x y ≡ true → x ≡ y
same_int_sound (pos m) (pos n) e = ap pos (ground (arith, e))
same_int_sound (pos m) (negsuc n) e = cc
same_int_sound (negsuc m) (pos n) e = cc
same_int_sound (negsuc m) (negsuc n) e = ap negsuc (ground (arith, e))

same_option_sound : (x y : Option ℕ) → same_option x y ≡ true → x ≡ y
same_option_sound none none e = refl
same_option_sound none (some n) e = cc
same_option_sound (some m) none e = cc
same_option_sound (some m) (some n) e = ap some (ground (arith, e))

same_power_parts :
    (p q : TxPower)
    → same_power (some p) (some q) ≡ true
    → (p.relative_millionths ≡ q.relative_millionths)
      × (p.milliwatts ≡ q.milliwatts)
      × (p.max_milliwatts ≡ q.max_milliwatts)
same_power_parts p q e =
    let relative = p.relative_millionths == q.relative_millionths in
    let watts = p.milliwatts == q.milliwatts in
    let (x, y) = and_both (relative && watts) (same_option p.max_milliwatts q.max_milliwatts) e in
    let (u, v) = and_both relative watts x in
    (ground (arith, u), ground (arith, v), same_option_sound p.max_milliwatts q.max_milliwatts y)

same_fields :
    (p q : TxPower)
    → (p.relative_millionths ≡ q.relative_millionths)
      × (p.milliwatts ≡ q.milliwatts)
      × (p.max_milliwatts ≡ q.max_milliwatts)
    → p ≡ q
same_fields p q (r, m, x) =
    ap (λ n. record p { relative_millionths = n }) r
    ∙ ap (λ n. record p { relative_millionths = q.relative_millionths; milliwatts = n }) m
    ∙ ap (λ n. record q { max_milliwatts = n }) x

same_power_sound : (p q : Option TxPower) → same_power p q ≡ true → p ≡ q
same_power_sound none none e = refl
same_power_sound none (some q) e = cc
same_power_sound (some p) none e = cc
same_power_sound (some p) (some q) e = ap some (same_fields p q (same_power_parts p q e))

-- What a change is meant to do: the assignment of its field.
abbrev pub assign : Snapshot → StateChange → Snapshot
assign s (rx_vfo vfo) = record s { receive = vfo }
assign s (freq vfo hz) = put_vfo vfo (record (vfo_of vfo s) { freq_hz = hz }) s
assign s (mode vfo m) = put_vfo vfo (record (vfo_of vfo s) { base_mode = m; mode_known = true }) s
assign s (data_mode vfo on) = put_vfo vfo (record (vfo_of vfo s) { data_on = on }) s
assign s (split enabled tx) = record s { split_on = enabled; transmit = vfo_or tx s.transmit }
assign s (ptt on) = record s { keyed = on }
assign s (rit enabled offset_hz) = record s { rit_enabled = enabled; rit_offset_hz = offset_hz }
assign s (xit enabled offset_hz) = record s { xit_enabled = enabled; xit_offset_hz = offset_hz }
assign s (tx_power p) = record s { power = p }

abbrev choice : Bool → Snapshot → Snapshot → Snapshot × Bool
choice test s t = if test then (s, false) else (t, true)

if_same : (test : Bool) (s t : Snapshot) → (test ≡ true → s ≡ t) → (choice test s t).0 ≡ t
if_same true s t h = h refl
if_same false s t h = refl

-- A change assigns its field, whether or not a value changes.
pub apply_change-assign : (s : Snapshot) (c : StateChange) → (apply_change s c).0 ≡ assign s c
unfolding apply_change
apply_change-assign s (rx_vfo vfo) =
    if_same (same_vfo s.receive vfo) s _
      (λ e. ap (λ v. record s { receive = v }) (same_vfo_sound s.receive vfo e))
apply_change-assign s (freq a hz) = if_same (s.vfo_a.freq_hz == hz) s _ (λ e.
    ap (λ n. record s { vfo_a = record s.vfo_a { freq_hz = n } }) ((==_iff s.vfo_a.freq_hz hz).0 e))
apply_change-assign s (freq b hz) = if_same (s.vfo_b.freq_hz == hz) s _ (λ e.
    ap (λ n. record s { vfo_b = record s.vfo_b { freq_hz = n } }) ((==_iff s.vfo_b.freq_hz hz).0 e))
apply_change-assign s (mode vfo m) = refl
apply_change-assign s (data_mode a on) = if_same (same_bool s.vfo_a.data_on on) s _ (λ e.
    ap (λ x. record s { vfo_a = record s.vfo_a { data_on = x } })
      (same_bool_sound s.vfo_a.data_on on e))
apply_change-assign s (data_mode b on) = if_same (same_bool s.vfo_b.data_on on) s _ (λ e.
    ap (λ x. record s { vfo_b = record s.vfo_b { data_on = x } })
      (same_bool_sound s.vfo_b.data_on on e))
apply_change-assign s (split enabled tx) =
    if_same (same_bool s.split_on enabled && same_vfo s.transmit (vfo_or tx s.transmit)) s _ (λ e.
      let (x, y) = and_both (same_bool s.split_on enabled) _ e in
      ap (λ on. record s { split_on = on }) (same_bool_sound s.split_on enabled x)
      ∙ ap (λ v. record s { split_on = enabled; transmit = v }) (same_vfo_sound s.transmit _ y))
apply_change-assign s (ptt on) =
    if_same (same_bool s.keyed on) s _
      (λ e. ap (λ x. record s { keyed = x }) (same_bool_sound s.keyed on e))
apply_change-assign s (rit enabled offset_hz) =
    if_same (same_bool s.rit_enabled enabled && same_int s.rit_offset_hz offset_hz) s _ (λ e.
      let (x, y) = and_both (same_bool s.rit_enabled enabled) _ e in
      ap (λ on. record s { rit_enabled = on }) (same_bool_sound s.rit_enabled enabled x)
      ∙ ap (λ n. record s { rit_enabled = enabled; rit_offset_hz = n })
          (same_int_sound s.rit_offset_hz offset_hz y))
apply_change-assign s (xit enabled offset_hz) =
    if_same (same_bool s.xit_enabled enabled && same_int s.xit_offset_hz offset_hz) s _ (λ e.
      let (x, y) = and_both (same_bool s.xit_enabled enabled) _ e in
      ap (λ on. record s { xit_enabled = on }) (same_bool_sound s.xit_enabled enabled x)
      ∙ ap (λ n. record s { xit_enabled = enabled; xit_offset_hz = n })
          (same_int_sound s.xit_offset_hz offset_hz y))
apply_change-assign s (tx_power p) =
    if_same (same_power s.power p) s _
      (λ e. ap (λ q. record s { power = q }) (same_power_sound s.power p e))

abbrev pub replay : List StateChange → Snapshot → Snapshot
replay [] s = s
replay (c ∷ cs) s = replay cs (apply_change s c).0

abbrev pub assign_all : List StateChange → Snapshot → Snapshot
assign_all [] s = s
assign_all (c ∷ cs) s = assign_all cs (assign s c)

pub replay-assign_all : (cs : List StateChange) (s : Snapshot) → replay cs s ≡ assign_all cs s
replay-assign_all [] s = refl
replay-assign_all (c ∷ cs) s =
    replay-assign_all cs (apply_change s c).0 ∙ ap (assign_all cs) (apply_change-assign s c)

-- Replaying `as_changes` of a snapshot onto any other gives the snapshot back, except for the
-- passbands and the power state, which no change carries; both modes count as known from then on.
pub replay-as_changes :
    (s t : Snapshot)
    → replay (as_changes s) t ≡ record s {
      vfo_a = record s.vfo_a { mode_known = true; passband_hz = t.vfo_a.passband_hz };
      vfo_b = record s.vfo_b { mode_known = true; passband_hz = t.vfo_b.passband_hz };
      power_on = t.power_on;
    }
unfolding as_changes
replay-as_changes s t = replay-assign_all (as_changes s) t
