-- ===== src/Kenwood/Dialect/Retarget.antt =====
-- Which writes the TS-2000 translator makes.
use cathub.Prelude.{◌≡◌, refl, Bool, true, false, [], ◌∷◌, Bytes, arith, Option-cases, inl, inr}
use cathub.Radio.Model.{Vfo, a, b, same_vfo, StateMutation, set_vfo_freq, set_mode}
use cathub.Radio.State.{Snapshot}
use cathub.Kenwood.Frames.{parse_u64}
use cathub.Kenwood.Dialect.{
  Action, says, toggles, applies, forwards, parse_command, set_freq, mode_write,
}
use cathub.Kenwood.Dialect.Ts2000.{handle, verb_action}

-- The writes that stay on a VFO.
abbrev pub tunes : Vfo → StateMutation → Bool
tunes vfo (set_vfo_freq v hz) = same_vfo v vfo
tunes vfo (set_mode v m) = same_vfo v vfo
tunes vfo _ = false

abbrev pub stays_on : Vfo → Action → Bool
stays_on vfo (says bytes) = true
stays_on vfo (toggles on) = true
stays_on vfo (applies m class) = tunes vfo m
stays_on vfo (forwards raw class) = false

same_vfo_refl : (v : Vfo) → same_vfo v v ≡ true
same_vfo_refl a = refl
same_vfo_refl b = refl

set_freq-stays_on : (v : Vfo) (payload : Bytes) → stays_on v (set_freq v payload) ≡ true
unfolding set_freq
set_freq-stays_on v payload = elim (Option-cases (parse_u64 payload)) [
  | inl e ↦ rw e refl
  | inr (hz, e) ↦ rw e (same_vfo_refl v)
]

mode_write-stays_on : (v : Vfo) (payload : Bytes) → stays_on v (mode_write v payload) ≡ true
mode_write-stays_on v [] = refl
mode_write-stays_on v (c ∷ cs) = same_vfo_refl v

verb_action-stays_on :
    (ai : Bool) (s : Snapshot) (verb payload : Bytes)
    → stays_on s.receive (verb_action ai s verb payload) ≡ true
unfolding verb_action
verb_action-stays_on ai s verb payload =
    ground (arith, set_freq-stays_on s.receive payload, mode_write-stays_on s.receive payload)

-- The translator never passes a command through to the radio, and whatever it is asked the only
-- writes it makes are of the frequency or the mode of the receiving VFO: no client of it can select
-- a VFO.
pub handle-stays_on :
    (ai : Bool) (s : Snapshot) (request : Bytes) → stays_on s.receive (handle ai s request) ≡ true
unfolding handle
handle-stays_on ai s request = elim (Option-cases (parse_command request)) [
  | inl e ↦ rw e refl
  | inr (r, e) ↦ rw e (verb_action-stays_on ai s r.0 r.1)
]
