-- ===== src/Hamlib/Writes.antt =====
-- Which writes a Hamlib client can make.
use cathub.Prelude.{
  ℕ, ◌≡◌, refl, Bool, true, false, not, ◌&&◌, List, Option, none, some, Bytes, arith,
}
use cathub.Radio.Model.{
  Vfo, a, b, same_vfo, ℤ, Mode, StateMutation, set_vfo_freq, set_mode, set_data_mode, set_split,
  set_ptt, set_rit, set_xit,
}
use cathub.Radio.Tokens.{decompose_hamlib_token}
use cathub.Radio.State.{Snapshot}
use cathub.Radio.Permissions.{CommandClass, modeled_write, ptt_write}
use cathub.Radio.Session.{Session}
use cathub.Hamlib.Commands

-- A write of the receiving VFO, or of no VFO; split only where both VFOs are shown, and keying only in
-- its own class.
abbrev pub is_admissible : (single_vfo : Bool) → Vfo → StateMutation → CommandClass → Bool
is_admissible single_vfo vfo (set_vfo_freq v hz) modeled_write = same_vfo v vfo
is_admissible single_vfo vfo (set_mode v m) modeled_write = same_vfo v vfo
is_admissible single_vfo vfo (set_data_mode v on) modeled_write = same_vfo v vfo
is_admissible single_vfo vfo (set_split enabled tx) modeled_write = not single_vfo
is_admissible single_vfo vfo (set_rit offset enabled) modeled_write = true
is_admissible single_vfo vfo (set_xit offset enabled) modeled_write = true
is_admissible single_vfo vfo (set_ptt keyed source) ptt_write = true
is_admissible single_vfo vfo m class = false

abbrev pub admits : (single_vfo : Bool) → Vfo → Commands.Plan → Bool
admits single_vfo vfo (Commands.replies bytes) = true
admits single_vfo vfo Commands.quits = true
admits single_vfo vfo (Commands.writes m class) = is_admissible single_vfo vfo m class
admits single_vfo vfo (Commands.writes_both m n) =
    is_admissible single_vfo vfo m modeled_write && is_admissible single_vfo vfo n modeled_write

same_vfo_refl : (v : Vfo) → same_vfo v v ≡ true
same_vfo_refl a = refl
same_vfo_refl b = refl

freq_plan-admits :
    (single_vfo : Bool) (v : Vfo) (hz : Option ℕ)
    → admits single_vfo v (Commands.freq_plan v hz) ≡ true
freq_plan-admits single_vfo v none = refl
freq_plan-admits single_vfo v (some hz) = same_vfo_refl v

modes_plan-admits :
    (single_vfo : Bool) (v : Vfo) (r : Mode × Bool)
    → admits single_vfo v (Commands.modes_plan v r) ≡ true
modes_plan-admits single_vfo v (base, packet) = ground (arith, same_vfo_refl v)

mode_plan-admits :
    (single_vfo : Bool) (v : Vfo) (token : Option Bytes)
    → admits single_vfo v (Commands.mode_plan v token) ≡ true
mode_plan-admits single_vfo v none = refl
mode_plan-admits single_vfo v (some token) =
    modes_plan-admits single_vfo v (decompose_hamlib_token token)

split_plan-admits :
    (c : Session) (v : Vfo) (args : List Bytes)
    → admits c.single_vfo v (Commands.split_plan c args) ≡ true
split_plan-admits c v args = ground arith

rit_plan-admits :
    (single_vfo : Bool) (v : Vfo) (available : Bool) (offset : Option ℤ)
    → (admits single_vfo v (Commands.offset_plan set_rit available offset) ≡ true)
      × (admits single_vfo v (Commands.offset_plan set_xit available offset) ≡ true)
rit_plan-admits single_vfo v false offset = (refl, refl)
rit_plan-admits single_vfo v true none = (refl, refl)
rit_plan-admits single_vfo v true (some offset) = (refl, refl)

ptt-admits :
    (single_vfo : Bool) (v : Vfo) (arg : Option Bytes)
    → admits single_vfo v (Commands.writes (Commands.ptt_request arg) ptt_write) ≡ true
ptt-admits single_vfo v arg = ground arith

-- Whatever the command, what it writes is the frequency, the mode or the DATA flag of the receiving
-- VFO, an offset, keying in its own class, or split, and split only from a session that sees both VFOs.
pub dispatch_plain-admits :
    (dump : Bytes) (c : Session) (s : Snapshot) (command : Commands.Command) (args : List Bytes)
    → admits c.single_vfo s.receive (Commands.dispatch_plain dump c s command args) ≡ true
unfolding Commands.dispatch_plain
dispatch_plain-admits dump c s Commands.set_freq_command args =
    freq_plan-admits c.single_vfo s.receive (Commands.freq_of (Commands.argument args 0))
dispatch_plain-admits dump c s Commands.set_mode_command args =
    mode_plan-admits c.single_vfo s.receive (Commands.argument args 0)
dispatch_plain-admits dump c s Commands.set_split_vfo args = split_plan-admits c s.receive args
dispatch_plain-admits dump c s Commands.set_ptt_command args =
    ptt-admits c.single_vfo s.receive (Commands.argument args 0)
dispatch_plain-admits dump c s Commands.set_rit_command args =
    (rit_plan-admits c.single_vfo s.receive c.caps.has_rit
      (Commands.offset_of (Commands.argument args 0))).0
dispatch_plain-admits dump c s Commands.set_xit_command args =
    (rit_plan-admits c.single_vfo s.receive c.caps.has_xit
      (Commands.offset_of (Commands.argument args 0))).1
dispatch_plain-admits dump c s Commands.quit args = refl
dispatch_plain-admits dump c s Commands.get_freq args = refl
dispatch_plain-admits dump c s Commands.get_mode args = refl
dispatch_plain-admits dump c s Commands.get_vfo args = refl
dispatch_plain-admits dump c s Commands.get_vfo_info args = refl
dispatch_plain-admits dump c s Commands.get_split_vfo args = refl
dispatch_plain-admits dump c s Commands.get_split_freq args = refl
dispatch_plain-admits dump c s Commands.get_split_mode args = refl
dispatch_plain-admits dump c s Commands.get_level args = refl
dispatch_plain-admits dump c s Commands.power2mw args = refl
dispatch_plain-admits dump c s Commands.get_ptt args = refl
dispatch_plain-admits dump c s Commands.get_powerstat args = refl
dispatch_plain-admits dump c s Commands.dump_state args = refl
dispatch_plain-admits dump c s Commands.chk_vfo args = refl
dispatch_plain-admits dump c s Commands.set_vfo args = refl
dispatch_plain-admits dump c s Commands.get_rit args = refl
dispatch_plain-admits dump c s Commands.get_xit args = refl
dispatch_plain-admits dump c s Commands.other_command args = refl
