-- ===== src/Hamlib/Reading.antt =====
-- What a session without the read permission is told.
use cathub.Radio.Model.{a, StateMutation, set_vfo_freq, set_mode, set_data_mode}
use cathub.Radio.Session.{Session}
use cathub.Hamlib.Commands

-- A write as if its VFO were A, and a plan up to the VFO that it writes to.
abbrev pub unaimed : StateMutation → StateMutation
unaimed (set_vfo_freq v hz) = set_vfo_freq a hz
unaimed (set_mode v m) = set_mode a m
unaimed (set_data_mode v on) = set_data_mode a on
unaimed m = m

abbrev pub told : Commands.Plan → Commands.Plan
told (Commands.writes m class) = Commands.writes (unaimed m) class
told (Commands.writes_both m n) = Commands.writes_both (unaimed m) (unaimed n)
told plan = plan
