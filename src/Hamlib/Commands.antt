-- ===== src/Hamlib/Commands.antt =====
-- `dispatch_plain` of hamlib_net.rs. The names of its match are the constructors of `Command`, and its
-- answer is a `Plan`: a reply, the end of the session, or writes whose outcome is the reply.
use cathub.Prelude.{
  ℕ, Bool, true, false, ◌&&◌, ◌||◌, not, List, ◌++◌, Option, none, some, ◌==◌, if◌then◌else◌, equal,
  Bytes, get_elem?,
}
use cathub.Prelude.Text.{text}
use cathub.Radio.Model.{
  Vfo, ℤ, pos, same_int, TxPower, Mode, unknown, same_mode, generic, mic, data_source,
  StateMutation, set_vfo_freq, set_mode, set_data_mode, set_split, set_ptt, set_rit, set_xit,
}
use cathub.Radio.Power.{milliwatts_for_relative}
use cathub.Radio.Tokens.{
  hamlib_token_with_data, decompose_hamlib_token, relative_decimal, parse_relative_millionths,
}
use cathub.Radio.State.{Snapshot, VfoSnapshot, vfo_of}
use cathub.Radio.Permissions.{CommandClass, modeled_read, modeled_write, ptt_write, allows}
use cathub.Radio.Session.{Session, ApplyOutcome, outcome_ok}
use cathub.Hamlib.Words.{
  decimal, flag_text, signed, line_of, vfo_name, named_b, parse_freq_hz, parse_i32,
  eq_ignore_ascii_case,
}

pub data Command : Type 0 where
  quit get_freq get_mode get_vfo get_vfo_info get_split_vfo get_split_freq get_split_mode : Command
  get_level power2mw get_ptt get_powerstat dump_state chk_vfo : Command
  set_freq_command set_mode_command set_split_vfo set_ptt_command set_vfo : Command
  get_rit get_xit set_rit_command set_xit_command other_command : Command

abbrev pub named : Bytes → Bytes → Bytes → Bool
named cmd short long = equal cmd short || equal cmd long

unfoldable pub command_of : Bytes → Command
command_of cmd =
    if named cmd (text "q") (text "Q")
    then quit
    else if named cmd (text "f") (text "\\get_freq")
    then get_freq
    else if named cmd (text "m") (text "\\get_mode")
    then get_mode
    else if named cmd (text "v") (text "\\get_vfo")
    then get_vfo
    else if equal cmd (text "\\get_vfo_info")
    then get_vfo_info
    else if named cmd (text "s") (text "\\get_split_vfo")
    then get_split_vfo
    else if named cmd (text "i") (text "\\get_split_freq")
    then get_split_freq
    else if named cmd (text "x") (text "\\get_split_mode")
    then get_split_mode
    else if named cmd (text "l") (text "\\get_level")
    then get_level
    else if named cmd (text "2") (text "\\power2mW")
    then power2mw
    else if named cmd (text "t") (text "\\get_ptt")
    then get_ptt
    else if equal cmd (text "\\get_powerstat")
    then get_powerstat
    else if equal cmd (text "\\dump_state")
    then dump_state
    else if equal cmd (text "\\chk_vfo")
    then chk_vfo
    else if named cmd (text "F") (text "\\set_freq")
    then set_freq_command
    else if named cmd (text "M") (text "\\set_mode")
    then set_mode_command
    else if named cmd (text "S") (text "\\set_split_vfo")
    then set_split_vfo
    else if named cmd (text "T") (text "\\set_ptt")
    then set_ptt_command
    else if named cmd (text "V") (text "\\set_vfo")
    then set_vfo
    else if named cmd (text "j") (text "\\get_rit")
    then get_rit
    else if named cmd (text "z") (text "\\get_xit")
    then get_xit
    else if named cmd (text "J") (text "\\set_rit")
    then set_rit_command
    else if named cmd (text "Z") (text "\\set_xit")
    then set_xit_command
    else other_command

abbrev pub rprt_ok : Bytes
rprt_ok = line_of (text "RPRT 0")

abbrev pub rprt_einval : Bytes
rprt_einval = line_of (text "RPRT -1")

abbrev pub rprt_enavail : Bytes
rprt_enavail = line_of (text "RPRT -11")

unfoldable pub outcome_rprt : ApplyOutcome → Bytes
outcome_rprt outcome_ok = rprt_ok
outcome_rprt _ = rprt_einval

-- The second write of `writes_both` is made only if the first is accepted.
pub data Plan : Type 0 where
  replies : Bytes → Plan
  quits : Plan
  writes : StateMutation → CommandClass → Plan
  writes_both : StateMutation → StateMutation → Plan

abbrev pub presented_vfo : Session → Snapshot → Vfo → Vfo
presented_vfo c s requested = if c.single_vfo then s.receive else requested

abbrev pub presented_vfo_name : Session → Vfo → Bytes
presented_vfo_name c real = if c.single_vfo then text "VFOA" else vfo_name real

abbrev pub presented_split : Session → Snapshot → Bool
presented_split c s = not c.single_vfo && s.split_on

abbrev pub guard_read : Session → Bytes → Plan
guard_read c bytes = replies (if allows c.perms modeled_read then bytes else rprt_einval)

abbrev pub mode_lines : VfoSnapshot → Bytes
mode_lines v =
    line_of (hamlib_token_with_data v.base_mode v.data_on) ++ line_of (decimal v.passband_hz)

abbrev pub argument : List Bytes → ℕ → Option Bytes
argument args n = get_elem? args n

abbrev pub is_argument : Option Bytes → Bytes → Bool
is_argument none x = false
is_argument (some arg) x = equal arg x

abbrev pub level_line : Option TxPower → Bytes
level_line none = rprt_enavail
level_line (some power) = line_of (relative_decimal power)

abbrev pub is_rfpower : Option Bytes → Bool
is_rfpower none = false
is_rfpower (some level) = eq_ignore_ascii_case level (text "RFPOWER")

abbrev pub number_line : Option ℕ → Bytes
number_line none = rprt_enavail
number_line (some n) = line_of (decimal n)

abbrev pub relative_of : Option Bytes → Option ℕ
relative_of none = none
relative_of (some value) = parse_relative_millionths value

abbrev pub power_line : Option TxPower → Option ℕ → Option Bytes → Option Bytes → Bytes
power_line (some power) (some relative) (some frequency) (some m) =
    number_line (milliwatts_for_relative power relative)
power_line _ _ _ _ = rprt_enavail

abbrev pub freq_of : Option Bytes → Option ℕ
freq_of none = none
freq_of (some arg) = parse_freq_hz arg

abbrev pub freq_plan : Vfo → Option ℕ → Plan
freq_plan vfo none = replies rprt_einval
freq_plan vfo (some hz) = writes (set_vfo_freq vfo hz) modeled_write

abbrev pub modes_plan : Vfo → Mode × Bool → Plan
modes_plan vfo (base, packet) =
    if same_mode base unknown
    then replies rprt_einval
    else writes_both (set_mode vfo base) (set_data_mode vfo packet)

abbrev pub mode_plan : Vfo → Option Bytes → Plan
mode_plan vfo none = replies rprt_einval
mode_plan vfo (some token) = modes_plan vfo (decompose_hamlib_token token)

abbrev pub split_plan : Session → List Bytes → Plan
split_plan c args =
    let enabled = is_argument (argument args 0) (text "1") in
    if not (allows c.perms modeled_write)
    then replies rprt_einval
    else if c.single_vfo
    then replies (if enabled then rprt_enavail else rprt_ok)
    else writes (set_split enabled (some (named_b (argument args 1)))) modeled_write

abbrev pub ptt_request : Option Bytes → StateMutation
ptt_request arg =
    if is_argument arg (text "1")
    then set_ptt true generic
    else if is_argument arg (text "2")
    then set_ptt true mic
    else if is_argument arg (text "3")
    then set_ptt true data_source
    else set_ptt false generic

abbrev pub offset_of : Option Bytes → Option ℤ
offset_of none = none
offset_of (some arg) = parse_i32 arg

abbrev pub offset_plan : (ℤ → Bool → StateMutation) → (available : Bool) → Option ℤ → Plan
offset_plan set false offset = replies rprt_enavail
offset_plan set true none = replies rprt_einval
offset_plan set true (some offset_hz) =
    writes (set offset_hz (not (same_int offset_hz (pos 0)))) modeled_write

-- `dump` is the text of hamlib_dump_state.txt.
unfoldable pub dispatch_plain : (dump : Bytes) → Session → Snapshot → Command → List Bytes → Plan
unfolding allows parse_freq_hz parse_i32 hamlib_token_with_data decompose_hamlib_token
    relative_decimal parse_relative_millionths milliwatts_for_relative
dispatch_plain dump c s quit args = quits
dispatch_plain dump c s get_freq args =
    guard_read c (line_of (decimal (vfo_of s.receive s).freq_hz))
dispatch_plain dump c s get_mode args = guard_read c (mode_lines (vfo_of s.receive s))
dispatch_plain dump c s get_vfo args = guard_read c (line_of (presented_vfo_name c s.receive))
dispatch_plain dump c s get_vfo_info args =
    let v = vfo_of (presented_vfo c s (named_b (argument args 0))) s in
    guard_read c (
      line_of (decimal v.freq_hz)
      ++ mode_lines v
      ++ line_of (flag_text (presented_split c s))
      ++ line_of (text "0"))
dispatch_plain dump c s get_split_vfo args =
    let on = presented_split c s in
    guard_read c (
      line_of (flag_text on)
      ++ line_of (presented_vfo_name c (if on then s.transmit else s.receive)))
dispatch_plain dump c s get_split_freq args =
    let hz = (vfo_of s.transmit s).freq_hz in
    guard_read c (if c.single_vfo || hz == 0 then rprt_enavail else line_of (decimal hz))
dispatch_plain dump c s get_split_mode args =
    let v = vfo_of s.transmit s in
    guard_read c (if c.single_vfo || not v.mode_known then rprt_enavail else mode_lines v)
dispatch_plain dump c s get_level args =
    guard_read c (if is_rfpower (argument args 0) then level_line s.power else rprt_enavail)
dispatch_plain dump c s power2mw args =
    guard_read c
      (power_line s.power (relative_of (argument args 0)) (argument args 1) (argument args 2))
dispatch_plain dump c s get_ptt args = guard_read c (line_of (flag_text s.keyed))
dispatch_plain dump c s get_powerstat args = guard_read c (line_of (flag_text s.power_on))
dispatch_plain dump c s dump_state args = replies dump
dispatch_plain dump c s chk_vfo args = replies (line_of (text "0"))
dispatch_plain dump c s set_freq_command args = freq_plan s.receive (freq_of (argument args 0))
dispatch_plain dump c s set_mode_command args = mode_plan s.receive (argument args 0)
dispatch_plain dump c s set_split_vfo args = split_plan c args
dispatch_plain dump c s set_ptt_command args = writes (ptt_request (argument args 0)) ptt_write
dispatch_plain dump c s set_vfo args =
    replies (if allows c.perms modeled_write then rprt_ok else rprt_einval)
dispatch_plain dump c s get_rit args =
    guard_read c (line_of (signed (if s.rit_enabled then s.rit_offset_hz else pos 0)))
dispatch_plain dump c s get_xit args =
    guard_read c (line_of (signed (if s.xit_enabled then s.xit_offset_hz else pos 0)))
dispatch_plain dump c s set_rit_command args =
    offset_plan set_rit c.caps.has_rit (offset_of (argument args 0))
dispatch_plain dump c s set_xit_command args =
    offset_plan set_xit c.caps.has_xit (offset_of (argument args 0))
dispatch_plain dump c s other_command args = replies rprt_enavail
