-- ===== src/Hamlib/Lines.antt =====
-- `handle_line` and `handle_ext` of hamlib_net.rs: a line is the plain protocol, or behind a separator
-- the extended one, whose reply echoes the command and ends with a report.
use cathub.Prelude.{
  ℕ, Bool, true, false, ◌&&◌, ◌||◌, List, [], ◌∷◌, ◌++◌, Option, none, some, if◌then◌else◌,
  is_empty, Bytes,
}
use cathub.Prelude.Text.{text, trim}
use cathub.Radio.Tokens.{hamlib_token_with_data}
use cathub.Radio.State.{Snapshot, vfo_of}
use cathub.Radio.Permissions.{modeled_read, allows}
use cathub.Radio.Link.Transport.{starts_with}
use cathub.Radio.Session.{Session, ApplyOutcome, outcome_ok}
use cathub.Hamlib.Words.{
  decimal, flag_text, line_of, named_b, split_whitespace, split_at, non_empty, split_erp,
  erp_records, join,
}
use cathub.Hamlib.Commands.{
  Command, quit, get_freq, get_mode, get_vfo, get_vfo_info, get_split_vfo, get_split_freq,
  get_split_mode, get_level, power2mw, get_ptt, get_powerstat, dump_state, chk_vfo,
  set_freq_command, set_mode_command, set_split_vfo, set_ptt_command, set_vfo, get_rit, get_xit,
  set_rit_command, set_xit_command, other_command, command_of, Plan, replies, quits, writes,
  writes_both, presented_vfo, presented_vfo_name, presented_split, argument, is_argument,
  dispatch_plain, outcome_rprt,
}

-- The long name, or the word itself when it has none.
unfoldable pub long_name : Command → Bytes → Bytes
long_name set_freq_command cmd = text "set_freq"
long_name set_mode_command cmd = text "set_mode"
long_name set_vfo cmd = text "set_vfo"
long_name set_ptt_command cmd = text "set_ptt"
long_name set_split_vfo cmd = text "set_split_vfo"
long_name set_rit_command cmd = text "set_rit"
long_name set_xit_command cmd = text "set_xit"
long_name get_freq cmd = text "get_freq"
long_name get_mode cmd = text "get_mode"
long_name get_vfo cmd = text "get_vfo"
long_name get_ptt cmd = text "get_ptt"
long_name get_split_vfo cmd = text "get_split_vfo"
long_name get_split_freq cmd = text "get_split_freq"
long_name get_split_mode cmd = text "get_split_mode"
long_name get_level cmd = text "get_level"
long_name power2mw cmd = text "power2mW"
long_name get_rit cmd = text "get_rit"
long_name get_xit cmd = text "get_xit"
long_name get_vfo_info cmd = text "get_vfo_info"
long_name get_powerstat cmd = text "get_powerstat"
long_name chk_vfo cmd = text "chk_vfo"
long_name dump_state cmd = text "dump_state"
long_name quit cmd = cmd
long_name other_command cmd = cmd

unfoldable pub ext_echo : Bytes → List Bytes → Bytes
unfolding long_name command_of
ext_echo cmd args =
    let name = long_name (command_of cmd) cmd in
    if is_empty args then name ++ text ":" else name ++ text ": " ++ join (text " ") args

-- What is sent: a reply at once, the end of the session, or the outcome of a plan, wrapped.
pub data Response : Type 0 where
  now : Bytes → Response
  ended : Response
  planned : Plan → Response
  wrapped : (sep : ℕ) → (echo : Bytes) → Plan → Response

abbrev pub report_ok : Bytes
report_ok = text "RPRT 0"

abbrev pub report_einval : Bytes
report_einval = text "RPRT -1"

-- The labeled gets; `none` for every other command.
unfoldable pub labeled : Session → Snapshot → Command → Option (List Bytes)
unfolding hamlib_token_with_data
labeled c s get_freq = some (
    text "get_freq:"
    ∷ (text "Frequency: " ++ decimal (vfo_of s.receive s).freq_hz)
    ∷ report_ok
    ∷ [])
labeled c s get_mode =
    let v = vfo_of s.receive s in
    some (
      text "get_mode:"
      ∷ (text "Mode: " ++ hamlib_token_with_data v.base_mode v.data_on)
      ∷ (text "Passband: " ++ decimal v.passband_hz)
      ∷ report_ok
      ∷ [])
labeled c s get_vfo =
    some (text "get_vfo:" ∷ (text "VFO: " ++ presented_vfo_name c s.receive) ∷ report_ok ∷ [])
labeled c s get_ptt = some (text "get_ptt:" ∷ (text "PTT: " ++ flag_text s.keyed) ∷ report_ok ∷ [])
labeled c s _ = none

abbrev pub info_records : Session → Snapshot → List Bytes → List Bytes
info_records c s args =
    let vfo = presented_vfo c s (named_b (argument args 0)) in
    let v = vfo_of vfo s in
    (text "get_vfo_info: " ++ presented_vfo_name c vfo)
    ∷ (text "Freq: " ++ decimal v.freq_hz)
    ∷ (text "Mode: " ++ hamlib_token_with_data v.base_mode v.data_on)
    ∷ (text "Width: " ++ decimal v.passband_hz)
    ∷ (text "Split: " ++ flag_text (presented_split c s))
    ∷ text "SatMode: 0"
    ∷ report_ok
    ∷ []

abbrev pub vfo_list : Session → ℕ → Bytes
vfo_list c sep =
    text "set_vfo: ?"
    ++ sep ∷ (if c.single_vfo then text "VFOA " else text "VFOA VFOB ")
    ++ 10 ∷ line_of report_ok

abbrev pub is_set_vfo : Command → Bool
is_set_vfo set_vfo = true
is_set_vfo _ = false

abbrev pub is_vfo_info : Command → Bool
is_vfo_info get_vfo_info = true
is_vfo_info _ = false

abbrev pub or_wrapped : ℕ → Option (List Bytes) → Bytes → Plan → Response
or_wrapped sep none echo plan = wrapped sep echo plan
or_wrapped sep (some records) echo plan = now (erp_records sep records)

unfoldable pub ext_command :
    (dump : Bytes) → Session → Snapshot → ℕ → Command → Bytes → List Bytes → Response
unfolding dispatch_plain labeled erp_records ext_echo allows
ext_command dump c s sep command cmd args =
    let reads = allows c.perms modeled_read in
    if is_set_vfo command && is_argument (argument args 0) (text "?")
    then now (vfo_list c sep)
    else if is_vfo_info command
    then now (
        erp_records sep
          (if reads then info_records c s args else ext_echo cmd args ∷ report_einval ∷ []))
    else or_wrapped sep (if reads then labeled c s command else none) (ext_echo cmd args)
        (dispatch_plain dump c s command args)

abbrev pub ext_words : (dump : Bytes) → Session → Snapshot → ℕ → List Bytes → Response
ext_words dump c s sep [] = now []
ext_words dump c s sep (cmd ∷ args) = ext_command dump c s sep (command_of cmd) cmd args

unfoldable pub handle_ext : (dump : Bytes) → Session → Snapshot → ℕ → Bytes → Response
unfolding ext_command split_whitespace command_of
handle_ext dump c s sep rest = ext_words dump c s sep (split_whitespace rest)

abbrev pub plain_words : (dump : Bytes) → Session → Snapshot → List Bytes → Response
plain_words dump c s [] = now []
plain_words dump c s (cmd ∷ args) = planned (dispatch_plain dump c s (command_of cmd) args)

abbrev pub line_response :
    (dump : Bytes) → Session → Snapshot → Bytes → Option (ℕ × Bytes) → Response
line_response dump c s trimmed none = plain_words dump c s (split_whitespace trimmed)
line_response dump c s trimmed (some (sep, rest)) = handle_ext dump c s sep rest

unfoldable pub handle_line : (dump : Bytes) → Session → Snapshot → Bytes → Response
unfolding handle_ext split_erp dispatch_plain trim
handle_line dump c s line = line_response dump c s (trim line) (split_erp (trim line))

-- The records of a plain reply behind the echo, with a report at the end if there is none.
abbrev pub has_report : List Bytes → Bool
has_report [] = false
has_report (r ∷ rs) = starts_with r (text "RPRT") || has_report rs

unfoldable pub wrap : ℕ → Bytes → Bytes → Bytes
unfolding erp_records
wrap sep echo bytes =
    let records = echo ∷ non_empty (split_at 10 bytes) in
    erp_records sep (if has_report records then records else records ++ report_ok ∷ [])

-- The reply of a plan, from the outcomes of its first and second write.
abbrev pub plan_reply : Plan → (first second : ApplyOutcome) → Bytes
plan_reply (replies bytes) first second = bytes
plan_reply quits first second = []
plan_reply (writes m class) first second = outcome_rprt first
plan_reply (writes_both m n) outcome_ok second = outcome_rprt second
plan_reply (writes_both m n) first second = outcome_rprt first

abbrev pub wrapped_reply : ℕ → Bytes → Plan → (first second : ApplyOutcome) → Bytes
wrapped_reply sep echo quits first second = []
wrapped_reply sep echo plan first second = wrap sep echo (plan_reply plan first second)

unfoldable pub response_bytes : Response → (first second : ApplyOutcome) → Bytes
unfolding wrap outcome_rprt
response_bytes (now bytes) first second = bytes
response_bytes ended first second = []
response_bytes (planned plan) first second = plan_reply plan first second
response_bytes (wrapped sep echo plan) first second = wrapped_reply sep echo plan first second
