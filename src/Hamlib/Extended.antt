-- ===== src/Hamlib/Extended.antt =====
-- The reply to an extended command.
use cathub.Prelude.{
  ℕ, ◌≡◌, refl, Bool, true, false, List, [], ◌∷◌, ◌++◌, Option, none, some, if◌then◌else◌, Bytes,
  arith,
}
use cathub.Radio.State.{Snapshot}
use cathub.Radio.Permissions.{modeled_read, allows}
use cathub.Radio.Session.{Session, ApplyOutcome}
use cathub.Hamlib.Words.{erp_records, split_at, non_empty}
use cathub.Hamlib.Commands
use cathub.Hamlib.Lines.{
  now, labeled, info_records, ext_echo, report_ok, report_einval, has_report, wrap, ext_command,
  response_bytes, is_set_vfo, is_vfo_info, or_wrapped, wrapped_reply, plan_reply,
}

-- Records behind each other, one of them a report.
abbrev pub IsReported : ℕ → Bytes → Type 0
IsReported sep bytes =
    (records : List Bytes) × (bytes ≡ erp_records sep records) × (has_report records ≡ true)

has_report-append : (rs : List Bytes) → has_report (rs ++ report_ok ∷ []) ≡ true
has_report-append [] = refl
has_report-append (r ∷ rs) = ground (arith, has_report-append rs)

wrap-IsReported : (sep : ℕ) (echo bytes : Bytes) → IsReported sep (wrap sep echo bytes)
unfolding wrap
wrap-IsReported sep echo bytes =
    let records = echo ∷ non_empty (split_at 10 bytes) in
    (
      (if has_report records then records else records ++ report_ok ∷ []),
      refl,
      reported (has_report records) refl,
    )
  where
    reported :
        (t : Bool)
        → has_report (echo ∷ non_empty (split_at 10 bytes)) ≡ t
        → has_report (
            if t
            then echo ∷ non_empty (split_at 10 bytes)
            else (echo ∷ non_empty (split_at 10 bytes)) ++ report_ok ∷ [])
          ≡ true
    reported true e = e
    reported false e = has_report-append (echo ∷ non_empty (split_at 10 bytes))

abbrev pub ends_session : Commands.Plan → Bool
ends_session Commands.quits = true
ends_session _ = false

plan-IsReported :
    (sep : ℕ) (echo : Bytes) (plan : Commands.Plan) (first second : ApplyOutcome)
    → ends_session plan ≡ false
    → IsReported sep (wrapped_reply sep echo plan first second)
plan-IsReported sep echo (Commands.replies bytes) first second e = wrap-IsReported sep echo bytes
plan-IsReported sep echo Commands.quits first second e = cc
plan-IsReported sep echo (Commands.writes m class) first second e =
    wrap-IsReported sep echo (plan_reply (Commands.writes m class) first second)
plan-IsReported sep echo (Commands.writes_both m n) first second e =
    wrap-IsReported sep echo (plan_reply (Commands.writes_both m n) first second)

abbrev AllReported : Option (List Bytes) → Type 0
AllReported none = Unit {0}
AllReported (some records) = has_report records ≡ true

labeled-AllReported :
    (c : Session) (s : Snapshot) (command : Commands.Command) → AllReported (labeled c s command)
unfolding labeled
labeled-AllReported c s Commands.quit = tt
labeled-AllReported c s Commands.get_freq = refl
labeled-AllReported c s Commands.get_mode = refl
labeled-AllReported c s Commands.get_vfo = refl
labeled-AllReported c s Commands.get_vfo_info = tt
labeled-AllReported c s Commands.get_split_vfo = tt
labeled-AllReported c s Commands.get_split_freq = tt
labeled-AllReported c s Commands.get_split_mode = tt
labeled-AllReported c s Commands.get_level = tt
labeled-AllReported c s Commands.power2mw = tt
labeled-AllReported c s Commands.get_ptt = refl
labeled-AllReported c s Commands.get_powerstat = tt
labeled-AllReported c s Commands.dump_state = tt
labeled-AllReported c s Commands.chk_vfo = tt
labeled-AllReported c s Commands.set_freq_command = tt
labeled-AllReported c s Commands.set_mode_command = tt
labeled-AllReported c s Commands.set_split_vfo = tt
labeled-AllReported c s Commands.set_ptt_command = tt
labeled-AllReported c s Commands.set_vfo = tt
labeled-AllReported c s Commands.get_rit = tt
labeled-AllReported c s Commands.get_xit = tt
labeled-AllReported c s Commands.set_rit_command = tt
labeled-AllReported c s Commands.set_xit_command = tt
labeled-AllReported c s Commands.other_command = tt

or_wrapped-IsReported :
    (sep : ℕ) (records : Option (List Bytes)) (echo : Bytes) (plan : Commands.Plan)
    (first second : ApplyOutcome)
    → AllReported records
    → ends_session plan ≡ false
    → IsReported sep (response_bytes (or_wrapped sep records echo plan) first second)
unfolding response_bytes
or_wrapped-IsReported sep none echo plan first second r e =
    plan-IsReported sep echo plan first second e
or_wrapped-IsReported sep (some records) echo plan first second r e = (records, refl, r)

if-AllReported :
    (t : Bool) (records : Option (List Bytes))
    → AllReported records
    → AllReported (if t then records else none)
if-AllReported true records r = r
if-AllReported false records r = tt

info-IsReported :
    (sep : ℕ) (reads : Bool) (c : Session) (s : Snapshot) (echo : Bytes) (args : List Bytes)
    → IsReported sep
        (erp_records sep (if reads then info_records c s args else echo ∷ report_einval ∷ []))
info-IsReported sep true c s echo args = (info_records c s args, refl, refl)
info-IsReported sep false c s echo args = (echo ∷ report_einval ∷ [], refl, ground arith)

info_or-IsReported :
    (sep : ℕ) (info reads : Bool) (c : Session) (s : Snapshot) (echo : Bytes) (args : List Bytes)
    (records : Option (List Bytes)) (plan : Commands.Plan) (first second : ApplyOutcome)
    → AllReported records
    → ends_session plan ≡ false
    → IsReported sep (
        response_bytes
          (if info
            then now (
                erp_records sep
                  (if reads then info_records c s args else echo ∷ report_einval ∷ []))
            else or_wrapped sep records echo plan)
          first
          second)
unfolding response_bytes
info_or-IsReported sep true reads c s echo args records plan first second r e =
    info-IsReported sep reads c s echo args
info_or-IsReported sep false reads c s echo args records plan first second r e =
    or_wrapped-IsReported sep records echo plan first second r e

-- The reply to an extended command that neither selects a VFO nor ends the session, allowed or not, is
-- a line of records of which one is a report: a client that reads up to a report never waits in vain.
pub ext_command-IsReported :
    (dump : Bytes) (c : Session) (s : Snapshot) (sep : ℕ) (command : Commands.Command) (cmd : Bytes)
    (args : List Bytes) (first second : ApplyOutcome)
    → is_set_vfo command ≡ false
    → ends_session (Commands.dispatch_plain dump c s command args) ≡ false
    → IsReported sep (response_bytes (ext_command dump c s sep command cmd args) first second)
unfolding ext_command
ext_command-IsReported dump c s sep command cmd args first second n e =
    let reads = allows c.perms modeled_read in
    rw n (
      info_or-IsReported sep (is_vfo_info command) reads c s (ext_echo cmd args) args
        (if reads then labeled c s command else none)
        (Commands.dispatch_plain dump c s command args) first second
        (if-AllReported reads (labeled c s command) (labeled-AllReported c s command)) e)
