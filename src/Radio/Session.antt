-- ===== src/Radio/Session.antt =====
-- A client session's execution context (dialect/mod.rs). A write goes to the scheduler and waits for
-- its reply, while other sessions go on: `apply_modeled` is what happens before the wait
-- (`begin_modeled`) and what happens after it (`finish_modeled`). The state handle and the lease are
-- shared, so that they are arguments.
pub mod Arbiter
pub mod Outcomes
mod Tests
use cathub.Prelude.{
  ℕ, Bool, true, false, not, List, [], ◌∷◌, Option, none, some, if◌then◌else◌, is_id, Bytes,
}
use cathub.Radio.Model.{
  StateMutation, set_rx_vfo, set_vfo_freq, set_mode, set_data_mode, set_split, set_ptt, set_rit,
  set_xit,
}
use cathub.Radio.Permissions.{
  EndpointPermissions, CommandClass, modeled_read, modeled_write, passthrough_read, ptt_write,
  config_write_class, auto_info_toggle, allows, allows_mutation,
}
use cathub.Radio.State.{StateHandle, is_redundant}
use cathub.Radio.Lease.{PttManager, KeyResult, granted, denied, busy, not_permitted, try_key, unkey}
use cathub.Radio.Link.Capabilities.{BackendCapabilities}
use cathub.Radio.Link.Scheduler.{Priority, ptt, write, read, OpKind, apply, passthrough}
use cathub.Radio.Link.Transport.{Reply, answer, failure, BackendError, unsupported}

abbrev pub err_reply : Bytes
err_reply = b'?' ∷ b';' ∷ []

pub data ApplyOutcome : Type 0 where
  outcome_ok outcome_denied outcome_busy outcome_error outcome_unsupported : ApplyOutcome

-- `ClientSessionContext`, less what is shared.
pub record Session : Type 0 where
  pub session_id : ℕ
  pub perms : EndpointPermissions
  pub caps : BackendCapabilities
  pub ai : Bool
  pub single_vfo : Bool

abbrev pub new_session : ℕ → EndpointPermissions → BackendCapabilities → Session
new_session session_id perms caps = record {
  session_id = session_id;
  perms = perms;
  caps = caps;
  ai = false;
  single_vfo = false;
}

abbrev pub with_single_vfo : Bool → Session → Session
with_single_vfo single_vfo c = record c { single_vfo = single_vfo }

abbrev pub clone_for_session : ℕ → Session → Session
clone_for_session session_id c = record c { session_id = session_id; ai = false }

abbrev pub set_ai : Bool → Session → Session
set_ai on c = record c { ai = on }

-- Either the outcome is known at once, or the write is submitted at a priority.
pub data Begun : Type 0 where
  replies : ApplyOutcome → Begun
  submits : Priority → OpKind → Begun

-- How the lease is concerned: a write that keys, one that unkeys, or another.
pub data Concern : Type 0 where
  keying unkeying neither : Concern

abbrev pub concern : CommandClass → StateMutation → Concern
concern ptt_write (set_ptt true source) = keying
concern ptt_write (set_ptt false source) = unkeying
concern class m = neither

abbrev pub write_priority : CommandClass → Priority
write_priority ptt_write = ptt
write_priority class = write

abbrev pub key_result : PttManager × KeyResult → StateMutation → Begun × PttManager
key_result (p, denied busy) m = (replies outcome_busy, p)
key_result (p, denied not_permitted) m = (replies outcome_denied, p)
key_result (p, granted) m = (submits ptt (apply m), p)

abbrev pub dispatch :
    Concern → Session → StateMutation → CommandClass → ℕ → PttManager → Begun × PttManager
dispatch keying c m class now p = key_result (try_key c.session_id c.perms.ptt now p) m
dispatch unkeying c m class now p = (submits ptt (apply m), p)
dispatch neither c m class now p = (submits (write_priority class) (apply m), p)

unfoldable pub begin_modeled :
    Session → StateMutation → CommandClass → ℕ → StateHandle → PttManager → Begun × PttManager
unfolding try_key
begin_modeled c m class now h p =
    if not (allows_mutation c.perms class m)
    then (replies outcome_denied, p)
    else if is_redundant h m
    then (replies outcome_ok, p)
    else dispatch (concern class m) c m class now p

unfoldable pub map_outcome : Reply → ApplyOutcome
map_outcome (answer bytes) = outcome_ok
map_outcome (failure unsupported) = outcome_unsupported
map_outcome (failure e) = outcome_error

abbrev pub keyed : ℕ → Reply → PttManager → ApplyOutcome × PttManager
keyed session_id (answer bytes) p = (outcome_ok, p)
keyed session_id (failure e) p = (outcome_error, unkey session_id p)

unfoldable pub finish_modeled : ℕ → Concern → Reply → PttManager → ApplyOutcome × PttManager
unfolding map_outcome unkey
finish_modeled session_id keying r p = keyed session_id r p
finish_modeled session_id unkeying r p = (map_outcome r, unkey session_id p)
finish_modeled session_id neither r p = (map_outcome r, p)

-- `passthrough`: what is submitted, if it is allowed, and the frame that answers.
unfoldable pub begin_passthrough : Session → Bytes → CommandClass → Option (Priority × OpKind)
unfolding allows
begin_passthrough c raw class = if allows c.perms class then some (read, passthrough raw) else none

unfoldable pub passthrough_answer : Reply → Bytes
passthrough_answer (answer bytes) = bytes
passthrough_answer (failure e) = err_reply

-- `release_ptt_on_disconnect`: whether the radio is unkeyed; `finish_modeled` releases the lease.
unfoldable pub releases_on_disconnect : ℕ → PttManager → Bool
releases_on_disconnect session_id p = is_id p.owner session_id
