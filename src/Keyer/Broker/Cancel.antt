-- ===== src/Keyer/Broker/Cancel.antt =====
-- Cancelling, stopping and observing (winkeyer/broker.rs).
use Prim.Native.String.{String}
use cathub.Prelude.{
  ℕ, ◌-◌, Bool, true, false, not, ◌&&◌, ◌||◌, List, [], ◌∷◌, ◌++◌, Option, none, some, ◌==◌, leb,
  if◌then◌else◌, retain, is_id,
}
use cathub.Prelude.Map.{lookup, remove}
use cathub.Keyer.Protocol.{DeviceStatus}
use cathub.Keyer.Broker.State.{
  BrokerCore, Outcome, Actions, Job, ActiveJob, reason, active_client_disconnected, write, canceled,
  refresh_pot_wpm,
}
use cathub.Keyer.Broker.Requests.{is_primary, is_idle}
use cathub.Keyer.Broker.Schedule.{start_next_or_restore, restore_foreground_speed, complete_active}

-- A `Canceled` for every job of the list, in order.
abbrev pub cancel_all : List Job → Actions
cancel_all [] = []
cancel_all (j ∷ js) = canceled j.id j.client_id ∷ cancel_all js

abbrev pub cancel_active : Option ActiveJob → Actions
cancel_active none = []
cancel_active (some a) = canceled a.job.id a.job.client_id ∷ []

unfoldable pub physical_error : String → BrokerCore → Outcome
physical_error error b = (
  record b {
    connected = false;
    firmware_revision = none;
    applied_profile_client_id = none;
    last_error = some error;
    active = none;
    queue = [];
  },
  cancel_active b.active ++ cancel_all b.queue,
)

-- `self.queue.retain`: the jobs that stay, and a `Canceled` for each of the others.
abbrev pub is_of : ℕ → Job → Bool
is_of id job = job.client_id == id

abbrev pub others : ℕ → List Job → List Job
others id = retain (λ j. not (is_of id j))

abbrev pub own : ℕ → List Job → List Job
own id = retain (is_of id)

abbrev pub is_active_of : Option ActiveJob → ℕ → Bool
is_active_of none id = false
is_active_of (some a) id = a.job.client_id == id

unfoldable pub unregister_client : ℕ → ℕ → BrokerCore → Outcome
unregister_client id clock b =
    let left = record b {
      clients = remove id b.clients;
      applied_profile_client_id =
          if is_id b.applied_profile_client_id id then none else b.applied_profile_client_id;
      queue = others id b.queue;
    } in
    let dropped = cancel_all (own id b.queue) in
    if is_active_of b.active id
    then (let (after, actions) =
          start_next_or_restore
            (record left {
              active = none;
              last_safety_action = some (active_client_disconnected id);
            })
            clock in
        (after, dropped ++ (write (0x0a ∷ []) ∷ cancel_active b.active) ++ actions))
    else (left, dropped)

unfoldable pub cancel_client : ℕ → Bool → ℕ → BrokerCore → Outcome
cancel_client id include_active clock b =
    let left = record b { queue = others id b.queue } in
    let dropped = cancel_all (own id b.queue) in
    if include_active && is_active_of b.active id
    then (let (after, actions) = start_next_or_restore (record left { active = none }) clock in
        (after, (write (0x0a ∷ []) ∷ dropped ++ cancel_active b.active) ++ actions))
    else if include_active && is_idle b.active && is_primary (lookup id b.clients)
    then (left, write (0x0a ∷ []) ∷ dropped)
    else (left, dropped)

abbrev pub is_job : ℕ → ℕ → Job → Bool
is_job id job_id job = job.client_id == id && job.id == job_id

abbrev pub is_active_job : Option ActiveJob → ℕ → ℕ → Bool
is_active_job none id job_id = false
is_active_job (some a) id job_id = is_job id job_id a.job

abbrev pub is_any : List Job → Bool
is_any [] = false
is_any (j ∷ js) = true

unfoldable pub cancel_job : ℕ → ℕ → ℕ → BrokerCore → BrokerCore × Bool × Actions
cancel_job id job_id clock b =
    if is_active_job b.active id job_id
    then (let (after, actions) = start_next_or_restore (record b { active = none }) clock in
        (after, true, (write (0x0a ∷ []) ∷ cancel_active b.active) ++ actions))
    else (let hits = retain (is_job id job_id) b.queue in
        (
          record b { queue = retain (λ j. not (is_job id job_id j)) b.queue },
          is_any hits,
          cancel_all hits,
        ))

unfoldable pub emergency_stop : String → BrokerCore → Outcome
emergency_stop why b =
    let (after, actions) =
      restore_foreground_speed
        (record b { active = none; queue = []; last_safety_action = some (reason why) }) in
    (
      after,
      (write (0x0a ∷ 0x0b ∷ 0x00 ∷ []) ∷ cancel_active b.active ++ cancel_all b.queue) ++ actions,
    )

unfoldable pub record_safety_action : String → BrokerCore → BrokerCore
record_safety_action action b = record b { last_safety_action = some (reason action) }

-- Whether a status still shows the keyer at work.
abbrev pub is_working : DeviceStatus → Bool
is_working s = s.busy || s.waiting || s.key_down

unfoldable pub observe_active : Option ActiveJob → DeviceStatus → ℕ → BrokerCore → Outcome
observe_active none status clock b = (b, [])
observe_active (some a) status clock b =
    if is_working status
    then (record b { active = some (record a { observed_status = true; saw_busy = true }) }, [])
    else if a.saw_busy
    then complete_active (record b { active = some (record a { observed_status = true }) }) clock
    else (record b { active = some (record a { observed_status = true }) }, [])

unfoldable pub observe_status : DeviceStatus → ℕ → BrokerCore → Outcome
unfolding observe_active
observe_status status clock b = observe_active b.active status clock (record b { status = status })

-- `now.duration_since(started_at)` is zero for an instant that lies ahead.
abbrev pub is_settled : Option ActiveJob → ℕ → ℕ → Bool
is_settled none now settle = false
is_settled (some a) now settle = a.observed_status && leb settle (now - a.started_at)

unfoldable pub confirm_idle_after_settle : ℕ → ℕ → ℕ → BrokerCore → Outcome
confirm_idle_after_settle now settle clock b =
    if is_settled b.active now settle
      && not b.status.busy
      && not b.status.waiting
      && not b.status.key_down
    then complete_active b clock
    else (b, [])

unfoldable pub observe_pot : ℕ → BrokerCore → BrokerCore
observe_pot value b = refresh_pot_wpm (record b { pot_value = some value })

abbrev pub is_expired : Option ActiveJob → ℕ → ℕ → Bool
is_expired none now max_tx = false
is_expired (some a) now max_tx = leb max_tx (now - a.started_at)

unfoldable pub watchdog : ℕ → BrokerCore → Outcome
watchdog now b =
    if is_expired b.active now b.max_tx
    then emergency_stop "WinKeyer transmit safety ceiling reached" b
    else (b, [])

unfoldable pub restore_foreground : BrokerCore → Outcome
restore_foreground b = restore_foreground_speed b
