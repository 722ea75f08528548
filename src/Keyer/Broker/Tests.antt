-- ===== src/Keyer/Broker/Tests.antt =====
-- Runs of the scheduler of winkeyer/broker.rs and instances of its theorems.
use cathub.Prelude.{
  ℕ, ◌+◌, ◌≤◌, ◌<◌, ◌-◌, ◌≡◌, refl, ◌⊎◌, true, false, List, [], ◌∷◌, none, some, arith, count,
  Bytes,
}
use cathub.Prelude.Map.{lookup, insert, remove}
use cathub.Keyer.Protocol.{DeviceStatus}
use cathub.Keyer.Broker.State.{
  BrokerCore, Job, ActiveJob, TransmitPayload, write, pot, fixed, new, foreground,
  profile_pot_minimum,
}
use cathub.Keyer.Broker.Schedule.{
  complete_active, restore_foreground_speed, start_next_or_restore, start_job,
}
use cathub.Keyer.Broker.Requests.{enqueue, connect_physical, register_client}
use cathub.Keyer.Broker.Cancel.{cancel_client, unregister_client, watchdog, own, observe_status}
use cathub.Keyer.Broker.Jobs.{jobs, ids, ended}
use cathub.Keyer.Broker.Invariant.{Inv}
use cathub.Keyer.Broker.Growth.{Grows, enqueue-Grows}
use cathub.Keyer.Broker.Histories.{run-new-Inv}
use cathub.Keyer.Broker.Snapshot.{snapshot}
use cathub.Keyer.Broker.Cancelling.{cancel_client-jobs}
use cathub.Keyer.Broker.Ledger.{opened_in, run-exactly_once}
use cathub.Keyer.Broker.Handover.{Restores}
use cathub.Keyer.Broker.Safety.{step-IdleRestores, watchdog_lem, first_action}
use cathub.Keyer.Broker.Steps.{
  Request, connects, registers, unregisters, enqueues, cancels, observes, step, run,
}

abbrev text : Bytes → TransmitPayload
text bytes = record { wire_bytes = bytes; intended_text = bytes }

abbrev rest_status : DeviceStatus
rest_status = record {
  raw = 0xc0;
  waiting = false;
  key_down = false;
  busy = false;
  break_in = false;
  xoff = false;
}

abbrev busy_status : DeviceStatus
busy_status = record {
  raw = 0xc4;
  waiting = false;
  key_down = false;
  busy = true;
  break_in = false;
  xoff = false;
}

abbrev job : ℕ → ℕ → Job
job id client = record {
  id = id;
  client_id = client;
  payload = text (b'C' ∷ b'Q' ∷ []);
  speed = fixed 25;
  queued_at = 0;
  stream = false;
}

abbrev sending : ActiveJob
sending = record { job = job 1 2; saw_busy = true; observed_status = true; started_at = 10 }

-- Client 1 is primary; client 2 is sending, and each of them has a job behind that.
abbrev working : BrokerCore
working = record {
  clients =
      (1, record { desired_speed = fixed 22; primary = true; profile = [] })
      ∷ (2, record { desired_speed = pot; primary = false; profile = [] })
      ∷ [];
  applied_profile_client_id = some 2;
  queue = job 2 1 ∷ job 3 2 ∷ [];
  active = some sending;
  next_job_id = 4;
  firmware_revision = some 31;
  connected = true;
  status = rest_status;
  pot_value = some 9;
  pot_wpm = some 14;
  physical_pot_min_wpm = 5;
  last_error = none;
  last_safety_action = none;
  max_tx = 30;
}

working-Inv : Inv working
working-Inv = record {
  drained = λ e. cc;
  bounded = omega arith;
  sized = omega arith;
  fresh = λ lt. omega arith;
  pot_current = refl;
  registry = omega arith;
}

abbrev history : List Request
history =
    connects 31
    ∷ registers 1 true
    ∷ registers 2 false
    ∷ enqueues 2 (text (b'C' ∷ [])) none false 0 0
    ∷ enqueues 1 (text (b'T' ∷ [])) none false 1 1
    ∷ cancels 2 true 2
    ∷ observes busy_status 3
    ∷ observes rest_status 4
    ∷ []

-- Job 1 is canceled by its client, and job 2 completes.
history-run : ended (run (new 30) history).1 ≡ 1 ∷ 2 ∷ []
unfolding run step new connect_physical register_client enqueue cancel_client observe_status
    start_next_or_restore start_job restore_foreground_speed complete_active lookup insert
    foreground profile_pot_minimum
history-run = refl

run-exactly_once_example :
    let r = run (new 30) history in
    let total = count 2 (opened_in (new 30) history) in
    (count 2 (ids (jobs r.0)) + count 2 (ended r.1) ≡ total) × (total ≤ 1)
run-exactly_once_example = run-exactly_once 30 history 2 (omega arith)

run-new-Inv_example : Inv (run (new 30) history).0
run-new-Inv_example = run-new-Inv 30 history

step-IdleRestores_example : Restores (step (record working { queue = [] }) (unregisters 2 40))
unfolding step unregister_client start_next_or_restore restore_foreground_speed remove foreground
step-IdleRestores_example =
    step-IdleRestores (record working { queue = [] }) sending (unregisters 2 40) refl refl refl

cancel_client-jobs_example :
    let r = cancel_client 2 true 40 working in
    (jobs r.0 ≡ job 2 1 ∷ [])
    × ((i : ℕ) → count i (ended r.1) ≡ count i (ids (own 2 (jobs working))))
cancel_client-jobs_example = cancel_client-jobs 2 40 working

enqueue-Grows_example : Grows working (enqueue 1 (text (b'7' ∷ [])) none false 20 20 working)
enqueue-Grows_example =
    enqueue-Grows 1 (text (b'7' ∷ [])) none false 20 20 working (omega arith) working-Inv

watchdog_lem_example :
    let r = watchdog 45 working in
    ((jobs r.0 ≡ [])
      × (first_action r.1 ≡ some (write (0x0a ∷ 0x0b ∷ 0x00 ∷ [])))
      × ((a : ActiveJob) × (working.active ≡ some a) × (30 ≤ 45 - a.started_at)))
    ⊎ ((r ≡ (working, [])) × ((a : ActiveJob) → working.active ≡ some a → 45 - a.started_at < 30))
watchdog_lem_example = watchdog_lem 45 working

-- Everything of client 2 is canceled, and nothing else is pending.
abbrev canceled_history : List Request
canceled_history =
    connects 31
    ∷ registers 2 false
    ∷ enqueues 2 (text (b'C' ∷ [])) none false 0 0
    ∷ enqueues 2 (text (b'Q' ∷ [])) none false 1 1
    ∷ cancels 2 true 2
    ∷ []

canceled_history-idle : (snapshot (run (new 30) canceled_history).0).busy ≡ false
unfolding run step new connect_physical register_client enqueue cancel_client start_next_or_restore
    start_job restore_foreground_speed lookup insert foreground profile_pot_minimum
canceled_history-idle = refl
