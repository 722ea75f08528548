-- ===== src/Keyer/Broker/Histories.antt =====
-- The invariant of the scheduler of winkeyer/broker.rs over every history of calls.
use Prim.Native.String.{String}
use cathub.Prelude.{
  ℕ, ◌≡◌, refl, subst, inl, inr, Bool, true, false, not, ◌&&◌, List, [], ◌∷◌, Option, none, some,
  arith, ◌==◌, if◌then◌else◌, ◌++◌, All, Bool-cases, Bytes, is_id,
}
use cathub.Prelude.Map.{Map, lookup, insert, remove}
use cathub.Keyer.Protocol.{DeviceStatus}
use cathub.Keyer.Broker.State.{BrokerCore, ActiveJob, ClientState, SpeedMode, pot, new}
use cathub.Keyer.Broker.Requests.{
  connect_physical, register_client, any_primary, set_client_speed, set_speed_of,
  set_client_command, store_under, store_command, client_profile_key,
}
use cathub.Keyer.Broker.Cancel.{
  unregister_client, cancel_client, cancel_job, record_safety_action, observe_status,
  observe_active, confirm_idle_after_settle, observe_pot, watchdog, restore_foreground, is_job,
  is_active_of, is_active_job, is_working, is_expired,
}
use cathub.Keyer.Broker.Jobs.{active_jobs}
use cathub.Keyer.Broker.Invariant.{Inv, IsFresh, IsRegistry, IsSized}
use cathub.Keyer.Broker.Clients.{insert-IsRegistry, remove-IsRegistry, update-IsRegistry}
use cathub.Keyer.Broker.Enqueue.{enqueue-Inv}
use cathub.Keyer.Broker.Sound.{
  new-Inv, physical_error-Inv, restore-Inv, emergency_stop-Inv, retain-Inv, hand_on-Inv,
  complete-Inv,
}
use cathub.Keyer.Broker.Steps.{
  Request, connects, fails, registers, unregisters, speeds, commands, enqueues, cancels,
  cancels_job, stops, notes, observes, settles, pots, watches, restores, step, run,
}

-- Fields that the invariant does not read may change.
with_clients :
    (b : BrokerCore) (m : Map ClientState) (applied : Option ℕ)
    → IsRegistry m
    → Inv b
    → Inv (record b { clients = m; applied_profile_client_id = applied })
with_clients b m applied r v = record {
  drained = v.drained;
  bounded = v.bounded;
  sized = v.sized;
  fresh = v.fresh;
  pot_current = v.pot_current;
  registry = r;
}

connect-Inv : (firmware : ℕ) (b : BrokerCore) → Inv b → Inv (connect_physical firmware b)
unfolding connect_physical
connect-Inv firmware b v = record {
  drained = v.drained;
  bounded = v.bounded;
  sized = v.sized;
  fresh = v.fresh;
  pot_current = v.pot_current;
  registry = v.registry;
}

register-Inv :
    (id : ℕ) (primary : Bool) (b : BrokerCore) → Inv b → Inv (register_client id primary b).0
unfolding register_client
register-Inv id primary b v = elim (Bool-cases (primary && any_primary b.clients)) [
  | inl taken ↦ rw taken v
  | inr free ↦ rw free (
      with_clients b _ b.applied_profile_client_id
        (insert-IsRegistry id (record { desired_speed = pot; primary = primary; profile = [] })
          b.clients free v.registry)
        v)
]

set_speed_of-Inv :
    (client : Option ClientState) (id : ℕ) (speed : SpeedMode) (b : BrokerCore)
    → lookup id b.clients ≡ client
    → Inv b
    → Inv (set_speed_of client id speed b).0
unfolding set_speed_of
set_speed_of-Inv none id speed b e v = v
set_speed_of-Inv (some client) id speed b e v =
    with_clients b _ b.applied_profile_client_id
      (update-IsRegistry id client (record client { desired_speed = speed }) b.clients e refl
        v.registry)
      v

store_command-Inv :
    (client : Option ClientState) (key id : ℕ) (cmd : Bytes) (b : BrokerCore)
    → lookup id b.clients ≡ client
    → Inv b
    → Inv (store_command client key id cmd b).0
unfolding store_command
store_command-Inv none key id cmd b e v = v
store_command-Inv (some client) key id cmd b e v =
    let w =
      with_clients b _ b.applied_profile_client_id
        (update-IsRegistry id client (record client { profile = insert key cmd client.profile })
          b.clients e refl v.registry)
        v in
    ground (arith, w)

store_under-Inv :
    (key : Option ℕ) (id : ℕ) (cmd : Bytes) (b : BrokerCore)
    → Inv b
    → Inv (store_under key id cmd b).0
unfolding store_under
store_under-Inv none id cmd b v = v
store_under-Inv (some key) id cmd b v = store_command-Inv (lookup id b.clients) key id cmd b refl v

unregister-Inv : (id clock : ℕ) (b : BrokerCore) → Inv b → Inv (unregister_client id clock b).0
unfolding unregister_client
unregister-Inv id clock b v =
    let left =
      with_clients b (remove id b.clients)
        (if is_id b.applied_profile_client_id id then none else b.applied_profile_client_id)
        (remove-IsRegistry id b.clients v.registry) v in
    let thin = retain-Inv (λ j. not (j.client_id == id)) _ left in
    elim (Bool-cases (is_active_of b.active id)) [
      | inl mine ↦ rw mine (hand_on-Inv _ _ clock thin refl refl refl v.pot_current thin.registry)
      | inr not_mine ↦ rw not_mine thin
    ]

cancel_client-Inv :
    (id : ℕ) (include_active : Bool) (clock : ℕ) (b : BrokerCore)
    → Inv b
    → Inv (cancel_client id include_active clock b).0
unfolding cancel_client
cancel_client-Inv id include_active clock b v =
    let thin = retain-Inv (λ j. not (j.client_id == id)) b v in
    elim (Bool-cases (include_active && is_active_of b.active id)) [
      | inl mine ↦ rw mine (hand_on-Inv _ _ clock thin refl refl refl v.pot_current v.registry)
      | inr not_mine ↦ rw not_mine (ground (arith, thin))
    ]

cancel_job-Inv :
    (id job_id clock : ℕ) (b : BrokerCore) → Inv b → Inv (cancel_job id job_id clock b).0
unfolding cancel_job
cancel_job-Inv id job_id clock b v = elim (Bool-cases (is_active_job b.active id job_id)) [
  | inl mine ↦ rw mine (hand_on-Inv b _ clock v refl refl refl v.pot_current v.registry)
  | inr not_mine ↦ rw not_mine (retain-Inv (λ j. not (is_job id job_id j)) b v)
]

-- The flags of the active job and the last status are not in the invariant.
with_active :
    (b : BrokerCore) (status : DeviceStatus) (a : ActiveJob) (busy : Bool)
    → b.active ≡ some a
    → Inv b
    → Inv (record b {
      status = status;
      active = some (record a { observed_status = true; saw_busy = busy });
    })
with_active b status a busy e v = record {
  drained = ground arith;
  bounded = v.bounded;
  sized = subst (λ x. All IsSized (active_jobs x ++ b.queue)) e v.sized;
  fresh = subst (λ x. IsFresh (active_jobs x ++ b.queue) b.next_job_id) e v.fresh;
  pot_current = v.pot_current;
  registry = v.registry;
}

with_status : (b : BrokerCore) (status : DeviceStatus) → Inv b → Inv (record b { status = status })
with_status b status v = record {
  drained = v.drained;
  bounded = v.bounded;
  sized = v.sized;
  fresh = v.fresh;
  pot_current = v.pot_current;
  registry = v.registry;
}

observe_active-Inv :
    (o : Option ActiveJob) (status : DeviceStatus) (clock : ℕ) (b : BrokerCore)
    → b.active ≡ o
    → Inv b
    → Inv (observe_active o status clock (record b { status = status })).0
unfolding observe_active
observe_active-Inv none status clock b e v = with_status b status v
observe_active-Inv (some a) status clock b e v = elim (Bool-cases (is_working status)) [
  | inl working ↦ rw working (with_active b status a true e v)
  | inr rests ↦ elim (Bool-cases a.saw_busy) [
    | inl busy ↦ rw (rests, busy) (complete-Inv _ clock (with_active b status a true e v))
    | inr quiet ↦ rw (rests, quiet) (with_active b status a false e v)
  ]
]

confirm-Inv :
    (now settle clock : ℕ) (b : BrokerCore)
    → Inv b
    → Inv (confirm_idle_after_settle now settle clock b).0
unfolding confirm_idle_after_settle
confirm-Inv now settle clock b v = ground (arith, complete-Inv b clock v)

pot-Inv : (value : ℕ) (b : BrokerCore) → Inv b → Inv (observe_pot value b)
unfolding observe_pot
pot-Inv value b v = record {
  drained = v.drained;
  bounded = v.bounded;
  sized = v.sized;
  fresh = v.fresh;
  pot_current = refl;
  registry = v.registry;
}

note-Inv : (action : String) (b : BrokerCore) → Inv b → Inv (record_safety_action action b)
unfolding record_safety_action
note-Inv action b v = record {
  drained = v.drained;
  bounded = v.bounded;
  sized = v.sized;
  fresh = v.fresh;
  pot_current = v.pot_current;
  registry = v.registry;
}

watchdog-Inv : (now : ℕ) (b : BrokerCore) → Inv b → Inv (watchdog now b).0
unfolding watchdog
watchdog-Inv now b v = elim (Bool-cases (is_expired b.active now b.max_tx)) [
  | inl expired ↦ rw expired (emergency_stop-Inv _ b v)
  | inr fine ↦ rw fine v
]

-- Every call keeps the invariant: an idle keyer has an empty queue, at most 64 jobs wait, each
-- pending job has 1 to 120 bytes, pending ids ascend while ids last, the reported pot speed is
-- that of the minimum in force, and at most one client is primary.
pub step-Inv : (b : BrokerCore) (r : Request) → Inv b → Inv (step b r).0
unfolding step set_client_speed set_client_command restore_foreground observe_status
step-Inv b (connects firmware) v = connect-Inv firmware b v
step-Inv b (fails error) v = physical_error-Inv error b v
step-Inv b (registers id primary) v = register-Inv id primary b v
step-Inv b (unregisters id clock) v = unregister-Inv id clock b v
step-Inv b (speeds id speed) v = set_speed_of-Inv (lookup id b.clients) id speed b refl v
step-Inv b (commands id cmd) v = store_under-Inv (client_profile_key cmd) id cmd b v
step-Inv b (enqueues id payload speed stream now clock) v =
    enqueue-Inv id payload speed stream now clock b v
step-Inv b (cancels id include_active clock) v = cancel_client-Inv id include_active clock b v
step-Inv b (cancels_job id job_id clock) v = cancel_job-Inv id job_id clock b v
step-Inv b (stops why) v = emergency_stop-Inv why b v
step-Inv b (notes action) v = note-Inv action b v
step-Inv b (observes status clock) v = observe_active-Inv b.active status clock b refl v
step-Inv b (settles now settle clock) v = confirm-Inv now settle clock b v
step-Inv b (pots value) v = pot-Inv value b v
step-Inv b (watches now) v = watchdog-Inv now b v
step-Inv b restores v = restore-Inv b v

run-Inv : (b : BrokerCore) (rs : List Request) → Inv b → Inv (run b rs).0
unfolding run
run-Inv b [] v = v
run-Inv b (r ∷ rs) v = run-Inv (step b r).0 rs (step-Inv b r v)

-- After every history of a new scheduler: jobs are queued only behind an active one; at most 64
-- are queued; each pending job has 1 to 120 bytes; while the counter is below the largest `u64`,
-- the pending ids ascend and lie below it; the pot speed reported is the one that the pot and the
-- minimum in force give; clients stand in key order, and at most one is primary.
pub run-new-Inv : (max_tx : ℕ) (rs : List Request) → Inv (run (new max_tx) rs).0
run-new-Inv max_tx rs = run-Inv (new max_tx) rs (new-Inv max_tx)
