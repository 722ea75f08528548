-- ===== src/Keyer/Broker/Counter.antt =====
-- The counter of job ids in winkeyer/broker.rs: only a new job moves it.
use Prim.Native.String.{String}
use cathub.Prelude.{
  ℕ, ◌+◌, ◌<◌, ◌≡◌, refl, ap, ◌∙◌, ◌⊎◌, inl, inr, Bool, true, ◌&&◌, List, [], ◌∷◌, Option, none,
  some, arith, Bool-cases, Bytes,
}
use cathub.Prelude.Map.{lookup}
use cathub.Keyer.Protocol.{DeviceStatus}
use cathub.Keyer.Broker.State.{BrokerCore, ActiveJob, ClientState, u64_max}
use cathub.Keyer.Broker.Schedule.{start_next_or_restore, complete_active}
use cathub.Keyer.Broker.Requests.{
  connect_physical, enqueue, Reply, register_client, set_client_speed, set_client_command,
  store_command, store_under, client_profile_key,
}
use cathub.Keyer.Broker.Cancel.{
  physical_error, unregister_client, cancel_client, cancel_job, emergency_stop,
  record_safety_action, observe_status, observe_active, confirm_idle_after_settle, observe_pot,
  watchdog, restore_foreground, is_active_of, is_active_job,
}
use cathub.Keyer.Broker.Jobs.{jobs, ids}
use cathub.Keyer.Broker.Invariant.{Inv, restore-Kept, start-Kept}
use cathub.Keyer.Broker.Growth.{Grows, enqueue-Grows, contains-above}
use cathub.Keyer.Broker.Steps.{
  Request, connects, fails, registers, unregisters, speeds, commands, enqueues, cancels,
  cancels_job, stops, notes, observes, settles, pots, watches, restores, step, opened, opened_by,
}

-- A call opens no job and leaves the counter, or opens the next job and moves the counter by one.
abbrev pub Counts : BrokerCore → BrokerCore → List ℕ → Type 0
Counts b after new =
    ((new ≡ []) × (after.next_job_id ≡ b.next_job_id))
    ⊎ ((new ≡ b.next_job_id ∷ []) × (after.next_job_id ≡ b.next_job_id + 1))

started-next :
    (b c : BrokerCore) (clock : ℕ)
    → c.next_job_id ≡ b.next_job_id
    → (start_next_or_restore c clock).0.next_job_id ≡ b.next_job_id
started-next b c clock e = (start-Kept c clock).1 ∙ e

complete-next :
    (b : BrokerCore) (clock : ℕ) → (complete_active b clock).0.next_job_id ≡ b.next_job_id
unfolding complete_active
complete-next b clock = ground (arith, started-next b (record b { active = none }) clock refl)

unregister-next :
    (id clock : ℕ) (b : BrokerCore) → (unregister_client id clock b).0.next_job_id ≡ b.next_job_id
unfolding unregister_client
unregister-next id clock b = elim (Bool-cases (is_active_of b.active id)) [
  | inl mine ↦ rw mine (started-next b _ clock refl)
  | inr other ↦ rw other refl
]

cancel_client-next :
    (id : ℕ) (include_active : Bool) (clock : ℕ) (b : BrokerCore)
    → (cancel_client id include_active clock b).0.next_job_id ≡ b.next_job_id
unfolding cancel_client
cancel_client-next id include_active clock b =
    elim (Bool-cases (include_active && is_active_of b.active id)) [
      | inl mine ↦ rw mine (started-next b _ clock refl)
      | inr other ↦ rw other (ground arith)
    ]

cancel_job-next :
    (id job_id clock : ℕ) (b : BrokerCore)
    → (cancel_job id job_id clock b).0.next_job_id ≡ b.next_job_id
unfolding cancel_job
cancel_job-next id job_id clock b = elim (Bool-cases (is_active_job b.active id job_id)) [
  | inl mine ↦ rw mine (started-next b _ clock refl)
  | inr other ↦ rw other refl
]

stop-next : (why : String) (b : BrokerCore) → (emergency_stop why b).0.next_job_id ≡ b.next_job_id
unfolding emergency_stop
stop-next why b = (restore-Kept _).1

observe_active-next :
    (o : Option ActiveJob) (status : DeviceStatus) (clock : ℕ) (b : BrokerCore)
    → (observe_active o status clock b).0.next_job_id ≡ b.next_job_id
unfolding observe_active
observe_active-next none status clock b = refl
observe_active-next (some a) status clock b =
    ground (
      arith,
      complete-next (record b { active = some (record a { observed_status = true }) }) clock,
    )

settle-next :
    (now settle clock : ℕ) (b : BrokerCore)
    → (confirm_idle_after_settle now settle clock b).0.next_job_id ≡ b.next_job_id
unfolding confirm_idle_after_settle
settle-next now settle clock b = ground (arith, complete-next b clock)

watchdog-next : (now : ℕ) (b : BrokerCore) → (watchdog now b).0.next_job_id ≡ b.next_job_id
unfolding watchdog
watchdog-next now b = ground (arith, stop-next "WinKeyer transmit safety ceiling reached" b)

store-next :
    (client : Option ClientState) (key id : ℕ) (cmd : Bytes) (b : BrokerCore)
    → (store_command client key id cmd b).0.next_job_id ≡ b.next_job_id
unfolding store_command
store-next client key id cmd b = ground arith

command-next :
    (key : Option ℕ) (id : ℕ) (cmd : Bytes) (b : BrokerCore)
    → (store_under key id cmd b).0.next_job_id ≡ b.next_job_id
unfolding store_under
command-next none id cmd b = refl
command-next (some key) id cmd b = store-next (lookup id b.clients) key id cmd b

enqueue-Counts :
    (b : BrokerCore) (reply : Reply)
    → b.next_job_id < u64_max
    → Inv b
    → Grows b reply
    → Counts b reply.0 (opened_by (ids (jobs b)) reply.1)
enqueue-Counts b (after, none) lt v g = inl (refl, ap (λ c. c.next_job_id) g)
enqueue-Counts b (after, some (id, actions)) lt v g = elim g.2 [
  | inl (held, n) ↦ inl (rw held refl, n)
  | inr (e, n) ↦ inr (rw (e, contains-above 0 (jobs b) b.next_job_id (v.fresh lt)) refl, n)
]

-- While ids last, a call opens no job and leaves the counter of ids as it was, or opens the job
-- with the next id and moves the counter by one.
pub step-Counts :
    (b : BrokerCore) (r : Request)
    → b.next_job_id < u64_max
    → Inv b
    → Counts b (step b r).0 (opened b r)
unfolding step opened connect_physical register_client record_safety_action observe_pot
    restore_foreground set_client_speed set_client_command observe_status physical_error
step-Counts b (connects firmware) lt v = inl (refl, refl)
step-Counts b (fails error) lt v = inl (refl, refl)
step-Counts b (registers id primary) lt v = inl (refl, ground arith)
step-Counts b (unregisters id clock) lt v = inl (refl, unregister-next id clock b)
step-Counts b (speeds id speed) lt v = inl (refl, ground arith)
step-Counts b (commands id cmd) lt v = inl (refl, command-next (client_profile_key cmd) id cmd b)
step-Counts b (enqueues id payload speed stream now clock) lt v =
    enqueue-Counts b (enqueue id payload speed stream now clock b) lt v
      (enqueue-Grows id payload speed stream now clock b lt v)
step-Counts b (cancels id include_active clock) lt v =
    inl (refl, cancel_client-next id include_active clock b)
step-Counts b (cancels_job id job_id clock) lt v = inl (refl, cancel_job-next id job_id clock b)
step-Counts b (stops why) lt v = inl (refl, stop-next why b)
step-Counts b (notes action) lt v = inl (refl, refl)
step-Counts b (observes status clock) lt v =
    inl (refl, observe_active-next b.active status clock (record b { status = status }))
step-Counts b (settles now settle clock) lt v = inl (refl, settle-next now settle clock b)
step-Counts b (pots value) lt v = inl (refl, refl)
step-Counts b (watches now) lt v = inl (refl, watchdog-next now b)
step-Counts b restores lt v = inl (refl, (restore-Kept b).1)
