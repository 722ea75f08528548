-- ===== src/Keyer/Broker/Safety.antt =====
-- Safety of the physical keyer in winkeyer/broker.rs: what is on it when it falls idle, the ceiling
-- on one transmission, and who may write past the queue.
use Prim.Native.String.{String}
use cathub.Prelude.{
  ℕ, ◌-◌, ◌≤◌, ◌<◌, ◌≡◌, ◌≢◌, refl, ◌⊎◌, inl, inr, ◌↔◌, Bool, true, false, [], ◌∷◌, Option, none,
  some, arith, Bool-cases, Bytes,
}
use cathub.Prelude.Map.{lookup}
use cathub.Keyer.Protocol.{DeviceStatus}
use cathub.Keyer.Broker.State.{
  BrokerCore, Actions, PhysicalAction, write, ActiveJob, ClientState, SpeedMode, TransmitPayload,
}
use cathub.Keyer.Broker.Requests.{
  active_owner_command, owns, connect_physical, register_client, set_client_speed,
  set_client_command, store_under, store_command, client_profile_key, enqueue, accept, queue_job,
  continue_active, continue_last, get_last?, Reply,
}
use cathub.Keyer.Broker.Cancel.{
  observe_status, observe_active, confirm_idle_after_settle, observe_pot, watchdog,
  restore_foreground, record_safety_action, emergency_stop, is_expired, is_working,
}
use cathub.Keyer.Broker.Jobs.{jobs}
use cathub.Keyer.Broker.Cancelling.{emergency_stop-jobs}
use cathub.Keyer.Broker.Handover.{
  IdleRestores, Restores, restore-Restores, complete-IdleRestores, unregister-IdleRestores,
  cancel_client-IdleRestores, cancel_job-IdleRestores, stop-Restores,
}
use cathub.Keyer.Broker.Steps.{
  Request, connects, fails, registers, unregisters, speeds, commands, enqueues, cancels,
  cancels_job, stops, notes, observes, settles, pots, watches, restores, step,
}

-- The device was lost: nothing can be written to it.
abbrev pub is_fault : Request → Bool
is_fault (fails error) = true
is_fault _ = false

observe-IdleRestores :
    (status : DeviceStatus) (clock : ℕ) (b : BrokerCore) (a : ActiveJob)
    → IdleRestores (observe_active (some a) status clock b)
unfolding observe_active
observe-IdleRestores status clock b a = elim (Bool-cases (is_working status)) [
  | inl working ↦ rw working (λ idle. cc)
  | inr rests ↦ elim (Bool-cases a.saw_busy) [
    | inl busy ↦
        let seen = record a { observed_status = true; saw_busy = true } in
        rw (rests, busy) (complete-IdleRestores (record b { active = some seen }) seen clock refl)
    | inr still ↦ rw (rests, still) (λ idle. cc)
  ]
]

observe-at :
    (o : Option ActiveJob) (status : DeviceStatus) (clock : ℕ) (b : BrokerCore) (a : ActiveJob)
    → o ≡ some a
    → IdleRestores (observe_active o status clock b)
observe-at none status clock b a e = cc
observe-at (some x) status clock b a e = observe-IdleRestores status clock b x

settle-IdleRestores :
    (now settle clock : ℕ) (b : BrokerCore) (a : ActiveJob)
    → b.active ≡ some a
    → IdleRestores (confirm_idle_after_settle now settle clock b)
unfolding confirm_idle_after_settle
settle-IdleRestores now settle clock b a e = ground (arith, complete-IdleRestores b a clock e)

-- A keyer at work is still at work after a new job came in.
queue_job-busy :
    (client : ClientState) (id : ℕ) (payload : TransmitPayload) (speed : Option SpeedMode)
    (stream : Bool) (now clock : ℕ) (b : BrokerCore) (a : ActiveJob)
    → b.active ≡ some a
    → (queue_job client id payload speed stream now clock b).0.active ≢ none
unfolding queue_job
queue_job-busy client id payload speed stream now clock b a e idle = ground arith

continue-busy :
    (payload : TransmitPayload) (id : ℕ) (b : BrokerCore) (a : ActiveJob) (otherwise : Reply)
    → b.active ≡ some a
    → otherwise.0.active ≢ none
    → (continue_active b.active payload id b
        (continue_last (get_last? b.queue) payload id b otherwise)).0.active
      ≢ none
unfolding continue_active continue_last
continue-busy payload id b a otherwise e h idle = ground arith

accept-busy :
    (client : Option ClientState) (id : ℕ) (payload : TransmitPayload) (speed : Option SpeedMode)
    (stream : Bool) (now clock : ℕ) (b : BrokerCore) (a : ActiveJob)
    → b.active ≡ some a
    → (accept client id payload speed stream now clock b).0.active ≢ none
unfolding accept
accept-busy none id payload speed stream now clock b a e = λ idle. cc
accept-busy (some client) id payload speed false now clock b a e =
    queue_job-busy client id payload speed false now clock b a e
accept-busy (some client) id payload speed true now clock b a e =
    continue-busy payload id b a _ e (queue_job-busy client id payload speed true now clock b a e)

enqueue-busy :
    (id : ℕ) (payload : TransmitPayload) (speed : Option SpeedMode) (stream : Bool) (now clock : ℕ)
    (b : BrokerCore) (a : ActiveJob)
    → b.active ≡ some a
    → (enqueue id payload speed stream now clock b).0.active ≢ none
unfolding enqueue
enqueue-busy id payload speed stream now clock b a e =
    ground (arith, accept-busy (lookup id b.clients) id payload speed stream now clock b a e)

store-busy :
    (key : Option ℕ) (id : ℕ) (cmd : Bytes) (b : BrokerCore)
    → (store_under key id cmd b).0.active ≡ b.active
unfolding store_under store_command
store-busy key id cmd b = ground arith

watchdog-IdleRestores :
    (now : ℕ) (b : BrokerCore) (a : ActiveJob) → b.active ≡ some a → IdleRestores (watchdog now b)
unfolding watchdog
watchdog-IdleRestores now b a e =
    ground (arith, stop-Restores "WinKeyer transmit safety ceiling reached" b)

-- Whenever a call other than a device error leaves a keyer that had a job idle, its writes end with
-- the speed of the foreground client, or with the pot's if there is none.
pub step-IdleRestores :
    (b : BrokerCore) (a : ActiveJob) (r : Request)
    → b.active ≡ some a
    → is_fault r ≡ false
    → (step b r).0.active ≡ none
    → Restores (step b r)
unfolding step connect_physical register_client set_client_speed set_client_command
    record_safety_action observe_pot restore_foreground observe_status
step-IdleRestores b a (connects firmware) e f idle = cc
step-IdleRestores b a (fails error) e f idle = cc
step-IdleRestores b a (registers id primary) e f idle = ground arith
step-IdleRestores b a (unregisters id clock) e f idle = unregister-IdleRestores id clock b a e idle
step-IdleRestores b a (speeds id speed) e f idle = ground arith
step-IdleRestores b a (commands id cmd) e f idle =
    ground (arith, store-busy (client_profile_key cmd) id cmd b)
step-IdleRestores b a (enqueues id payload speed stream now clock) e f idle =
    absurd (enqueue-busy id payload speed stream now clock b a e idle)
step-IdleRestores b a (cancels id include_active clock) e f idle =
    cancel_client-IdleRestores id include_active clock b a e idle
step-IdleRestores b a (cancels_job id job_id clock) e f idle =
    cancel_job-IdleRestores id job_id clock b a e idle
step-IdleRestores b a (stops why) e f idle = stop-Restores why b
step-IdleRestores b a (notes action) e f idle = cc
step-IdleRestores b a (observes status clock) e f idle =
    observe-at b.active status clock (record b { status = status }) a e idle
step-IdleRestores b a (settles now settle clock) e f idle =
    settle-IdleRestores now settle clock b a e idle
step-IdleRestores b a (pots value) e f idle = cc
step-IdleRestores b a (watches now) e f idle = watchdog-IdleRestores now b a e idle
step-IdleRestores b a restores e f idle = restore-Restores b

abbrev pub first_action : Actions → Option PhysicalAction
first_action [] = none
first_action (a ∷ r) = some a

stop-first :
    (why : String) (b : BrokerCore)
    → first_action (emergency_stop why b).1 ≡ some (write (0x0a ∷ 0x0b ∷ 0x00 ∷ []))
unfolding emergency_stop
stop-first why b = refl

-- When the active job has lasted `max_tx` the watchdog clears the device's buffer and key first
-- and leaves no job; otherwise it does nothing, and the active job is below the ceiling.
pub watchdog_lem :
    (now : ℕ) (b : BrokerCore)
    → let r = watchdog now b in
      ((jobs r.0 ≡ [])
        × (first_action r.1 ≡ some (write (0x0a ∷ 0x0b ∷ 0x00 ∷ [])))
        × ((a : ActiveJob) × (b.active ≡ some a) × (b.max_tx ≤ now - a.started_at)))
      ⊎ ((r ≡ (b, [])) × ((a : ActiveJob) → b.active ≡ some a → now - a.started_at < b.max_tx))
unfolding watchdog
watchdog_lem now b = elim (Bool-cases (is_expired b.active now b.max_tx)) [
  | inl expired ↦
      rw expired (inl ((emergency_stop-jobs _ b).0, stop-first _ b, expired_of b.active expired))
  | inr fine ↦ rw fine (inr (refl, λ a e. ground arith))
]
  where
    expired_of :
        (o : Option ActiveJob)
        → is_expired o now b.max_tx ≡ true
        → (a : ActiveJob) × (o ≡ some a) × (b.max_tx ≤ now - a.started_at)
    expired_of none h = cc
    expired_of (some a) h = (a, refl, ground arith)

-- The client of the active job; with none active, a primary client.
abbrev pub MayWrite : Option ActiveJob → Option ClientState → ℕ → Type 0
MayWrite (some a) client id = a.job.client_id ≡ id
MayWrite none (some client) id = client.primary ≡ true
MayWrite none none id = ⊥

owns_iff :
    (o : Option ActiveJob) (client : Option ClientState) (id : ℕ)
    → (owns o client id ≡ true) ↔ MayWrite o client id
owns_iff none none id = (λ h. cc, absurd)
owns_iff none (some client) id = (λ h. h, λ h. h)
owns_iff (some a) client id = ground arith

-- A command passes to the device, as it is, exactly for the client of the active job, or for a
-- primary client while no job is active.
pub active_owner_command_iff :
    (id : ℕ) (cmd : Bytes) (b : BrokerCore)
    → (active_owner_command id cmd b ≡ some (write cmd ∷ []))
      ↔ MayWrite b.active (lookup id b.clients) id
unfolding active_owner_command
active_owner_command_iff id cmd b =
    let o = owns_iff b.active (lookup id b.clients) id in
    elim (Bool-cases (owns b.active (lookup id b.clients) id)) [
      | inl may ↦ rw may (λ h. o.0 may, λ h. refl)
      | inr may_not ↦ rw may_not (λ h. cc, λ h. cc (o.1 h))
    ]
