-- ===== src/Keyer/Broker/Ledger.antt =====
-- The books of the scheduler of winkeyer/broker.rs over whole histories.
use Prim.Native.String.{String}
use cathub.Prelude.{
  ℕ, ◌+◌, ◌≤◌, ◌<◌, ◌≡◌, refl, ap, inl, inr, List, [], ◌∷◌, ◌++◌, none, some, arith, length, count,
  count-append, Bool-cases,
}
use cathub.Keyer.Broker.State.{BrokerCore, Outcome, u64_max, new}
use cathub.Keyer.Broker.Schedule.{restore_foreground_speed}
use cathub.Keyer.Broker.Requests.{
  connect_physical, enqueue, Reply, register_client, set_client_speed, set_client_command,
}
use cathub.Keyer.Broker.Cancel.{
  physical_error, unregister_client, cancel_client, cancel_job, emergency_stop,
  record_safety_action, observe_status, confirm_idle_after_settle, observe_pot, watchdog,
  restore_foreground, is_of, is_expired,
}
use cathub.Keyer.Broker.Jobs.{jobs, ids, ended, ended-append, restore-jobs, restore-ended}
use cathub.Keyer.Broker.Invariant.{Inv}
use cathub.Keyer.Broker.Growth.{Grows, enqueue-Grows}
use cathub.Keyer.Broker.Cancelling.{
  unregister_client-jobs, emergency_stop-jobs, physical_error-jobs,
}
use cathub.Keyer.Broker.Accounting.{
  Accounts, quiet, untouched, parted, cleared, cancels-Accounts, cancel_job-Accounts,
  observe-Accounts, complete-Accounts, register-jobs, speed-jobs, command-jobs,
}
use cathub.Keyer.Broker.Counter.{step-Counts}
use cathub.Keyer.Broker.Histories.{step-Inv}
use cathub.Keyer.Broker.Sound.{new-Inv}
use cathub.Keyer.Broker.Steps.{
  Request, connects, fails, registers, unregisters, speeds, commands, enqueues, cancels,
  cancels_job, stops, notes, observes, settles, pots, watches, restores, step, opened, opened_by,
  reply_actions, actions_of, run,
}

-- What was pending, and what the call opened, is pending still or reported as over.
abbrev pub Balances : BrokerCore → Request → Type 0
Balances b r =
    (i : ℕ)
    → count i (ids (jobs (step b r).0)) + count i (ended (step b r).1)
      ≡ count i (ids (jobs b)) + count i (opened b r)

plain :
    (b : BrokerCore) (o : Outcome)
    → Accounts (jobs b) o
    → (i : ℕ) → count i (ids (jobs o.0)) + count i (ended o.1) ≡ count i (ids (jobs b)) + 0
plain b o a i = omega (arith, a i)

emergency-Accounts : (why : String) (b : BrokerCore) → Accounts (jobs b) (emergency_stop why b)
emergency-Accounts why b =
    let e = emergency_stop-jobs why b in cleared b (emergency_stop why b) e.0 e.1

watchdog-Accounts : (now : ℕ) (b : BrokerCore) → Accounts (jobs b) (watchdog now b)
unfolding watchdog
watchdog-Accounts now b = elim (Bool-cases (is_expired b.active now b.max_tx)) [
  | inl expired ↦ rw expired (emergency-Accounts "WinKeyer transmit safety ceiling reached" b)
  | inr fine ↦ rw fine (quiet b b refl)
]

error-Accounts : (error : String) (b : BrokerCore) → Accounts (jobs b) (physical_error error b)
error-Accounts error b =
    let e = physical_error-jobs error b in
    cleared b (physical_error error b) e.0 (λ i. ap (count i) e.1)

settle-Accounts :
    (now settle clock : ℕ) (b : BrokerCore)
    → Accounts (jobs b) (confirm_idle_after_settle now settle clock b)
unfolding confirm_idle_after_settle
settle-Accounts now settle clock b i = ground (arith, complete-Accounts b clock i)

enqueue-Balances :
    (b : BrokerCore) (reply : Reply)
    → Grows b reply
    → (i : ℕ)
    → count i (ids (jobs reply.0)) + count i (ended (reply_actions reply.1))
      ≡ count i (ids (jobs b)) + count i (opened_by (ids (jobs b)) reply.1)
enqueue-Balances b (after, none) g i = omega (arith, ap (λ c. count i (ids (jobs c))) g)
enqueue-Balances b (after, some (id, actions)) g i = omega (
  arith,
  ap (count i) g.0,
  ap (count i) g.1,
  count-append i (ids (jobs b)) (opened_by (ids (jobs b)) (some (id, actions))),
)

-- While ids last, every call balances: no job is lost, reported twice or reported while pending.
pub step-Balances : (b : BrokerCore) (r : Request) → b.next_job_id < u64_max → Inv b → Balances b r
unfolding step opened connect_physical record_safety_action observe_pot restore_foreground
    observe_status
step-Balances b (connects firmware) lt v =
    let c = connect_physical firmware b in plain b (c, []) (quiet b c refl)
step-Balances b (fails error) lt v = plain b (physical_error error b) (error-Accounts error b)
step-Balances b (registers id primary) lt v =
    let c = (register_client id primary b).0 in
    plain b (c, []) (quiet b c (register-jobs id primary b))
step-Balances b (unregisters id clock) lt v =
    let u = unregister_client-jobs id clock b in
    plain b (unregister_client id clock b)
      (parted (is_of id) b (unregister_client id clock b) u.0 u.1)
step-Balances b (speeds id speed) lt v =
    let s = speed-jobs id speed b in
    plain b (set_client_speed id speed b)
      (untouched b (set_client_speed id speed b).0 (set_client_speed id speed b).1 s.0 s.1)
step-Balances b (commands id cmd) lt v =
    let s = command-jobs id cmd b in
    let c = set_client_command id cmd b in
    plain b (c.0, actions_of c.1) (untouched b c.0 (actions_of c.1) s.0 s.1)
step-Balances b (enqueues id payload speed stream now clock) lt v =
    enqueue-Balances b (enqueue id payload speed stream now clock b)
      (enqueue-Grows id payload speed stream now clock b lt v)
step-Balances b (cancels id include_active clock) lt v =
    plain b (cancel_client id include_active clock b) (cancels-Accounts id include_active clock b)
step-Balances b (cancels_job id job_id clock) lt v =
    plain b (let r = cancel_job id job_id clock b in (r.0, r.2))
      (cancel_job-Accounts id job_id clock b)
step-Balances b (stops why) lt v = plain b (emergency_stop why b) (emergency-Accounts why b)
step-Balances b (notes action) lt v =
    let c = record_safety_action action b in plain b (c, []) (quiet b c refl)
step-Balances b (observes status clock) lt v =
    plain b (observe_status status clock b) (observe-Accounts b.active status clock b refl)
step-Balances b (settles now settle clock) lt v =
    plain b (confirm_idle_after_settle now settle clock b) (settle-Accounts now settle clock b)
step-Balances b (pots value) lt v = let c = observe_pot value b in plain b (c, []) (quiet b c refl)
step-Balances b (watches now) lt v = plain b (watchdog now b) (watchdog-Accounts now b)
step-Balances b restores lt v =
    let c = restore_foreground_speed b in
    plain b c (untouched b c.0 c.1 (restore-jobs b) (restore-ended b))

-- The ids that a history opens, in order.
unfoldable pub opened_in : BrokerCore → List Request → List ℕ
opened_in b [] = []
opened_in b (r ∷ rs) = opened b r ++ opened_in (step b r).0 rs

-- An id is opened at most once, and never one that the counter has passed.
opened_in-once :
    (b : BrokerCore) (rs : List Request) (i : ℕ)
    → b.next_job_id + length rs ≤ u64_max
    → Inv b
    → (count i (opened_in b rs) ≤ 1) × (i < b.next_job_id → count i (opened_in b rs) ≡ 0)
unfolding opened_in
opened_in-once b [] i h v = (omega arith, λ lt. refl)
opened_in-once b (r ∷ rs) i h v = elim (step-Counts b r (omega arith) v) [
  | inl (e, n) ↦
      let ih = opened_in-once (step b r).0 rs i (omega arith) (step-Inv b r v) in
      rw e (ih.0, λ lt. ih.1 (omega arith))
  | inr (e, n) ↦
      let ih = opened_in-once (step b r).0 rs i (omega arith) (step-Inv b r v) in
      rw e (ground (arith, ih), λ lt. ground (arith, ih))
]

run-Balances :
    (b : BrokerCore) (rs : List Request) (i : ℕ)
    → b.next_job_id + length rs ≤ u64_max
    → Inv b
    → let r = run b rs in
      count i (ids (jobs r.0)) + count i (ended r.1)
      ≡ count i (ids (jobs b)) + count i (opened_in b rs)
unfolding run opened_in
run-Balances b [] i h v = refl
run-Balances b (r ∷ rs) i h v =
    let c = (step b r).0 in
    let room : c.next_job_id + length rs ≤ u64_max =
      ground (arith, step-Counts b r (omega arith) v) in
    omega (
      arith,
      step-Balances b r (omega arith) v i,
      run-Balances c rs i room (step-Inv b r v),
      ap (count i) (ended-append (step b r).1 (run c rs).1),
      count-append i (ended (step b r).1) (ended (run c rs).1),
      count-append i (opened b r) (opened_in c rs),
    )

-- Over a history of a new scheduler, short enough that ids last, each id is opened at most once;
-- an opened job is either still pending or reported as over, exactly once, and no other id is
-- ever pending or reported.
pub run-exactly_once :
    (max_tx : ℕ) (rs : List Request) (i : ℕ)
    → length rs < u64_max
    → let r = run (new max_tx) rs in
      let total = count i (opened_in (new max_tx) rs) in
      (count i (ids (jobs r.0)) + count i (ended r.1) ≡ total) × (total ≤ 1)
unfolding new
run-exactly_once max_tx rs i h = (
  omega (arith, run-Balances (new max_tx) rs i (omega arith) (new-Inv max_tx)),
  (opened_in-once (new max_tx) rs i (omega arith) (new-Inv max_tx)).0,
)
