-- ===== src/Keyer/Broker/Accounting.antt =====
-- Every job that the scheduler of winkeyer/broker.rs takes on is over exactly once.
use cathub.Prelude.{
  ℕ, ◌+◌, ◌≡◌, refl, sym, ap, subst, inl, inr, Bool, true, false, not, List, [], ◌∷◌, ◌++◌, Option,
  none, some, arith, retain, count, count-append, Bool-cases, Option-cases, Bytes,
}
use cathub.Prelude.Map.{lookup}
use cathub.Keyer.Protocol.{DeviceStatus}
use cathub.Keyer.Broker.State.{BrokerCore, Outcome, Actions, Job, ActiveJob, ClientState, SpeedMode}
use cathub.Keyer.Broker.Schedule.{start_next_or_restore, complete_active}
use cathub.Keyer.Broker.Requests.{
  set_client_speed, set_client_command, store_under, store_command, client_profile_key,
  register_client,
}
use cathub.Keyer.Broker.Cancel.{
  cancel_client, cancel_job, observe_active, is_working, own, is_of, is_job, is_active_job,
}
use cathub.Keyer.Broker.Jobs.{jobs, active_jobs, ids, ended, start-jobs, start-ended}
use cathub.Keyer.Broker.Cancelling.{cancel_client-jobs, ids-append, ended-dropped, count-cancel_all}
use cathub.Keyer.Broker.Steps.{actions_of}

-- What an outcome leaves pending, and what it reports as over, is what was pending.
abbrev pub Accounts : List Job → Outcome → Type 0
Accounts js (after, actions) =
    (i : ℕ) → count i (ids (jobs after)) + count i (ended actions) ≡ count i (ids js)

-- A list parts into what a test keeps and what it drops.
count-retain :
    (i : ℕ) (p : Job → Bool) (js : List Job)
    → count i (ids (retain (λ j. not (p j)) js)) + count i (ids (retain p js)) ≡ count i (ids js)
count-retain i p [] = omega arith
count-retain i p (j ∷ js) = ground (arith, count-retain i p js)

pub quiet : (b c : BrokerCore) → jobs c ≡ jobs b → Accounts (jobs b) (c, [])
quiet b c e i = omega (arith, ap (λ js. count i (ids js)) e)

start-Accounts :
    (b : BrokerCore) (clock : ℕ)
    → b.active ≡ none
    → Accounts b.queue (start_next_or_restore b clock)
start-Accounts b clock e i =
    omega (
      arith,
      ap (λ js. count i (ids js)) (start-jobs b clock e),
      ap (count i) (start-ended b clock),
    )

-- When a job is active, completing it takes exactly this head off the list of jobs and keeps the
-- rest in order, and its id is the one reported as over.
pub complete-jobs :
    (b : BrokerCore) (a : ActiveJob) (clock : ℕ)
    → b.active ≡ some a
    → let r = complete_active b clock in (jobs b ≡ a.job ∷ jobs r.0) × (ended r.1 ≡ a.job.id ∷ [])
unfolding complete_active
complete-jobs b a clock e =
    rw (e, complete_active)
      (
        ap (◌∷◌ a.job) (sym (start-jobs (record b { active = none }) clock refl)),
        ap (◌∷◌ a.job.id) (start-ended (record b { active = none }) clock),
      )

complete_idle : (b : BrokerCore) (clock : ℕ) → b.active ≡ none → complete_active b clock ≡ (b, [])
unfolding complete_active
complete_idle b clock e = ground arith

pub complete-Accounts : (b : BrokerCore) (clock : ℕ) → Accounts (jobs b) (complete_active b clock)
complete-Accounts b clock = elim (Option-cases b.active) [
  | inl idle ↦ subst (Accounts (jobs b)) (sym (complete_idle b clock idle)) (quiet b b refl)
  | inr (a, e) ↦ λ i.
      let c = complete-jobs b a clock e in
      omega (arith, ap (λ js. count i (ids js)) c.0, ap (count i) c.1)
]

-- From what a cancellation keeps and reports.
pub parted :
    (p : Job → Bool) (b : BrokerCore) (r : Outcome)
    → jobs r.0 ≡ retain (λ j. not (p j)) (jobs b)
    → ((i : ℕ) → count i (ended r.1) ≡ count i (ids (retain p (jobs b))))
    → Accounts (jobs b) r
parted p b r e f i = omega (arith, ap (λ js. count i (ids js)) e, f i, count-retain i p (jobs b))

count-jobs :
    (i : ℕ) (a : Option ActiveJob) (q : List Job)
    → count i (ids (active_jobs a ++ q)) ≡ count i (ids (active_jobs a)) + count i (ids q)
count-jobs i a q = rw (ids-append (active_jobs a) q) (count-append i (ids (active_jobs a)) (ids q))

queued_only :
    (i : ℕ) (p : Job → Bool) (a : Option ActiveJob) (q : List Job)
    → count i (ids (active_jobs a ++ retain (λ j. not (p j)) q)) + count i (ids (retain p q))
      ≡ count i (ids (active_jobs a ++ q))
queued_only i p a q =
    omega (arith, count-jobs i a (retain (λ j. not (p j)) q), count-jobs i a q, count-retain i p q)

queued-Accounts :
    (id clock : ℕ) (b : BrokerCore) → Accounts (jobs b) (cancel_client id false clock b)
unfolding cancel_client
queued-Accounts id clock b i =
    omega (arith, queued_only i (is_of id) b.active b.queue, count-cancel_all i (own id b.queue))

pub cancels-Accounts :
    (id : ℕ) (include_active : Bool) (clock : ℕ) (b : BrokerCore)
    → Accounts (jobs b) (cancel_client id include_active clock b)
cancels-Accounts id true clock b =
    let c = cancel_client-jobs id clock b in
    parted (is_of id) b (cancel_client id true clock b) c.0 c.1
cancels-Accounts id false clock b = queued-Accounts id clock b

pub cleared :
    (b : BrokerCore) (r : Outcome)
    → jobs r.0 ≡ []
    → ((i : ℕ) → count i (ended r.1) ≡ count i (ids (jobs b)))
    → Accounts (jobs b) r
cleared b r e f i = omega (arith, ap (λ js. count i (ids js)) e, f i)

pub cancel_job-Accounts :
    (id job_id clock : ℕ) (b : BrokerCore)
    → let r = cancel_job id job_id clock b in Accounts (jobs b) (r.0, r.2)
unfolding cancel_job
cancel_job-Accounts id job_id clock b i = elim (Bool-cases (is_active_job b.active id job_id)) [
  | inl mine ↦ rw mine (
      omega (
        arith,
        ap (λ js. count i (ids js)) (start-jobs (record b { active = none }) clock refl),
        ended-dropped i [] b.active (start_next_or_restore (record b { active = none }) clock).1
            (start-ended (record b { active = none }) clock),
        count-jobs i b.active b.queue,
      ))
  | inr not_mine ↦ rw not_mine (
      omega (
        arith,
        queued_only i (is_job id job_id) b.active b.queue,
        count-cancel_all i (retain (is_job id job_id) b.queue),
      ))
]

pub observe-Accounts :
    (o : Option ActiveJob) (status : DeviceStatus) (clock : ℕ) (b : BrokerCore)
    → b.active ≡ o
    → Accounts (jobs b) (observe_active o status clock (record b { status = status }))
unfolding observe_active
observe-Accounts none status clock b e = quiet b (record b { status = status }) refl
observe-Accounts (some a) status clock b e = elim (Bool-cases (is_working status)) [
  | inl working ↦ rw working (quiet b (seen true) (same true))
  | inr rests ↦ elim (Bool-cases a.saw_busy) [
    | inl busy ↦
        simp (rests, busy)
          (subst (λ js. Accounts js (complete_active (seen true) clock)) (same true)
            (complete-Accounts (seen true) clock))
    | inr still ↦ simp (rests, still) (quiet b (seen false) (same false))
  ]
]
  where
    seen : Bool → BrokerCore
    seen busy = record b {
      status = status;
      active = some (record a { observed_status = true; saw_busy = busy });
    }

    same : (busy : Bool) → jobs (seen busy) ≡ jobs b
    same busy = sym (ap (λ x. active_jobs x ++ b.queue) e)

-- Registration, profiles and the pot touch no job.
pub untouched :
    (b : BrokerCore) (c : BrokerCore) (actions : Actions)
    → jobs c ≡ jobs b
    → ended actions ≡ []
    → Accounts (jobs b) (c, actions)
untouched b c actions e n i = omega (arith, ap (λ js. count i (ids js)) e, ap (count i) n)

pub register-jobs :
    (id : ℕ) (primary : Bool) (b : BrokerCore) → jobs (register_client id primary b).0 ≡ jobs b
unfolding register_client
register-jobs id primary b = ground arith

pub speed-jobs :
    (id : ℕ) (speed : SpeedMode) (b : BrokerCore)
    → let r = set_client_speed id speed b in (jobs r.0 ≡ jobs b) × (ended r.1 ≡ [])
unfolding set_client_speed
speed-jobs id speed b = ground arith

store-jobs :
    (client : Option ClientState) (key id : ℕ) (cmd : Bytes) (b : BrokerCore)
    → let r = store_command client key id cmd b in
      (jobs r.0 ≡ jobs b) × (ended (actions_of r.1) ≡ [])
unfolding store_command
store-jobs none key id cmd b = (refl, refl)
store-jobs (some client) key id cmd b = ground arith

pub command-jobs :
    (id : ℕ) (cmd : Bytes) (b : BrokerCore)
    → let r = set_client_command id cmd b in (jobs r.0 ≡ jobs b) × (ended (actions_of r.1) ≡ [])
unfolding set_client_command
command-jobs id cmd b = go (client_profile_key cmd)
  where
    go :
        (key : Option ℕ)
        → let r = store_under key id cmd b in (jobs r.0 ≡ jobs b) × (ended (actions_of r.1) ≡ [])
    go none = (refl, refl)
    go (some key) = store-jobs (lookup id b.clients) key id cmd b
