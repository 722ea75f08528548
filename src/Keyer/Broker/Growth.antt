-- ===== src/Keyer/Broker/Growth.antt =====
-- How `enqueue` of winkeyer/broker.rs changes the list of pending jobs.
use cathub.Prelude.{
  ℕ, suc, ◌+◌, ◌<◌, ◌≡◌, refl, sym, ap, ◌∙◌, ◌⊎◌, inl, inr, Bool, true, false, List, [], ◌∷◌, ◌++◌,
  Option, none, some, arith, ==_refl, leb, if◌then◌else◌, length, append-nil, contains, Bool-cases,
  min,
}
use cathub.Prelude.Map.{lookup}
use cathub.Keyer.Broker.State.{
  BrokerCore, Job, ActiveJob, ClientState, TransmitPayload, SpeedMode, u64_max, max_queued_jobs,
}
use cathub.Keyer.Broker.Requests.{
  Reply, enqueue, accept, queue_job, start_if_idle, continue_active, continue_last, get_last?,
  extend_last, overflows, continues,
}
use cathub.Keyer.Broker.Jobs.{jobs, active_jobs, ids, ended, start-jobs, start-ended}
use cathub.Keyer.Broker.Invariant.{start-Kept, Inv, Chain}
use cathub.Keyer.Broker.Enqueue.{new_job, is_refused}

-- A refusal changes nothing. Otherwise no job ends, and the pending ids stay as they were, but
-- for the returned id, which comes last if no pending job had it: it is then the next one.
abbrev pub Grows : BrokerCore → Reply → Type 0
Grows b (after, none) = after ≡ b
Grows b (after, some (id, actions)) =
    (ended actions ≡ [])
    × (ids (jobs after) ≡ ids (jobs b) ++ (if contains (ids (jobs b)) id then [] else id ∷ []))
    × (((contains (ids (jobs b)) id ≡ true) × (after.next_job_id ≡ b.next_job_id))
        ⊎ ((id ≡ b.next_job_id) × (after.next_job_id ≡ b.next_job_id + 1)))

ids-append : (xs ys : List Job) → ids (xs ++ ys) ≡ ids xs ++ ids ys
ids-append [] ys = refl
ids-append (j ∷ js) ys = ap (◌∷◌ j.id) (ids-append js ys)

contains-append_left :
    (xs ys : List ℕ) (a : ℕ) → contains ys a ≡ true → contains (xs ++ ys) a ≡ true
contains-append_left [] ys a h = h
contains-append_left (x ∷ xs) ys a h = ground (arith, contains-append_left xs ys a h)

pub contains-above :
    (lo : ℕ) (js : List Job) (hi : ℕ) → Chain lo js hi → contains (ids js) hi ≡ false
contains-above lo [] hi c = refl
contains-above lo (j ∷ js) hi c = ground (arith, contains-above (suc j.id) js hi c.2)

ids-extend_last : (p : TransmitPayload) (js : List Job) → ids (extend_last p js) ≡ ids js
unfolding extend_last
ids-extend_last p [] = refl
ids-extend_last p (j ∷ []) = refl
ids-extend_last p (j ∷ k ∷ js) = ap (◌∷◌ j.id) (ids-extend_last p (k ∷ js))

contains-last : (js : List Job) (j : Job) → get_last? js ≡ some j → contains (ids js) j.id ≡ true
unfolding get_last?
contains-last [] j e = cc
contains-last (k ∷ []) j e = ground arith
contains-last (k ∷ l ∷ js) j e = ground (arith, contains-last (l ∷ js) j e)

ids-queued :
    (a : Option ActiveJob) (q : List Job) (j : Job)
    → ids (active_jobs a ++ (q ++ j ∷ [])) ≡ ids (active_jobs a ++ q) ++ j.id ∷ []
ids-queued none q j = ids-append q (j ∷ [])
ids-queued (some a) q j = ap (◌∷◌ a.job.id) (ids-append q (j ∷ []))

module _ (client : ClientState) (id : ℕ) (payload : TransmitPayload) (speed : Option SpeedMode)
    (stream : Bool) (now clock : ℕ) where
  abbrev queued : BrokerCore → BrokerCore
  queued b = record b {
    next_job_id = min (b.next_job_id + 1) u64_max;
    queue = b.queue ++ new_job client id payload speed stream now clock b.next_job_id ∷ [];
  }

  start_if_idle-jobs :
      (a : Option ActiveJob) (b : BrokerCore)
      → b.active ≡ a
      → let r = start_if_idle a b clock in
        (jobs r.0 ≡ jobs b) × (ended r.1 ≡ []) × (r.0.next_job_id ≡ b.next_job_id)
  unfolding start_if_idle
  start_if_idle-jobs none b e =
      (start-jobs b clock e ∙ rw e, start-ended b clock, (start-Kept b clock).1)
  start_if_idle-jobs (some a) b e = (refl, refl, refl)

  queue_job-Grows :
      (b : BrokerCore)
      → b.next_job_id < u64_max
      → Inv b
      → Grows b (queue_job client id payload speed stream now clock b)
  unfolding queue_job
  queue_job-Grows b lt v = elim (Bool-cases (leb max_queued_jobs (length b.queue))) [
    | inl full ↦ rw full refl
    | inr room ↦
        let s = start_if_idle-jobs b.active (queued b) refl in
        rw (room, contains-above 0 (jobs b) b.next_job_id (v.fresh lt))
          (s.1, ap ids s.0 ∙ ids-queued b.active b.queue _, inr (refl, omega arith))
  ]

continue_last-Grows :
    (o : Option Job) (p : TransmitPayload) (id : ℕ) (b : BrokerCore) (otherwise : Reply)
    → get_last? b.queue ≡ o
    → Grows b otherwise
    → Grows b (continue_last o p id b otherwise)
unfolding continue_last
continue_last-Grows none p id b otherwise e g = g
continue_last-Grows (some j) p id b otherwise e g = elim (Bool-cases (continues j id)) [
  | inl goes ↦ elim (Bool-cases (overflows j p)) [
    | inl over ↦ rw (goes, over) refl
    | inr fits ↦ rw (goes, fits, held) (refl, same b.active ∙ sym (append-nil _), inl (refl, refl))
  ]
  | inr stays ↦ rw stays g
]
  where
    held : contains (ids (jobs b)) j.id ≡ true
    held = rw (ids-append (active_jobs b.active) b.queue) (
        contains-append_left (ids (active_jobs b.active)) (ids b.queue) j.id
          (contains-last b.queue j e))

    same :
        (a : Option ActiveJob)
        → ids (active_jobs a ++ extend_last p b.queue) ≡ ids (active_jobs a ++ b.queue)
    same none = ids-extend_last p b.queue
    same (some a) = ap (◌∷◌ a.job.id) (ids-extend_last p b.queue)

continue_active-Grows :
    (a : Option ActiveJob) (p : TransmitPayload) (id : ℕ) (b : BrokerCore) (otherwise : Reply)
    → b.active ≡ a
    → Grows b otherwise
    → Grows b (continue_active a p id b otherwise)
unfolding continue_active
continue_active-Grows none p id b otherwise e g = g
continue_active-Grows (some a) p id b otherwise e g = elim (Bool-cases (continues a.job id)) [
  | inl goes ↦ elim (Bool-cases (overflows a.job p)) [
    | inl over ↦ rw (goes, over) refl
    | inr fits ↦ rw (goes, fits, e, ==_refl a.job.id) (refl, sym (append-nil _), inl (refl, refl))
  ]
  | inr stays ↦ rw stays g
]

accept-Grows :
    (client : Option ClientState) (id : ℕ) (payload : TransmitPayload) (speed : Option SpeedMode)
    (stream : Bool) (now clock : ℕ) (b : BrokerCore)
    → b.next_job_id < u64_max
    → Inv b
    → Grows b (accept client id payload speed stream now clock b)
unfolding accept
accept-Grows none id payload speed stream now clock b lt v = refl
accept-Grows (some client) id payload speed false now clock b lt v =
    queue_job-Grows client id payload speed false now clock b lt v
accept-Grows (some client) id payload speed true now clock b lt v =
    continue_active-Grows b.active payload id b _ refl (
      continue_last-Grows (get_last? b.queue) payload id b _ refl
        (queue_job-Grows client id payload speed true now clock b lt v))

-- While ids last, a refused `enqueue` changes nothing. An accepted one ends no job, keeps the
-- pending ids in order, and returns the id of a pending job, or puts the next id behind them.
pub enqueue-Grows :
    (id : ℕ) (payload : TransmitPayload) (speed : Option SpeedMode) (stream : Bool) (now clock : ℕ)
    (b : BrokerCore)
    → b.next_job_id < u64_max
    → Inv b
    → Grows b (enqueue id payload speed stream now clock b)
unfolding enqueue
enqueue-Grows id payload speed stream now clock b lt v =
    elim (Bool-cases (is_refused payload b.connected)) [
      | inl refused ↦ rw refused refl
      | inr taken ↦
          rw taken (accept-Grows (lookup id b.clients) id payload speed stream now clock b lt v)
    ]
