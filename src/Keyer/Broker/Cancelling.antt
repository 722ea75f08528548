-- ===== src/Keyer/Broker/Cancelling.antt =====
-- Cancellation in winkeyer/broker.rs: whose jobs go, whose stay, and what is reported.
use Prim.Native.String.{String}
use cathub.Prelude.{
  ℕ, ◌+◌, ◌≡◌, refl, sym, ap, ◌∙◌, true, false, List, [], ◌∷◌, ◌++◌, Option, none, some, arith,
  if◌then◌else◌, retain-append, count, count-append, Bool-cases, inl, inr, append-nil,
}
use cathub.Keyer.Broker.State.{BrokerCore, Actions, Job, ActiveJob, write}
use cathub.Keyer.Broker.Cancel.{
  cancel_all, cancel_active, others, own, is_active_of, unregister_client, cancel_client,
  emergency_stop, physical_error,
}
use cathub.Keyer.Broker.Jobs.{
  active_jobs, jobs, ids, ended, ended-append, ended-cancel_all, ended-cancel_active, start-jobs,
  start-ended, restore-jobs, restore-ended,
}

pub ids-append : (xs ys : List Job) → ids (xs ++ ys) ≡ ids xs ++ ids ys
ids-append [] ys = refl
ids-append (j ∷ js) ys = ap (◌∷◌ j.id) (ids-append js ys)

-- The active job is of the client, or of another.
active_others :
    (id : ℕ) (a : Option ActiveJob)
    → others id (active_jobs a) ≡ (if is_active_of a id then [] else active_jobs a)
active_others id none = refl
active_others id (some a) = ground arith

active_own :
    (id : ℕ) (a : Option ActiveJob)
    → own id (active_jobs a) ≡ (if is_active_of a id then active_jobs a else [])
active_own id none = refl
active_own id (some a) = ground arith

-- The reports of a cancellation that drops queued jobs and the active one.
pub count-cancel_all : (i : ℕ) (q : List Job) → count i (ended (cancel_all q)) ≡ count i (ids q)
count-cancel_all i q = ap (count i) (ended-cancel_all q)

pub ended-dropped :
    (i : ℕ) (q : List Job) (a : Option ActiveJob) (rest : Actions)
    → ended rest ≡ []
    → count i (ended ((cancel_all q ++ cancel_active a) ++ rest))
      ≡ count i (ids (active_jobs a)) + count i (ids q)
ended-dropped i q a rest e =
    rw (ended-append, ended-append, ended-cancel_all, ended-cancel_active, e, append-nil)
      (omega (arith, count-append i (ids q) (ids (active_jobs a))))

ended-dropped_first :
    (i : ℕ) (q : List Job) (a : Option ActiveJob) (rest : Actions)
    → ended rest ≡ []
    → count i (ended ((cancel_all q ++ (write (0x0a ∷ []) ∷ cancel_active a)) ++ rest))
      ≡ count i (ids (active_jobs a)) + count i (ids q)
ended-dropped_first i q a rest e =
    rw (ended-append, ended-append, ended-cancel_all, ended-cancel_active, e, append-nil)
      (omega (arith, count-append i (ids q) (ids (active_jobs a))))

others-jobs :
    (id : ℕ) (b : BrokerCore)
    → others id (jobs b)
      ≡ (if is_active_of b.active id then [] else active_jobs b.active) ++ others id b.queue
others-jobs id b =
    retain-append _ (active_jobs b.active) b.queue
    ∙ ap (λ xs. xs ++ others id b.queue) (active_others id b.active)

own-jobs :
    (id : ℕ) (b : BrokerCore)
    → own id (jobs b)
      ≡ (if is_active_of b.active id then active_jobs b.active else []) ++ own id b.queue
own-jobs id b =
    retain-append _ (active_jobs b.active) b.queue
    ∙ ap (λ xs. xs ++ own id b.queue) (active_own id b.active)

count-own :
    (i id : ℕ) (b : BrokerCore)
    → count i (ids (own id (jobs b)))
      ≡ count i (ids (if is_active_of b.active id then active_jobs b.active else []))
        + count i (ids (own id b.queue))
count-own i id b = rw (own-jobs id b, ids-append) (count-append i _ (ids (own id b.queue)))

-- Cancelling all of a client's work takes exactly its jobs off the list, keeps all others in
-- their order, and reports each job taken, once.
pub cancel_client-jobs :
    (id clock : ℕ) (b : BrokerCore)
    → let r = cancel_client id true clock b in
      (jobs r.0 ≡ others id (jobs b))
      × ((i : ℕ) → count i (ended r.1) ≡ count i (ids (own id (jobs b))))
unfolding cancel_client
cancel_client-jobs id clock b = elim (Bool-cases (is_active_of b.active id)) [
  | inl mine ↦ (
    rw (mine, others-jobs id b, mine) (start-jobs _ clock refl),
    λ i.
        rw (mine, count-own i id b, mine)
          (ended-dropped i (own id b.queue) b.active _ (start-ended _ clock)),
  )
  | inr not_mine ↦ (
    rw (not_mine, others-jobs id b, not_mine) (ground arith),
    λ i.
        rw (not_mine, count-own i id b, not_mine)
          (ground (arith, count-cancel_all i (own id b.queue))),
  )
]

-- Without `include_active` the active job goes on, and only queued jobs of the client go.
pub cancel_client-queued :
    (id clock : ℕ) (b : BrokerCore)
    → let r = cancel_client id false clock b in
      (r.0.active ≡ b.active) × (r.0.queue ≡ others id b.queue) × (ended r.1 ≡ ids (own id b.queue))
unfolding cancel_client
cancel_client-queued id clock b = (refl, refl, ended-cancel_all (own id b.queue))

-- When a client is unregistered, exactly its jobs leave the list, each reported once; all other
-- jobs stay in order.
pub unregister_client-jobs :
    (id clock : ℕ) (b : BrokerCore)
    → let r = unregister_client id clock b in
      (jobs r.0 ≡ others id (jobs b))
      × ((i : ℕ) → count i (ended r.1) ≡ count i (ids (own id (jobs b))))
unfolding unregister_client
unregister_client-jobs id clock b = elim (Bool-cases (is_active_of b.active id)) [
  | inl mine ↦ (
    rw (mine, others-jobs id b, mine) (start-jobs _ clock refl),
    λ i.
        rw (mine, count-own i id b, mine)
          (ended-dropped_first i (own id b.queue) b.active _ (start-ended _ clock)),
  )
  | inr not_mine ↦ (
    rw (not_mine, others-jobs id b, not_mine) refl,
    λ i.
        rw (not_mine, count-own i id b, not_mine)
          (omega (arith, count-cancel_all i (own id b.queue))),
  )
]

ended-all : (b : BrokerCore) → ended (cancel_active b.active ++ cancel_all b.queue) ≡ ids (jobs b)
ended-all b =
    rw (ended-append, ended-cancel_all, ended-cancel_active)
      (sym (ids-append (active_jobs b.active) b.queue))

-- The emergency stop leaves no job, and reports every job there was, once.
pub emergency_stop-jobs :
    (why : String) (b : BrokerCore)
    → let r = emergency_stop why b in
      (jobs r.0 ≡ []) × ((i : ℕ) → count i (ended r.1) ≡ count i (ids (jobs b)))
unfolding emergency_stop
emergency_stop-jobs why b = (
  restore-jobs _,
  λ i.
      rw (ended-append (cancel_active b.active ++ cancel_all b.queue), restore-ended, append-nil)
        (ap (count i) (ended-all b)),
)

pub physical_error-jobs :
    (error : String) (b : BrokerCore)
    → let r = physical_error error b in (jobs r.0 ≡ []) × (ended r.1 ≡ ids (jobs b))
unfolding physical_error
physical_error-jobs error b = (refl, ended-all b)
