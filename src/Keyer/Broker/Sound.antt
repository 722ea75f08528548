-- ===== src/Keyer/Broker/Sound.antt =====
-- Every call of the scheduler keeps its invariant.
use Prim.Native.String.{String}
use cathub.Prelude.{
  ℕ, suc, ◌≡◌, refl, ap, inl, inr, Bool, List, [], ◌++◌, Option, none, some, arith, All, All-retain,
  length-retain-le, retain, Option-cases,
}
use cathub.Keyer.Broker.State.{BrokerCore, Job, ActiveJob, new}
use cathub.Keyer.Broker.Schedule.{start_next_or_restore, complete_active, restore_foreground_speed}
use cathub.Keyer.Broker.Cancel.{physical_error, emergency_stop}
use cathub.Keyer.Broker.Jobs.{active_jobs}
use cathub.Keyer.Broker.Invariant.{
  Inv, IsSized, Chain, Chain-retain, Chain-mono-lo, IsPotCurrent, IsRegistry, start-Inv,
}

pub new-Inv : (max_tx : ℕ) → Inv (new max_tx)
unfolding new
new-Inv max_tx = record {
  drained = λ e. refl;
  bounded = omega arith;
  sized = tt;
  fresh = λ lt. tt;
  pot_current = refl;
  registry = (tt, omega arith);
}

-- A broker whose jobs are all gone is sound.
cleared-Inv :
    (b : BrokerCore)
    → b.active ≡ none
    → b.queue ≡ []
    → IsPotCurrent b
    → IsRegistry b.clients
    → Inv b
cleared-Inv b e q current one = record {
  drained = λ x. q;
  bounded = ground arith;
  sized = rw (e, q) tt;
  fresh = rw (e, q) (λ lt. tt);
  pot_current = current;
  registry = one;
}

pub physical_error-Inv : (error : String) (b : BrokerCore) → Inv b → Inv (physical_error error b).0
unfolding physical_error
physical_error-Inv error b v = cleared-Inv _ refl refl v.pot_current v.registry

pub restore-Inv : (b : BrokerCore) → Inv b → Inv (restore_foreground_speed b).0
unfolding restore_foreground_speed
restore-Inv b v = ground arith

pub emergency_stop-Inv : (why : String) (b : BrokerCore) → Inv b → Inv (emergency_stop why b).0
unfolding emergency_stop
emergency_stop-Inv why b v = restore-Inv _ (cleared-Inv _ refl refl v.pot_current v.registry)

-- Dropping queued jobs keeps a broker sound.
thinned :
    (p : Job → Bool) (lo : ℕ) (a : Option ActiveJob) (q : List Job) (hi : ℕ)
    → Chain lo (active_jobs a ++ q) hi
    → Chain lo (active_jobs a ++ retain p q) hi
thinned p lo none q hi c = Chain-retain p lo q hi c
thinned p lo (some a) q hi c = (c.0, c.1, Chain-retain p (suc a.job.id) q hi c.2)

thinned-IsSized :
    (p : Job → Bool) (a : Option ActiveJob) (q : List Job)
    → All IsSized (active_jobs a ++ q)
    → All IsSized (active_jobs a ++ retain p q)
thinned-IsSized p none q h = All-retain IsSized p q h
thinned-IsSized p (some a) q h = (h.0, All-retain IsSized p q h.1)

pub retain-Inv :
    (p : Job → Bool) (b : BrokerCore) → Inv b → Inv (record b { queue = retain p b.queue })
retain-Inv p b v = record {
  drained = λ e. ap (retain p) (v.drained e);
  bounded = omega (arith, length-retain-le p b.queue);
  sized = thinned-IsSized p b.active b.queue v.sized;
  fresh = λ lt. thinned p 0 b.active b.queue b.next_job_id (v.fresh lt);
  pot_current = v.pot_current;
  registry = v.registry;
}

-- The queue of a sound broker is sound on its own.
queue-Chain :
    (a : Option ActiveJob) (q : List Job) (hi : ℕ) → Chain 0 (active_jobs a ++ q) hi → Chain 0 q hi
queue-Chain none q hi c = c
queue-Chain (some a) q hi c = Chain-mono-lo (suc a.job.id) 0 q hi (omega arith) c.2

queue-IsSized :
    (a : Option ActiveJob) (q : List Job) → All IsSized (active_jobs a ++ q) → All IsSized q
queue-IsSized none q h = h
queue-IsSized (some a) q h = h.1

-- When the active job is over the keyer is handed on.
pub hand_on-Inv :
    (b c : BrokerCore) (clock : ℕ)
    → Inv b
    → c.active ≡ none
    → c.queue ≡ b.queue
    → c.next_job_id ≡ b.next_job_id
    → IsPotCurrent c
    → IsRegistry c.clients
    → Inv (start_next_or_restore c clock).0
hand_on-Inv b c clock v e q n current one =
    start-Inv c clock e (rw q v.bounded) (rw q (queue-IsSized b.active b.queue v.sized))
      (rw (q, n) (λ lt. queue-Chain b.active b.queue b.next_job_id (v.fresh lt))) current one

pub complete-Inv : (b : BrokerCore) (clock : ℕ) → Inv b → Inv (complete_active b clock).0
unfolding complete_active
complete-Inv b clock v = elim (Option-cases b.active) [
  | inl idle ↦ rw (idle, complete_active) v
  | inr (a, e) ↦
      rw (e, complete_active)
        (hand_on-Inv b (record b { active = none }) clock v refl refl refl v.pot_current v.registry)
]
