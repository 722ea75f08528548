-- ===== src/Keyer/Broker/Jobs.antt =====
-- The scheduler of winkeyer/broker.rs seen as one first-in first-out list of jobs: the active one,
-- then the queue.
use cathub.Prelude.{
  ℕ, ◌≡◌, refl, ap, ◌∙◌, Bool, true, false, List, [], ◌∷◌, ◌++◌, Option, none, some, arith,
  if◌then◌else◌, Bytes,
}
use cathub.Keyer.Broker.State.{
  BrokerCore, Actions, write, completed, canceled, Job, ActiveJob, write_all, foreground, SpeedMode,
  ClientState,
}
use cathub.Keyer.Broker.Schedule.{
  restore_to, restore_foreground_speed, start_job, start_from, start_next_or_restore, speed_write,
}
use cathub.Keyer.Broker.Cancel.{cancel_all, cancel_active}

abbrev pub active_jobs : Option ActiveJob → List Job
active_jobs none = []
active_jobs (some a) = a.job ∷ []

abbrev pub jobs : BrokerCore → List Job
jobs b = active_jobs b.active ++ b.queue

abbrev pub ids : List Job → List ℕ
ids [] = []
ids (j ∷ js) = j.id ∷ ids js

-- The jobs that the actions report as over.
abbrev pub ended : Actions → List ℕ
ended [] = []
ended (write bytes ∷ r) = ended r
ended (completed id client ∷ r) = id ∷ ended r
ended (canceled id client ∷ r) = id ∷ ended r

pub ended-append : (xs ys : Actions) → ended (xs ++ ys) ≡ ended xs ++ ended ys
ended-append [] ys = refl
ended-append (write bytes ∷ r) ys = ended-append r ys
ended-append (completed id client ∷ r) ys = ap (◌∷◌ id) (ended-append r ys)
ended-append (canceled id client ∷ r) ys = ap (◌∷◌ id) (ended-append r ys)

pub ended-write_all : (cs : List Bytes) → ended (write_all cs) ≡ []
ended-write_all [] = refl
ended-write_all (c ∷ cs) = ended-write_all cs

pub ended-cancel_all : (js : List Job) → ended (cancel_all js) ≡ ids js
ended-cancel_all [] = refl
ended-cancel_all (j ∷ js) = ap (◌∷◌ j.id) (ended-cancel_all js)

pub ended-cancel_active : (a : Option ActiveJob) → ended (cancel_active a) ≡ ids (active_jobs a)
ended-cancel_active none = refl
ended-cancel_active (some a) = refl

ended-speed_write : (payload : Bytes) (speed : SpeedMode) → ended (speed_write payload speed) ≡ []
ended-speed_write [] speed = refl
ended-speed_write (c ∷ cs) speed = ground arith

-- Restoring the foreground client changes no job, and reports none.
pub restore-jobs : (b : BrokerCore) → jobs (restore_foreground_speed b).0 ≡ jobs b
unfolding restore_foreground_speed
restore-jobs b = ground arith

-- A conditional replay of a profile reports no job.
ended-replay :
    (changed : Bool) (cs : List Bytes) → ended (if changed then write_all cs else []) ≡ []
ended-replay true cs = ended-write_all cs
ended-replay false cs = refl

restore_to-ended : (f : Option (ℕ × ClientState)) (b : BrokerCore) → ended (restore_to f b).1 ≡ []
unfolding restore_to
restore_to-ended none b = refl
restore_to-ended (some (id, client)) b = rw (ended-append, ended-replay) refl

pub restore-ended : (b : BrokerCore) → ended (restore_foreground_speed b).1 ≡ []
unfolding restore_foreground_speed
restore-ended b = restore_to-ended (foreground b.clients) b

start_job-ended : (j : Job) (b : BrokerCore) (clock : ℕ) → ended (start_job j b clock).1 ≡ []
unfolding start_job
start_job-ended j b clock = rw (ended-append, ended-append, ended-replay, ended-speed_write) refl

start_job-jobs : (j : Job) (b : BrokerCore) (clock : ℕ) → jobs (start_job j b clock).0 ≡ j ∷ b.queue
unfolding start_job
start_job-jobs j b clock = ground arith

start_from-jobs :
    (js : List Job) (b : BrokerCore) (clock : ℕ)
    → b.active ≡ none
    → b.queue ≡ js
    → jobs (start_from js b clock).0 ≡ js
unfolding start_from
start_from-jobs [] b clock e q = restore-jobs b ∙ rw (e, q)
start_from-jobs (j ∷ rest) b clock e q = start_job-jobs j (record b { queue = rest }) clock

start_from-ended :
    (js : List Job) (b : BrokerCore) (clock : ℕ) → ended (start_from js b clock).1 ≡ []
unfolding start_from
start_from-ended [] b clock = restore-ended b
start_from-ended (j ∷ rest) b clock = start_job-ended j (record b { queue = rest }) clock

-- An idle keyer is handed to the head of the queue: the job list is then the queue.
pub start-jobs :
    (b : BrokerCore) (clock : ℕ)
    → b.active ≡ none
    → jobs (start_next_or_restore b clock).0 ≡ b.queue
unfolding start_next_or_restore
start-jobs b clock e = start_from-jobs b.queue b clock e refl

pub start-ended : (b : BrokerCore) (clock : ℕ) → ended (start_next_or_restore b clock).1 ≡ []
unfolding start_next_or_restore
start-ended b clock = start_from-ended b.queue b clock

-- After the hand-over the keyer is idle only if no job is left.
abbrev pub IsDrained : BrokerCore → Type 0
IsDrained b = b.active ≡ none → b.queue ≡ []

start_from-IsDrained :
    (js : List Job) (b : BrokerCore) (clock : ℕ)
    → b.queue ≡ js
    → IsDrained (start_from js b clock).0
unfolding start_from restore_foreground_speed start_job
start_from-IsDrained [] b clock q = ground arith
start_from-IsDrained (j ∷ rest) b clock q = ground arith

pub start-IsDrained : (b : BrokerCore) (clock : ℕ) → IsDrained (start_next_or_restore b clock).0
unfolding start_next_or_restore
start-IsDrained b clock = start_from-IsDrained b.queue b clock refl
