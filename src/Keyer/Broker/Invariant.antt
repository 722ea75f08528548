-- ===== src/Keyer/Broker/Invariant.antt =====
-- What holds of the scheduler of winkeyer/broker.rs between two requests.
use cathub.Prelude.{
  ℕ, suc, ◌+◌, ◌≤◌, ◌<◌, ◌≡◌, refl, Bool, List, [], ◌∷◌, ◌++◌, none, arith, if◌then◌else◌, retain,
  length, All,
}
use cathub.Prelude.Map.{Map, IsSorted}
use cathub.Keyer.Broker.State.{
  BrokerCore, Job, ClientState, pot_speed, u64_max, max_job_bytes, max_queued_jobs,
}
use cathub.Keyer.Broker.Schedule.{
  restore_foreground_speed, start_job, start_from, start_next_or_restore,
}
use cathub.Keyer.Broker.Jobs.{jobs, IsDrained, start-jobs, start-IsDrained}

abbrev pub IsSized : Job → Type 0
IsSized j = (0 < length j.payload.wire_bytes) × (length j.payload.wire_bytes ≤ max_job_bytes)

-- Ids ascend from `lo` and stay below `hi`.
abbrev pub Chain : ℕ → List Job → ℕ → Type 0
Chain lo [] hi = Unit {0}
Chain lo (j ∷ js) hi = (lo ≤ j.id) × (j.id < hi) × Chain (suc j.id) js hi

-- The counter of ids saturates; below that the pending ids ascend.
abbrev pub IsFresh : List Job → ℕ → Type 0
IsFresh js next = next < u64_max → Chain 0 js next

-- The reported pot speed is the one that the pot and the minimum in force give.
abbrev pub IsPotCurrent : BrokerCore → Type 0
IsPotCurrent b = b.pot_wpm ≡ pot_speed b.physical_pot_min_wpm b.pot_value

abbrev pub primaries : Map ClientState → ℕ
primaries [] = 0
primaries ((id, c) ∷ m) = (if c.primary then 1 else 0) + primaries m

-- The clients stand in key order, and at most one is primary.
abbrev pub IsRegistry : Map ClientState → Type 0
IsRegistry m = IsSorted m × (primaries m ≤ 1)

pub record Inv (b : BrokerCore) : Type 0 where
  pub drained : IsDrained b
  pub bounded : length b.queue ≤ max_queued_jobs
  pub sized : All IsSized (jobs b)
  pub fresh : IsFresh (jobs b) b.next_job_id
  pub pot_current : IsPotCurrent b
  pub registry : IsRegistry b.clients

pub Chain-mono-lo :
    (lo lo' : ℕ) (js : List Job) (hi : ℕ) → lo' ≤ lo → Chain lo js hi → Chain lo' js hi
Chain-mono-lo lo lo' [] hi h c = tt
Chain-mono-lo lo lo' (j ∷ js) hi h c = (omega arith, c.1, c.2)

pub Chain-retain :
    (p : Job → Bool) (lo : ℕ) (js : List Job) (hi : ℕ) → Chain lo js hi → Chain lo (retain p js) hi
Chain-retain p lo [] hi c = tt
Chain-retain p lo (j ∷ js) hi c =
    ground
      (arith, Chain-retain p (suc j.id) js hi c.2, Chain-mono-lo (suc j.id) lo (retain p js) hi)

pub Chain-concat :
    (lo : ℕ) (js : List Job) (hi : ℕ) (j : Job)
    → lo ≤ hi
    → j.id ≡ hi
    → Chain lo js hi
    → Chain lo (js ++ j ∷ []) (hi + 1)
Chain-concat lo [] hi j h e c = (omega arith, omega arith, tt)
Chain-concat lo (k ∷ js) hi j h e c = (c.0, omega arith, Chain-concat (suc k.id) js hi j c.1 e c.2)

-- What handing the keyer on leaves alone.
abbrev pub Kept : BrokerCore → BrokerCore → Type 0
Kept b b' =
    (b'.clients ≡ b.clients)
    × (b'.next_job_id ≡ b.next_job_id)
    × (b'.max_tx ≡ b.max_tx)
    × (b'.connected ≡ b.connected)
    × (b'.status ≡ b.status)
    × (IsPotCurrent b → IsPotCurrent b')
    × (length b'.queue ≤ length b.queue)

pub restore-Kept : (b : BrokerCore) → Kept b (restore_foreground_speed b).0
unfolding restore_foreground_speed
restore-Kept b = ground arith

start_job-Kept : (j : Job) (b : BrokerCore) (clock : ℕ) → Kept b (start_job j b clock).0
unfolding start_job
start_job-Kept j b clock = ground arith

start_from-Kept :
    (js : List Job) (b : BrokerCore) (clock : ℕ) → b.queue ≡ js → Kept b (start_from js b clock).0
unfolding start_from
start_from-Kept [] b clock q = restore-Kept b
start_from-Kept (j ∷ rest) b clock q =
    ground (arith, start_job-Kept j (record b { queue = rest }) clock)

pub start-Kept : (b : BrokerCore) (clock : ℕ) → Kept b (start_next_or_restore b clock).0
unfolding start_next_or_restore
start-Kept b clock = start_from-Kept b.queue b clock refl

-- An idle scheduler with sound queue is sound once the keyer is handed on.
pub start-Inv :
    (b : BrokerCore) (clock : ℕ)
    → b.active ≡ none
    → length b.queue ≤ max_queued_jobs
    → All IsSized b.queue
    → IsFresh b.queue b.next_job_id
    → IsPotCurrent b
    → IsRegistry b.clients
    → Inv (start_next_or_restore b clock).0
start-Inv b clock idle bounded sized fresh current one =
    let k = start-Kept b clock in
    record {
      drained = start-IsDrained b clock;
      bounded = omega arith;
      sized = rw (start-jobs b clock idle) sized;
      fresh = rw (start-jobs b clock idle, k.1) fresh;
      pot_current = k.5 current;
      registry = rw k.0 one;
    }
