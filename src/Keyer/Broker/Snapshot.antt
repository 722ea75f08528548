-- ===== src/Keyer/Broker/Snapshot.antt =====
-- The view that status queries get of the scheduler (`snapshot` of winkeyer/broker.rs).
use Prim.Native.String.{String}
use cathub.Prelude.{
  ℕ, ◌≡◌, refl, Bool, false, not, ◌||◌, List, [], Option, none, some, arith, length,
}
use cathub.Keyer.Broker.State.{BrokerCore, ActiveJob, Note, new}
use cathub.Keyer.Broker.Requests.{is_idle}
use cathub.Keyer.Broker.Jobs.{jobs}
use cathub.Keyer.Broker.Steps.{Request, run}
use cathub.Keyer.Broker.Histories.{run-new-Inv}

pub record BrokerSnapshot : Type 0 where
  pub firmware_revision : Option ℕ
  pub connected : Bool
  pub busy : Bool
  pub break_in : Bool
  pub key_down : Bool
  pub pot_value : Option ℕ
  pub pot_wpm : Option ℕ
  pub active_client_id : Option ℕ
  pub active_job_id : Option ℕ
  pub queued_jobs : ℕ
  pub last_error : Option String
  pub last_safety_action : Option Note

abbrev pub client_of : Option ActiveJob → Option ℕ
client_of none = none
client_of (some a) = some a.job.client_id

abbrev pub id_of : Option ActiveJob → Option ℕ
id_of none = none
id_of (some a) = some a.job.id

abbrev pub snapshot : BrokerCore → BrokerSnapshot
snapshot b = record {
  firmware_revision = b.firmware_revision;
  connected = b.connected;
  busy = b.status.busy || not (is_idle b.active);
  break_in = b.status.break_in;
  key_down = b.status.key_down;
  pot_value = b.pot_value;
  pot_wpm = b.pot_wpm;
  active_client_id = client_of b.active;
  active_job_id = id_of b.active;
  queued_jobs = length b.queue;
  last_error = b.last_error;
  last_safety_action = b.last_safety_action;
}

none-of-idle : (o : Option ActiveJob) (x : Bool) → (x || not (is_idle o)) ≡ false → o ≡ none
none-of-idle none x h = refl
none-of-idle (some a) x h = ground arith

-- After every history of a new scheduler, a snapshot that is not busy is truthful: it names no
-- active job, and no job is active or queued.
pub snapshot-idle :
    (max_tx : ℕ) (rs : List Request)
    → (snapshot (run (new max_tx) rs).0).busy ≡ false
    → let b = (run (new max_tx) rs).0 in
      (jobs b ≡ []) × ((snapshot b).active_job_id ≡ none) × ((snapshot b).queued_jobs ≡ 0)
snapshot-idle max_tx rs h =
    let b = (run (new max_tx) rs).0 in
    let idle = none-of-idle b.active b.status.busy h in
    let drained = (run-new-Inv max_tx rs).drained idle in rw (idle, drained) (refl, refl, refl)
