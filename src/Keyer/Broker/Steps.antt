-- ===== src/Keyer/Broker/Steps.antt =====
-- The scheduler of winkeyer/broker.rs as a machine: one constructor for each mutating method, with
-- the clock readings that the method makes, and histories of calls.
use Prim.Native.String.{String}
use cathub.Prelude.{
  ℕ, Bool, List, [], ◌∷◌, ◌++◌, Option, none, some, if◌then◌else◌, contains, Bytes,
}
use cathub.Keyer.Protocol.{DeviceStatus}
use cathub.Keyer.Broker.State.{BrokerCore, Outcome, Actions, SpeedMode, TransmitPayload}
use cathub.Keyer.Broker.Requests.{
  connect_physical, register_client, set_client_speed, set_client_command, enqueue,
}
use cathub.Keyer.Broker.Cancel.{
  physical_error, unregister_client, cancel_client, cancel_job, emergency_stop,
  record_safety_action, observe_status, confirm_idle_after_settle, observe_pot, watchdog,
  restore_foreground,
}
use cathub.Keyer.Broker.Jobs.{jobs, ids}

pub data Request : Type 0 where
  connects : ℕ → Request
  fails : String → Request
  registers : ℕ → Bool → Request
  unregisters : ℕ → ℕ → Request
  speeds : ℕ → SpeedMode → Request
  commands : ℕ → Bytes → Request
  enqueues : ℕ → TransmitPayload → Option SpeedMode → Bool → ℕ → ℕ → Request
  cancels : ℕ → Bool → ℕ → Request
  cancels_job : ℕ → ℕ → ℕ → Request
  stops : String → Request
  notes : String → Request
  observes : DeviceStatus → ℕ → Request
  settles : ℕ → ℕ → ℕ → Request
  pots : ℕ → Request
  watches : ℕ → Request
  restores : Request

abbrev pub actions_of : Option Actions → Actions
actions_of none = []
actions_of (some a) = a

abbrev pub reply_actions : Option (ℕ × Actions) → Actions
reply_actions none = []
reply_actions (some (id, a)) = a

unfoldable pub step : BrokerCore → Request → Outcome
step b (connects firmware) = (connect_physical firmware b, [])
step b (fails error) = physical_error error b
step b (registers id primary) = ((register_client id primary b).0, [])
step b (unregisters id clock) = unregister_client id clock b
step b (speeds id speed) = set_client_speed id speed b
step b (commands id cmd) =
    let (after, actions) = set_client_command id cmd b in (after, actions_of actions)
step b (enqueues id payload speed stream now clock) =
    let (after, reply) = enqueue id payload speed stream now clock b in (after, reply_actions reply)
step b (cancels id include_active clock) = cancel_client id include_active clock b
step b (cancels_job id job_id clock) =
    let (after, found, actions) = cancel_job id job_id clock b in (after, actions)
step b (stops why) = emergency_stop why b
step b (notes action) = (record_safety_action action b, [])
step b (observes status clock) = observe_status status clock b
step b (settles now settle clock) = confirm_idle_after_settle now settle clock b
step b (pots value) = (observe_pot value b, [])
step b (watches now) = watchdog now b
step b restores = restore_foreground b

-- The id of the job that a call opens: the one `enqueue` returns, unless it is pending already.
abbrev pub opened_by : List ℕ → Option (ℕ × Actions) → List ℕ
opened_by pending none = []
opened_by pending (some (id, actions)) = if contains pending id then [] else id ∷ []

unfoldable pub opened : BrokerCore → Request → List ℕ
opened b (enqueues id payload speed stream now clock) =
    opened_by (ids (jobs b)) (enqueue id payload speed stream now clock b).1
opened b _ = []

unfoldable pub run : BrokerCore → List Request → Outcome
run b [] = (b, [])
run b (r ∷ rs) = let (c, first) = step b r in let (d, rest) = run c rs in (d, first ++ rest)
