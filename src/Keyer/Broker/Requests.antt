-- ===== src/Keyer/Broker/Requests.antt =====
-- Registration, profiles and new jobs (winkeyer/broker.rs). `client_profile_key` is the key that
-- `set_client_command` files a command under; `None` on a missing byte is the early return of `?`.
use Prim.Native.Nat.{bit_or}
use cathub.Prelude.{
  ℕ, ◌+◌, Bool, true, false, not, ◌&&◌, ◌||◌, List, [], ◌∷◌, ◌++◌, Option, none, some, ◌==◌, ltb,
  leb, if◌then◌else◌, length, is_empty, get_elem?, is_id, saturating_add, Bytes,
}
use cathub.Prelude.Map.{Map, lookup, insert}
use cathub.Keyer.Broker.State.{
  BrokerCore, Outcome, Actions, Job, ActiveJob, ClientState, TransmitPayload, append, SpeedMode,
  pot, speed_command, write, refresh_pot_wpm, speed_pot_minimum, and_then, max_job_bytes,
  max_queued_jobs, u64_max,
}
use cathub.Keyer.Broker.Schedule.{start_next_or_restore}

unfoldable pub connect_physical : ℕ → BrokerCore → BrokerCore
connect_physical firmware b = record b {
  firmware_revision = some firmware;
  connected = true;
  applied_profile_client_id = none;
  last_error = none;
}

unfoldable pub any_primary : Map ClientState → Bool
any_primary [] = false
any_primary ((id, c) ∷ m) = c.primary || any_primary m

unfoldable pub register_client : ℕ → Bool → BrokerCore → BrokerCore × Bool
unfolding any_primary
register_client id primary b = if primary && any_primary b.clients then (b, false) else (
  record b {
    clients = insert id (record { desired_speed = pot; primary = primary; profile = [] }) b.clients;
  },
  true,
)

-- `self.active.is_none()`.
abbrev pub is_idle : Option ActiveJob → Bool
is_idle none = true
is_idle (some a) = false

unfoldable pub set_speed_of : Option ClientState → ℕ → SpeedMode → BrokerCore → Outcome
set_speed_of none id speed b = (b, [])
set_speed_of (some client) id speed b = (
  record b { clients = insert id (record client { desired_speed = speed }) b.clients },
  if is_idle b.active && client.primary then write (speed_command speed) ∷ [] else [],
)

unfoldable pub set_client_speed : ℕ → SpeedMode → BrokerCore → Outcome
unfolding set_speed_of
set_client_speed id speed b = set_speed_of (lookup id b.clients) id speed b

unfoldable pub client_profile_key : Bytes → Option ℕ
client_profile_key [] = none
client_profile_key (opcode ∷ rest) =
    if opcode == 0x00
    then and_then (get_elem? rest 0) (λ sub. some (bit_or 0x100 sub))
    else some opcode

abbrev pub with_command_minimum : Option ℕ → BrokerCore → BrokerCore
with_command_minimum none b = b
with_command_minimum (some minimum) b =
    refresh_pot_wpm (record b { physical_pot_min_wpm = minimum })

unfoldable pub store_command :
    Option ClientState → ℕ → ℕ → Bytes → BrokerCore → BrokerCore × Option Actions
store_command none key id cmd b = (b, none)
store_command (some client) key id cmd b =
    let filed = record b {
      clients = insert id (record client { profile = insert key cmd client.profile }) b.clients;
    } in
    if is_idle b.active && client.primary
    then (
      record (with_command_minimum (speed_pot_minimum cmd) filed) {
        applied_profile_client_id = some id;
      },
      some (write cmd ∷ []),
    )
    else (
      record filed {
        applied_profile_client_id =
            if is_id b.applied_profile_client_id id then none else b.applied_profile_client_id;
      },
      some [],
    )

unfoldable pub store_under : Option ℕ → ℕ → Bytes → BrokerCore → BrokerCore × Option Actions
unfolding store_command
store_under none id cmd b = (b, none)
store_under (some key) id cmd b = store_command (lookup id b.clients) key id cmd b

unfoldable pub set_client_command : ℕ → Bytes → BrokerCore → BrokerCore × Option Actions
unfolding store_under client_profile_key
set_client_command id cmd b = store_under (client_profile_key cmd) id cmd b

abbrev pub is_primary : Option ClientState → Bool
is_primary none = false
is_primary (some client) = client.primary

abbrev pub owns : Option ActiveJob → Option ClientState → ℕ → Bool
owns none client id = is_primary client
owns (some a) client id = a.job.client_id == id

unfoldable pub active_owner_command : ℕ → Bytes → BrokerCore → Option Actions
active_owner_command id cmd b =
    if owns b.active (lookup id b.clients) id then some (write cmd ∷ []) else none

-- Whether a stream of this client may go on in this job.
abbrev pub continues : Job → ℕ → Bool
continues job id = job.client_id == id && job.stream

abbrev pub extend_job : Job → TransmitPayload → Job
extend_job job payload = record job { payload = append job.payload payload }

abbrev pub overflows : Job → TransmitPayload → Bool
overflows job payload =
    ltb max_job_bytes (length job.payload.wire_bytes + length payload.wire_bytes)

-- `enqueue` returns the job's id and the actions, or `None`.
abbrev pub Reply : Type 0
Reply = BrokerCore × Option (ℕ × Actions)

unfoldable pub start_if_idle : Option ActiveJob → BrokerCore → ℕ → Outcome
start_if_idle none b clock = start_next_or_restore b clock
start_if_idle (some a) b clock = (b, [])

unfoldable pub queue_job :
    ClientState → ℕ → TransmitPayload → Option SpeedMode → Bool → ℕ → ℕ → BrokerCore → Reply
unfolding start_if_idle
queue_job client id payload speed stream now clock b =
    if leb max_queued_jobs (length b.queue)
    then (b, none)
    else let job : Job = record {
      id = b.next_job_id;
      client_id = id;
      payload = payload;
      speed = elim speed [ none ↦ client.desired_speed | some s ↦ s ];
      queued_at = now;
      stream = stream;
    } in
      let queued = record b {
        next_job_id = saturating_add u64_max b.next_job_id 1;
        queue = b.queue ++ job ∷ [];
      } in
      let (after, actions) = start_if_idle b.active queued clock in
      (after, some (b.next_job_id, actions))

-- `self.queue.back_mut()`.
unfoldable pub get_last? : List Job → Option Job
get_last? [] = none
get_last? (j ∷ []) = some j
get_last? (j ∷ k ∷ js) = get_last? (k ∷ js)

unfoldable pub extend_last : TransmitPayload → List Job → List Job
extend_last p [] = []
extend_last p (j ∷ []) = extend_job j p ∷ []
extend_last p (j ∷ k ∷ js) = j ∷ extend_last p (k ∷ js)

unfoldable pub continue_last : Option Job → TransmitPayload → ℕ → BrokerCore → Reply → Reply
unfolding extend_last
continue_last none payload id b otherwise = otherwise
continue_last (some queued) payload id b otherwise =
    if continues queued id
    then (if overflows queued payload
        then (b, none)
        else (record b { queue = extend_last payload b.queue }, some (queued.id, [])))
    else otherwise

unfoldable pub continue_active : Option ActiveJob → TransmitPayload → ℕ → BrokerCore → Reply → Reply
continue_active none payload id b otherwise = otherwise
continue_active (some a) payload id b otherwise =
    if continues a.job id
    then (if overflows a.job payload then (b, none) else (
      record b { active = some (record a { job = extend_job a.job payload }) },
      some (a.job.id, write payload.wire_bytes ∷ []),
    ))
    else otherwise

unfoldable pub accept :
    Option ClientState → ℕ → TransmitPayload → Option SpeedMode → Bool → ℕ → ℕ → BrokerCore → Reply
unfolding queue_job continue_last continue_active get_last?
accept none id payload speed stream now clock b = (b, none)
accept (some client) id payload speed stream now clock b =
    let fresh = queue_job client id payload speed stream now clock b in
    if stream
    then continue_active b.active payload id b
        (continue_last (get_last? b.queue) payload id b fresh)
    else fresh

unfoldable pub enqueue : ℕ → TransmitPayload → Option SpeedMode → Bool → ℕ → ℕ → BrokerCore → Reply
unfolding accept
enqueue id payload speed stream now clock b =
    if is_empty payload.wire_bytes
      || ltb max_job_bytes (length payload.wire_bytes)
      || not b.connected
    then (b, none)
    else accept (lookup id b.clients) id payload speed stream now clock b
