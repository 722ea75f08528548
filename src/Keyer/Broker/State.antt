-- ===== src/Keyer/Broker/State.antt =====
-- The data of winkeyer/broker.rs: speeds, jobs, clients and the state of the scheduler.
-- Instants and durations are numbers of one unit; the texts that the program formats with a client's
-- number are constructors of `Note`.
use Prim.Native.String.{String}
use cathub.Prelude.{
  ℕ, ◌-◌, ◌^◌, Bool, false, List, [], ◌∷◌, ◌++◌, Option, none, some, ◌==◌, if◌then◌else◌, get_elem?,
  saturating_add, Bytes,
}
use cathub.Prelude.Map.{Map, lookup}
use cathub.Keyer.Protocol.{DeviceStatus}

abbrev pub max_job_bytes : ℕ
max_job_bytes = 120

abbrev pub max_queued_jobs : ℕ
max_queued_jobs = 64

-- The largest `u64`.
abbrev pub u64_max : ℕ
u64_max = 2 ^ 64 - 1

pub data SpeedMode : Type 0 where
  pot : SpeedMode
  fixed : ℕ → SpeedMode

abbrev pub speed_command : SpeedMode → Bytes
speed_command pot = 0x02 ∷ 0 ∷ []
speed_command (fixed wpm) = 0x02 ∷ wpm ∷ []

pub data PhysicalAction : Type 0 where
  write : Bytes → PhysicalAction
  completed : ℕ → ℕ → PhysicalAction
  canceled : ℕ → ℕ → PhysicalAction

pub record TransmitPayload : Type 0 where
  pub wire_bytes : Bytes
  pub intended_text : Bytes

unfoldable pub plain_text : Bytes → TransmitPayload
plain_text text = record { wire_bytes = text; intended_text = text }

unfoldable pub legacy_stream : Bytes → Bytes → TransmitPayload
legacy_stream control_prefix text = record {
  wire_bytes = control_prefix ++ text;
  intended_text = text;
}

abbrev pub append : TransmitPayload → TransmitPayload → TransmitPayload
append p other = record {
  wire_bytes = p.wire_bytes ++ other.wire_bytes;
  intended_text = p.intended_text ++ other.intended_text;
}

pub record Job : Type 0 where
  pub id : ℕ
  pub client_id : ℕ
  pub payload : TransmitPayload
  pub speed : SpeedMode
  pub queued_at : ℕ
  pub stream : Bool

pub record ActiveJob : Type 0 where
  pub job : Job
  pub saw_busy : Bool
  pub observed_status : Bool
  pub started_at : ℕ

pub record ClientState : Type 0 where
  pub desired_speed : SpeedMode
  pub primary : Bool
  pub profile : Map Bytes

-- `last_safety_action` and `last_error`.
pub data Note : Type 0 where
  reason : String → Note
  active_client_disconnected : ℕ → Note

pub record BrokerCore : Type 0 where
  pub clients : Map ClientState
  pub applied_profile_client_id : Option ℕ
  pub queue : List Job
  pub active : Option ActiveJob
  pub next_job_id : ℕ
  pub firmware_revision : Option ℕ
  pub connected : Bool
  pub status : DeviceStatus
  pub pot_value : Option ℕ
  pub pot_wpm : Option ℕ
  pub physical_pot_min_wpm : ℕ
  pub last_error : Option String
  pub last_safety_action : Option Note
  pub max_tx : ℕ

abbrev pub Actions : Type 0
Actions = List PhysicalAction

-- What every mutating method returns: the new state and the side effects in order.
abbrev pub Outcome : Type 0
Outcome = BrokerCore × Actions

unfoldable pub new : ℕ → BrokerCore
new max_tx = record {
  clients = [];
  applied_profile_client_id = none;
  queue = [];
  active = none;
  next_job_id = 1;
  firmware_revision = none;
  connected = false;
  status = record {
    raw = 0xc0;
    waiting = false;
    key_down = false;
    busy = false;
    break_in = false;
    xoff = false;
  };
  pot_value = none;
  pot_wpm = none;
  physical_pot_min_wpm = 5;
  last_error = none;
  last_safety_action = none;
  max_tx = max_tx;
}

-- `refresh_pot_wpm`, with the saturating sum of two `u8`.
abbrev pub pot_speed : ℕ → Option ℕ → Option ℕ
pot_speed minimum none = none
pot_speed minimum (some offset) = some (saturating_add 255 minimum offset)

abbrev pub refresh_pot_wpm : BrokerCore → BrokerCore
refresh_pot_wpm b = record b { pot_wpm = pot_speed b.physical_pot_min_wpm b.pot_value }

abbrev pub speed_pot_minimum : Bytes → Option ℕ
speed_pot_minimum [] = none
speed_pot_minimum (opcode ∷ rest) = if opcode == 0x05 then get_elem? rest 0 else none

abbrev pub and_then {ℓ κ} : {A : Type ℓ} {B : Type κ} → Option A → (A → Option B) → Option B
and_then none f = none
and_then (some a) f = f a

unfoldable pub profile_pot_minimum : Map Bytes → Option ℕ
profile_pot_minimum profile = and_then (lookup 0x05 profile) speed_pot_minimum

-- The first client in key order that is primary.
unfoldable pub foreground : Map ClientState → Option (ℕ × ClientState)
foreground [] = none
foreground ((id, c) ∷ m) = if c.primary then some (id, c) else foreground m

abbrev pub write_all : List Bytes → Actions
write_all [] = []
write_all (c ∷ cs) = write c ∷ write_all cs

abbrev pub get_or : Option ℕ → ℕ → ℕ
get_or none d = d
get_or (some a) d = a
