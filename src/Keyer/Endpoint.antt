-- ===== src/Keyer/Endpoint.antt =====
-- crates/cathub/src/winkeyer/endpoint.rs: the session of a virtual keyer. What it does, to the
-- scheduler's actor or to its client, is a list of effects; `accepts` says of each whether the actor
-- takes it, or the client's port the byte. The snapshot is the one at the time of the read.
pub mod Spelled
pub mod Parsing
pub mod Effects
pub mod Permitted
pub mod Status
pub mod Texting
mod Tests
use Prim.Native.Nat.{bit_and, bit_or}
use cathub.Prelude.{
  ℕ, ◌*◌, Bool, true, false, not, ◌&&◌, ◌||◌, List, [], ◌∷◌, ◌++◌, Option, none, some, ◌==◌, leb,
  if◌then◌else◌, is_empty, get_elem?, is_id, equal, Bytes,
}
use cathub.Prelude.Text.{text}
use cathub.Keyer.Protocol.{
  within, ClientItem, char, command, ClientParser, idle, push, is_partial, CommandPolicy,
  virtualized, transient, active_owner, maintenance, command_policy,
}
use cathub.Keyer.Broker.State.{SpeedMode, pot, fixed}
use cathub.Keyer.Broker.Snapshot.{BrokerSnapshot}

pub record EndpointPermissions : Type 0 where
  pub status : Bool
  pub send : Bool
  pub control : Bool
  pub ptt : Bool
  pub config_write : Bool

unfoldable pub grant : Bytes → EndpointPermissions → EndpointPermissions
grant token p =
    if equal token (text "status")
    then record p { status = true }
    else if equal token (text "send")
    then record p { send = true }
    else if equal token (text "control")
    then record p { control = true }
    else if equal token (text "ptt")
    then record p { ptt = true }
    else if equal token (text "config_write")
    then record p { config_write = true }
    else p

unfoldable pub grant_all : List Bytes → EndpointPermissions → EndpointPermissions
grant_all [] p = p
grant_all (token ∷ tokens) p = grant_all tokens (grant token p)

abbrev pub from_tokens : List Bytes → EndpointPermissions
from_tokens tokens =
    grant_all tokens
      (record { status = false; send = false; control = false; ptt = false; config_write = false })

pub data SessionMode : Type 0 where
  wk1 wk2 wk3 : SessionMode

pub data Effect : Type 0 where
  streams : (control_prefix intended_text : Bytes) → Effect
  cancels releases_maintenance unregisters : Effect
  sets_speed : SpeedMode → Effect
  configures owner_command maintains : Bytes → Effect
  sends : ℕ → Effect

pub record Endpoint : Type 0 where
  pub parser : ClientParser
  pub opened : Bool
  pub maintenance_active : Bool
  pub session_mode : SessionMode

-- The state, the effects in order, and whether the session goes on.
pub record Turn : Type 0 where
  pub endpoint : Endpoint
  pub effects : List Effect
  pub goes_on : Bool

abbrev pub stay : Endpoint → List Effect → Turn
stay e effects = record { endpoint = e; effects = effects; goes_on = true }

-- An effect on whose success the session depends.
abbrev pub attempt : (Effect → Bool) → Effect → Endpoint → Endpoint → Turn
attempt accepts effect before later =
    if accepts effect
    then stay later (effect ∷ [])
    else record { endpoint = before; effects = effect ∷ []; goes_on = false }

abbrev pub refuse : Endpoint → Turn
refuse e = record { endpoint = e; effects = []; goes_on = false }

abbrev pub maintain : EndpointPermissions → (Effect → Bool) → Bytes → Endpoint → Turn
maintain p accepts cmd e =
    if p.config_write
    then attempt accepts (maintains cmd) e (record e { maintenance_active = true })
    else refuse e

abbrev pub or_byte : Option ℕ → ℕ → ℕ
or_byte none other = other
or_byte (some byte) other = byte

abbrev pub answer : (Effect → Bool) → ℕ → Endpoint → Turn
answer accepts byte e = attempt accepts (sends byte) e e

abbrev pub answer_third : (Effect → Bool) → Option ℕ → Endpoint → Turn
answer_third accepts none e = stay e []
answer_third accepts (some byte) e = answer accepts byte e

unfoldable pub admin_subcommand :
    EndpointPermissions → (Effect → Bool) → BrokerSnapshot → Bytes → ℕ → Endpoint → Turn
admin_subcommand p accepts s cmd sub e =
    let mode_set = λ (m : SessionMode). stay (record e { session_mode = m }) [] in
    if sub == 0x02 && p.status
    then answer accepts (or_byte s.firmware_revision 0xff)
        (record e { opened = true; session_mode = wk1 })
    else if sub == 0x03
    then stay (record e { opened = false; maintenance_active = false }) (releases_maintenance ∷ [])
    else if sub == 0x04 && p.status
    then answer_third accepts (get_elem? cmd 2) e
    else if (within 0x05 0x07 sub || sub == 0x15 || within 0x17 0x18 sub) && p.status
    then answer accepts 0 e
    else if sub == 0x09 && p.status
    then answer accepts (or_byte s.firmware_revision 0xff) e
    else if sub == 0x0a && p.control
    then mode_set wk1
    else if sub == 0x0b && p.control
    then mode_set wk2
    else if sub == 0x14 && p.control
    then mode_set wk3
    else if (sub == 0x0f || sub == 0x13 || sub == 0x16 || sub == 0x19) && p.control
    then stay e (configures cmd ∷ [])
    else maintain p accepts cmd e

abbrev pub of_subcommand :
    EndpointPermissions → (Effect → Bool) → BrokerSnapshot → Bytes → Option ℕ → Endpoint → Turn
of_subcommand p accepts s cmd none e = stay e []
of_subcommand p accepts s cmd (some sub) e = admin_subcommand p accepts s cmd sub e

unfoldable pub handle_admin :
    EndpointPermissions → (Effect → Bool) → BrokerSnapshot → Bytes → Endpoint → Turn
unfolding admin_subcommand
handle_admin p accepts s cmd e = of_subcommand p accepts s cmd (get_elem? cmd 1) e

abbrev pub parse_speed : ℕ → Option SpeedMode
parse_speed value =
    if value == 0 then some pot else if within 5 99 value then some (fixed value) else none

abbrev pub speed_of : Option ℕ → Option SpeedMode
speed_of none = none
speed_of (some value) = parse_speed value

abbrev pub speed_effects : Option SpeedMode → List Effect
speed_effects none = []
speed_effects (some speed) = sets_speed speed ∷ []

abbrev pub bit_if : Bool → ℕ → ℕ
bit_if on mask = if on then mask else 0

abbrev pub shows_key : SessionMode → Bool
shows_key wk1 = true
shows_key wk2 = false
shows_key wk3 = false

unfoldable pub synthesize_status : BrokerSnapshot → SessionMode → ℕ
synthesize_status s mode =
    bit_or (bit_or (bit_or 0xc0 (bit_if (shows_key mode && s.key_down) 0x08)) (bit_if s.busy 0x04))
      (bit_if s.break_in 0x02)

unfoldable pub status_for_mode : ℕ → SessionMode → ℕ
status_for_mode raw wk1 = raw
status_for_mode raw wk2 = bit_and raw 0xf7
status_for_mode raw wk3 = bit_and raw 0xf7

abbrev pub pot_byte : Option ℕ → ℕ
pot_byte value = bit_or 0x80 (bit_and (or_byte value 0) 0x3f)

abbrev pub by_policy :
    CommandPolicy → EndpointPermissions → (Effect → Bool) → Bytes → ℕ → Endpoint → Turn
by_policy virtualized p accepts cmd opcode e = stay e []
by_policy transient p accepts cmd opcode e = stay e (if p.control then configures cmd ∷ [] else [])
by_policy active_owner p accepts cmd opcode e =
    stay e (if p.control && (not (opcode == 0x0b) || p.ptt) then owner_command cmd ∷ [] else [])
by_policy maintenance p accepts cmd opcode e = maintain p accepts cmd e

unfoldable pub handle_command :
    EndpointPermissions → (Effect → Bool) → BrokerSnapshot → Bytes → Endpoint → Turn
unfolding handle_admin synthesize_status command_policy
handle_command p accepts s [] e = stay e []
handle_command p accepts s (opcode ∷ rest) e =
    if opcode == 0x00
    then handle_admin p accepts s (opcode ∷ rest) e
    else if not e.opened
    then stay e []
    else if opcode == 0x02 && p.control
    then stay e (speed_effects (speed_of (get_elem? rest 0)))
    else if opcode == 0x07 && p.status
    then answer accepts (pot_byte s.pot_value) e
    else if opcode == 0x15 && p.status
    then answer accepts (synthesize_status s e.session_mode) e
    else by_policy (command_policy (opcode ∷ rest)) p accepts (opcode ∷ rest) opcode e

abbrev pub is_buffered : Bytes → Bool
is_buffered [] = false
is_buffered (opcode ∷ rest) = within 0x18 0x1f opcode

abbrev pub buffered_allowed : Bytes → EndpointPermissions → Bool
buffered_allowed [] p = true
buffered_allowed (opcode ∷ rest) p = not (opcode == 0x18 || opcode == 0x19) || p.ptt

abbrev pub is_clear : Bytes → Bool
is_clear [] = false
is_clear (opcode ∷ rest) = opcode == 0x0a

-- A read in progress: the turn so far, and what waits to be streamed.
pub record Reading : Type 0 where
  pub turn : Turn
  pub buffered_prefix : Bytes
  pub intended_text : Bytes

-- `flush_stream`.
unfoldable pub flush_stream : (Effect → Bool) → Reading → Reading
flush_stream accepts r =
    if is_empty r.buffered_prefix && is_empty r.intended_text
    then r
    else let effect = streams r.buffered_prefix r.intended_text in
      record {
        turn = record r.turn { effects = r.turn.effects ++ effect ∷ []; goes_on = accepts effect };
        buffered_prefix = [];
        intended_text = [];
      }

abbrev pub and_then : Reading → (Endpoint → Turn) → Reading
and_then r f =
    let t = f r.turn.endpoint in
    if r.turn.goes_on
    then record r { turn = record t { effects = r.turn.effects ++ t.effects } }
    else r

abbrev pub add_prefix : Bytes → Reading → Reading
add_prefix cmd r =
    if r.turn.goes_on then record r { buffered_prefix = r.buffered_prefix ++ cmd } else r

abbrev pub clear : EndpointPermissions → Reading → Reading
clear p r = record {
  turn = record r.turn { effects = r.turn.effects ++ (if p.send then cancels ∷ [] else []) };
  buffered_prefix = [];
  intended_text = [];
}

unfoldable pub on_item :
    EndpointPermissions → (Effect → Bool) → BrokerSnapshot → ClientItem → Reading → Reading
unfolding flush_stream handle_command
on_item p accepts s (char byte) r =
    if r.turn.endpoint.opened && p.send
    then record r { intended_text = r.intended_text ++ byte ∷ [] }
    else r
on_item p accepts s (command cmd) r =
    if is_clear cmd
    then clear p r
    else if is_buffered cmd
    then (if r.turn.endpoint.opened && p.send && buffered_allowed cmd p
        then add_prefix cmd (if is_empty r.intended_text then r else flush_stream accepts r)
        else r)
    else and_then (flush_stream accepts r) (handle_command p accepts s cmd)

abbrev pub with_parser : ClientParser → Reading → Reading
with_parser parser r = record r {
  turn = record r.turn { endpoint = record r.turn.endpoint { parser = parser } };
}

abbrev pub on_optional :
    EndpointPermissions → (Effect → Bool) → BrokerSnapshot → Option ClientItem → Reading → Reading
on_optional p accepts s none r = r
on_optional p accepts s (some item) r = on_item p accepts s item r

abbrev pub on_byte : EndpointPermissions → (Effect → Bool) → BrokerSnapshot → ℕ → Reading → Reading
on_byte p accepts s byte r =
    let (parser, item) = push r.turn.endpoint.parser byte in
    on_optional p accepts s item (with_parser parser r)

unfoldable pub on_bytes :
    EndpointPermissions → (Effect → Bool) → BrokerSnapshot → Bytes → Reading → Reading
unfolding on_item push
on_bytes p accepts s [] r = r
on_bytes p accepts s (byte ∷ bytes) r =
    let next = on_byte p accepts s byte r in
    if r.turn.goes_on then on_bytes p accepts s bytes next else r

-- One read of the client's port.
unfoldable pub on_read :
    EndpointPermissions → (Effect → Bool) → BrokerSnapshot → Bytes → Endpoint → Turn
unfolding on_bytes flush_stream
on_read p accepts s bytes e =
    let r =
      on_bytes p accepts s bytes
        (record { turn = stay e []; buffered_prefix = []; intended_text = [] }) in
    if r.turn.goes_on then (flush_stream accepts r).turn else r.turn

-- The tick of the parser: `waited` milliseconds since the last byte.
abbrev pub partial_command_timeout : ℕ
partial_command_timeout = 500

unfoldable pub on_tick : ℕ → Endpoint → Endpoint
unfolding is_partial
on_tick waited e =
    if is_partial e.parser && leb partial_command_timeout waited
    then record e { parser = idle }
    else e

-- What the actor broadcasts, as far as the session looks at it.
pub data BrokerEvent : Type 0 where
  connected_event error_event : BrokerEvent
  speed_pot_event status_event echo_event : ℕ → BrokerEvent
  maintenance_byte : (client_id byte : ℕ) → BrokerEvent
  completed_event canceled_event : BrokerEvent

unfoldable pub event_byte :
    BrokerSnapshot → (client_id : ℕ) → (primary : Bool) → SessionMode → BrokerEvent → Option ℕ
unfolding synthesize_status status_for_mode
event_byte s client_id primary mode (speed_pot_event raw) = some raw
event_byte s client_id primary mode (status_event raw) = some (status_for_mode raw mode)
event_byte s client_id primary mode completed_event = some 0xc0
event_byte s client_id primary mode canceled_event = some (synthesize_status s mode)
event_byte s client_id primary mode (echo_event byte) =
    if is_id s.active_client_id client_id || (primary && s.break_in) then some byte else none
event_byte s client_id primary mode (maintenance_byte owner byte) =
    if owner == client_id then some byte else none
event_byte s client_id primary mode connected_event = none
event_byte s client_id primary mode error_event = none

-- Whether events are received at all.
abbrev pub listens : EndpointPermissions → Endpoint → Bool
listens p e = p.status && (e.opened || e.maintenance_active)

-- The end of the session.
abbrev pub farewell : List Effect
farewell = releases_maintenance ∷ unregisters ∷ []
