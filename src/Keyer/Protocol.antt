-- ===== src/Keyer/Protocol.antt =====
-- crates/cathub/src/winkeyer/protocol.rs: framing of host commands, classification of device
-- bytes, and the policy of each command. A byte is a number below 256; `matches!` and ranges are
-- written as Boolean tests.
pub mod Framing
pub mod Streams
pub mod Device
mod Tests
use Prim.Native.Nat.{bit_and}
use cathub.Prelude.{
  ℕ, Bool, true, false, ◌||◌, ◌&&◌, not, List, [], ◌∷◌, ◌++◌, Option, none, some, ◌==◌, leb, ltb,
  if◌then◌else◌, length, get_elem?, is_id, is_empty, Bytes,
}

-- `a..=b` as a pattern.
abbrev pub within : ℕ → ℕ → ℕ → Bool
within a b c = leb a c && leb c b

pub data ClientItem : Type 0 where
  char : ℕ → ClientItem
  command : Bytes → ClientItem

pub record ClientParser : Type 0 where
  pub partial : Bytes
  pub expected_len : Option ℕ

abbrev pub idle : ClientParser
idle = record { partial = []; expected_len = none }

unfoldable pub initial_command_len : ℕ → Option ℕ
initial_command_len opcode =
    if within 0x00 0x03 opcode
      || opcode == 0x06
      || opcode == 0x09
      || within 0x0b 0x0e opcode
      || within 0x10 0x12 opcode
      || opcode == 0x14
      || within 0x16 0x1a opcode
      || within 0x1c 0x1d opcode
    then some 2
    else if opcode == 0x04 || opcode == 0x1b
    then some 3
    else if opcode == 0x05
    then some 4
    else if within 0x07 0x08 opcode
        || opcode == 0x0a
        || opcode == 0x13
        || opcode == 0x15
        || within 0x1e 0x1f opcode
    then some 1
    else if opcode == 0x0f
    then some 16
    else none

unfoldable pub admin_command_len : ℕ → ℕ
admin_command_len sub =
    if sub == 0x00 || sub == 0x04 || within 0x0e 0x0f sub || sub == 0x16 || sub == 0x19
    then 3
    else if sub == 0x0d
    then 258
    else if sub == 0x13
    then 4
    else 2

-- The new `expected_len`, from the bytes so far and the one before. The bound in the source's
-- `debug_assert!` is not a step of the program; it is the subject of Framing.
unfoldable pub refine_variable_length : Bytes → Option ℕ → Option ℕ
unfolding admin_command_len
refine_variable_length (opcode ∷ sub ∷ []) expected =
    if opcode == 0x00
    then some (if sub == 0x1c then 3 else admin_command_len sub)
    else if opcode == 0x16 && within 0x01 0x03 sub
    then some 3
    else expected
refine_variable_length _ expected = expected

-- The end of `push`: hand the command out once it has its length.
unfoldable pub complete : ClientParser → ClientParser × Option ClientItem
complete p =
    if is_id p.expected_len (length p.partial) then (idle, some (command p.partial)) else (p, none)

push_onto : Bytes → ClientParser → ℕ → ClientParser × Option ClientItem
unfolding complete initial_command_len refine_variable_length
push_onto [] p byte =
    if ltb 0x1f byte
    then (p, some (char byte))
    else complete (record { partial = byte ∷ []; expected_len = initial_command_len byte })
push_onto (c ∷ cs) p byte =
    let grown = (c ∷ cs) ++ byte ∷ [] in
    complete
      (record { partial = grown; expected_len = refine_variable_length grown p.expected_len })

unfoldable pub push : ClientParser → ℕ → ClientParser × Option ClientItem
unfolding push_onto
push p byte = push_onto p.partial p byte

pub reset : ClientParser → ClientParser
reset p = idle

unfoldable pub is_partial : ClientParser → Bool
is_partial p = not (is_empty p.partial)

-- What the device may send: its status bits and its events.
pub record DeviceStatus : Type 0 where
  pub raw : ℕ
  pub waiting : Bool
  pub key_down : Bool
  pub busy : Bool
  pub break_in : Bool
  pub xoff : Bool

abbrev pub bit : ℕ → ℕ → Bool
bit raw mask = not (bit_and raw mask == 0)

unfoldable pub status_from_byte : ℕ → DeviceStatus
status_from_byte raw = record {
  raw = raw;
  waiting = bit raw 0x10;
  key_down = bit raw 0x08;
  busy = bit raw 0x04;
  break_in = bit raw 0x02;
  xoff = bit raw 0x01;
}

pub data DeviceEvent : Type 0 where
  speed_pot : ℕ → ℕ → DeviceEvent
  status : DeviceStatus → DeviceEvent
  echo : ℕ → DeviceEvent

unfoldable pub event_from_byte : ℕ → DeviceEvent
unfolding status_from_byte
event_from_byte byte =
    if bit_and byte 0xc0 == 0x80
    then speed_pot byte (bit_and byte 0x3f)
    else if bit_and byte 0xc0 == 0xc0
    then status (status_from_byte byte)
    else echo byte

pub data CommandPolicy : Type 0 where
  virtualized transient active_owner maintenance : CommandPolicy

admin_policy : Option ℕ → CommandPolicy
admin_policy none = maintenance
admin_policy (some sub) =
    if within 0x02 0x07 sub || within 0x09 0x0b sub || within 0x14 0x15 sub || within 0x17 0x18 sub
    then virtualized
    else maintenance

unfoldable pub command_policy : Bytes → CommandPolicy
unfolding admin_policy
command_policy [] = maintenance
command_policy (opcode ∷ rest) =
    if opcode == 0x00
    then admin_policy (get_elem? rest 0)
    else if within 0x0a 0x0b opcode || opcode == 0x14 || opcode == 0x16 || within 0x18 0x1a opcode
    then active_owner
    else transient
