-- ===== src/VirtualSerial/Version.antt =====
-- Versions, message kinds and flags of protocol.rs.
use Prim.Native.Nat.{bit_and}
use cathub.Prelude.{
  ℕ, ◌≤◌, ◌≡◌, refl, Bool, not, ◌&&◌, ◌||◌, Option, none, some, arith, ◌==◌, ltb, leb,
  if◌then◌else◌,
}
use cathub.VirtualSerial.Wire.{unknown_message_kind, Result, ok, err}

pub record ProtocolVersion : Type 0 where
  pub major : ℕ
  pub minor : ℕ

-- The derived order: by `major`, then by `minor`.
abbrev pub at_most : ProtocolVersion → ProtocolVersion → Bool
at_most v w = ltb v.major w.major || (v.major == w.major && leb v.minor w.minor)

-- `Ord::max` and `Ord::min`.
abbrev pub greater : ProtocolVersion → ProtocolVersion → ProtocolVersion
greater v w = if at_most v w then w else v

abbrev pub lesser : ProtocolVersion → ProtocolVersion → ProtocolVersion
lesser v w = if at_most v w then v else w

unfoldable pub negotiate :
    ProtocolVersion → ProtocolVersion → ProtocolVersion → ProtocolVersion → Option ProtocolVersion
negotiate local_min local_max peer_min peer_max =
    if not (local_min.major == local_max.major)
      || not (peer_min.major == peer_max.major)
      || not (local_max.major == peer_max.major)
    then none
    else (let minimum = greater local_min peer_min in
        let maximum = lesser local_max peer_max in
        if at_most minimum maximum then some maximum else none)

pub data MessageKind : Type 0 where
  hello hello_ack discover endpoint discover_complete attach attach_ack detach data_bytes :
      MessageKind
  window_update serial_config modem_control modem_status application_open : MessageKind
  application_close cancel purge health health_ack error : MessageKind

-- The discriminants of `#[repr(u16)]`.
abbrev pub code : MessageKind → ℕ
code hello = 1
code hello_ack = 2
code discover = 3
code endpoint = 4
code discover_complete = 5
code attach = 6
code attach_ack = 7
code detach = 8
code data_bytes = 9
code window_update = 10
code serial_config = 11
code modem_control = 12
code modem_status = 13
code application_open = 14
code application_close = 15
code cancel = 16
code purge = 17
code health = 18
code health_ack = 19
code error = 20

unfoldable pub try_from : ℕ → Result MessageKind
try_from value =
    if value == 1
    then ok hello
    else if value == 2
    then ok hello_ack
    else if value == 3
    then ok discover
    else if value == 4
    then ok endpoint
    else if value == 5
    then ok discover_complete
    else if value == 6
    then ok attach
    else if value == 7
    then ok attach_ack
    else if value == 8
    then ok detach
    else if value == 9
    then ok data_bytes
    else if value == 10
    then ok window_update
    else if value == 11
    then ok serial_config
    else if value == 12
    then ok modem_control
    else if value == 13
    then ok modem_status
    else if value == 14
    then ok application_open
    else if value == 15
    then ok application_close
    else if value == 16
    then ok cancel
    else if value == 17
    then ok purge
    else if value == 18
    then ok health
    else if value == 19
    then ok health_ack
    else if value == 20
    then ok error
    else err (unknown_message_kind value)

abbrev pub contains_flags : ℕ → ℕ → Bool
contains_flags flags other = bit_and flags other == other

-- The number of a kind is read back as that kind.
pub try_from-code : (kind : MessageKind) → try_from (code kind) ≡ ok kind
unfolding try_from
try_from-code hello = refl
try_from-code hello_ack = refl
try_from-code discover = refl
try_from-code endpoint = refl
try_from-code discover_complete = refl
try_from-code attach = refl
try_from-code attach_ack = refl
try_from-code detach = refl
try_from-code data_bytes = refl
try_from-code window_update = refl
try_from-code serial_config = refl
try_from-code modem_control = refl
try_from-code modem_status = refl
try_from-code application_open = refl
try_from-code application_close = refl
try_from-code cancel = refl
try_from-code purge = refl
try_from-code health = refl
try_from-code health_ack = refl
try_from-code error = refl

-- Whether a peer that supports the versions from `low` to `high` supports this one.
abbrev pub Supports : ProtocolVersion → ProtocolVersion → ProtocolVersion → Type 0
Supports low high v =
    (v.major ≡ low.major) × (v.major ≡ high.major) × (low.minor ≤ v.minor) × (v.minor ≤ high.minor)

abbrev pub IsAgreed :
    Option ProtocolVersion
    → ProtocolVersion
    → ProtocolVersion
    → ProtocolVersion
    → ProtocolVersion
    → Type 0
IsAgreed none low high low' high' =
    (v : ProtocolVersion) → Supports low high v → Supports low' high' v → ⊥
IsAgreed (some best) low high low' high' =
    Supports low high best
    × Supports low' high' best
    × ((v : ProtocolVersion) → Supports low high v → Supports low' high' v → v.minor ≤ best.minor)

-- Negotiation finds the highest version that both sides support, and fails only if there is none.
pub negotiate-IsAgreed :
    (low high low' high' : ProtocolVersion)
    → IsAgreed (negotiate low high low' high') low high low' high'
unfolding negotiate
negotiate-IsAgreed low high low' high' = ground arith
