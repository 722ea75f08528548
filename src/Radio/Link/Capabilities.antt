-- ===== src/Radio/Link/Capabilities.antt =====
-- What a backend says of itself (backend/mod.rs), and the cadence of polling (events.rs).
use cathub.Prelude.{ℕ, Bool, true, false, ◌&&◌, Option, none, some, if◌then◌else◌, Bytes}
use cathub.Radio.Model.{freq_field}
use cathub.Radio.State.{StateHandle, is_native_push_covered}
use cathub.Radio.Link.Framer.{Framing}

pub data SplitStyle : Type 0 where
  vfo_pair no_split : SplitStyle

pub data TrustTier : Type 0 where
  certified_native uncertified_bridge in_memory : TrustTier

pub data NativeCommandFamily : Type 0 where
  kenwood : NativeCommandFamily

pub record BackendCapabilities : Type 0 where
  pub model : Bytes
  pub vfo_count : ℕ
  pub has_rit : Bool
  pub has_xit : Bool
  pub has_smeter : Bool
  pub split : SplitStyle
  pub native_push : Bool
  pub native_command_family : Option NativeCommandFamily
  pub framing : Framing
  pub freq_min_hz : ℕ
  pub freq_max_hz : ℕ
  pub trust : TrustTier

abbrev pub is_some {ℓ} : {A : Type ℓ} → Option A → Bool
is_some none = false
is_some (some x) = true

unfoldable pub supports_passthrough : BackendCapabilities → Bool
supports_passthrough c = is_some c.native_command_family

abbrev pub poller_session : ℕ
poller_session = 0

-- The wait before the next poll: `native_push_active` says that the radio sends its changes itself.
unfoldable pub next_interval :
    StateHandle → (native_push_active : Bool) → (baseline heartbeat : ℕ) → ℕ
next_interval h native_push_active baseline heartbeat =
    if native_push_active && is_native_push_covered h (freq_field h.snapshot.receive)
    then heartbeat
    else baseline
