-- ===== src/Config.antt =====
-- crates/cathub/src/config.rs: the configuration and its checks. Reading TOML is a library's; so is
-- reading a socket address, which stands as a parameter with the loopback test of its IP address.
pub mod Permissions
pub mod Sound
mod Tests
use cathub.Prelude.{
  ℕ, ◌-◌, Bool, true, false, not, ◌&&◌, ◌||◌, List, [], ◌∷◌, map, Option, none, some, ◌==◌, ltb,
  if◌then◌else◌, is_empty, length, retain, equal, Bytes,
}
use cathub.Prelude.Text.{text, trim, within}

pub record RadioConfig : Type 0 where
  pub backend : Bytes
  pub model : Bytes
  pub transport : Bytes
  pub port : Bytes
  pub baud : ℕ
  pub host : Bytes
  pub tcp_port : ℕ
  pub certified : Bool
  pub reply_timeout_ms : ℕ

pub record SerialEndpointConfig : Type 0 where
  pub name : Bytes
  pub transport : Bytes
  pub application_transport : Option Bytes
  pub baud : ℕ
  pub dialect : Bytes
  pub perms : List Bytes
  pub single_vfo : Bool

pub record HamlibNetConfig : Type 0 where
  pub name : Bytes
  pub bind : Bytes
  pub perms : List Bytes
  pub single_vfo : Bool

pub record WinkeyerConfig : Type 0 where
  pub port : Bytes
  pub baud : ℕ
  pub max_tx_ms : ℕ
  pub api_bind : Bytes

pub record WinkeyerEndpointConfig : Type 0 where
  pub name : Bytes
  pub transport : Bytes
  pub application_transport : Option Bytes
  pub baud : ℕ
  pub primary : Bool
  pub perms : List Bytes

-- The sections on polling, keying and events are not checked.
pub record Config : Type 0 where
  pub radio : RadioConfig
  pub serial_endpoint : List SerialEndpointConfig
  pub hamlib_net : List HamlibNetConfig
  pub winkeyer : Option WinkeyerConfig
  pub winkeyer_endpoint : List WinkeyerEndpointConfig

-- What a configuration is refused for: the messages, with the texts that they quote.
pub data Invalid : Type 0 where
  unknown_backend unknown_transport same_transport transparent_single_vfo : Bytes → Invalid
  unknown_dialect : (name dialect : Bytes) → Invalid
  missing_port no_endpoint no_device : Invalid
  empty_keyer_port keyer_baud keyer_max_tx bad_address not_loopback shared_port : Invalid
  many_primaries shared_transport : Invalid
  no_transport endpoint_baud same_keyer_transport : Bytes → Invalid
  unknown_permission : (name permission : Bytes) → Invalid
  send_requires ptt_requires config_write_requires : Bytes → Invalid

-- `to_ascii_uppercase`, `eq_ignore_ascii_case`.
abbrev pub to_ascii_uppercase : Bytes → Bytes
to_ascii_uppercase [] = []
to_ascii_uppercase (c ∷ cs) = (if within 0x61 0x7a c then c - 0x20 else c) ∷ to_ascii_uppercase cs

abbrev pub eq_ignore_ascii_case : Bytes → Bytes → Bool
eq_ignore_ascii_case s t = equal (to_ascii_uppercase s) (to_ascii_uppercase t)

unfoldable pub clashes : Option Bytes → Bytes → Bool
unfolding trim
clashes none transport = false
clashes (some application) transport = eq_ignore_ascii_case (trim application) (trim transport)

-- `contains` on a list of texts.
abbrev pub has : List Bytes → Bytes → Bool
has [] permission = false
has (value ∷ values) permission = equal value permission || has values permission

abbrev pub is_permission : Bytes → Bool
is_permission permission =
    equal permission (text "status")
    || equal permission (text "send")
    || equal permission (text "control")
    || equal permission (text "ptt")
    || equal permission (text "config_write")

unfoldable pub check_known : (name : Bytes) → List Bytes → Option Invalid → Option Invalid
check_known name [] next = next
check_known name (permission ∷ perms) next =
    let rest = check_known name perms next in
    if is_permission permission then rest else some (unknown_permission name permission)

abbrev pub implied : (name : Bytes) → (status send control ptt config_write : Bool) → Option Invalid
implied name status send control ptt config_write =
    if send && not status
    then some (send_requires name)
    else if ptt && (not send || not control)
    then some (ptt_requires name)
    else if config_write && (not status || not control)
    then some (config_write_requires name)
    else none

unfoldable pub check_implied : (name : Bytes) → List Bytes → Option Invalid
check_implied name perms =
    implied name (has perms (text "status")) (has perms (text "send")) (has perms (text "control"))
      (has perms (text "ptt")) (has perms (text "config_write"))

-- `none` where the check passes, here and below.
unfoldable pub validate_winkeyer_endpoint : WinkeyerEndpointConfig → Option Invalid
unfolding clashes check_known check_implied trim
validate_winkeyer_endpoint e =
    if is_empty (trim e.transport)
    then some (no_transport e.name)
    else if not (e.baud == 1200)
    then some (endpoint_baud e.name)
    else if clashes e.application_transport e.transport
    then some (same_keyer_transport e.name)
    else check_known e.name e.perms (check_implied e.name e.perms)

abbrev pub first : Option Invalid → Option Invalid → Option Invalid
first none next = next
first (some e) next = some e

-- The loop over the endpoints, with the transports that were seen.
unfoldable pub check_endpoints : List WinkeyerEndpointConfig → (seen : List Bytes) → Option Invalid
unfolding validate_winkeyer_endpoint
check_endpoints [] seen = none
check_endpoints (e ∷ es) seen =
    let normalized = to_ascii_uppercase e.transport in
    let rest = check_endpoints es (normalized ∷ seen) in
    first (validate_winkeyer_endpoint e)
      (if has seen normalized then some shared_transport else rest)

unfoldable pub primary_count : List WinkeyerEndpointConfig → ℕ
primary_count es = length (retain (λ e. e.primary) es)

unfoldable pub check_serial : List SerialEndpointConfig → Option Invalid → Option Invalid
unfolding clashes
check_serial [] next = next
check_serial (e ∷ es) next =
    let rest = check_serial es next in
    if clashes e.application_transport e.transport
    then some (same_transport e.name)
    else if not (
        equal e.dialect (text "ts590")
        || equal e.dialect (text "ts590-transparent")
        || equal e.dialect (text "ts2000"))
    then some (unknown_dialect e.name e.dialect)
    else if equal e.dialect (text "ts590-transparent") && e.single_vfo
    then some (transparent_single_vfo e.name)
    else rest

unfoldable pub check_transport : RadioConfig → Option Invalid
check_transport radio =
    if equal radio.backend (text "loopback")
    then none
    else if equal radio.transport (text "serial")
    then if is_empty radio.port then some missing_port else none
    else if equal radio.transport (text "tcp")
    then none
    else some (unknown_transport radio.transport)

module _ {SocketAddr : Type 0} (parse : Bytes → Option SocketAddr)
    (is_loopback : SocketAddr → Bool) where
  unfoldable pub check_bind : Option SocketAddr → Option Invalid
  check_bind none = some bad_address
  check_bind (some bind) = if is_loopback bind then none else some not_loopback

  unfoldable pub check_device : Config → WinkeyerConfig → Option Invalid
  unfolding check_bind check_endpoints primary_count trim
  check_device c winkeyer =
      if is_empty (trim winkeyer.port)
      then some empty_keyer_port
      else if not (winkeyer.baud == 1200)
      then some keyer_baud
      else if not (within 1000 300000 winkeyer.max_tx_ms)
      then some keyer_max_tx
      else first (check_bind (parse winkeyer.api_bind)) (
          if eq_ignore_ascii_case winkeyer.port c.radio.port
          then some shared_port
          else if ltb 1 (primary_count c.winkeyer_endpoint)
          then some many_primaries
          else check_endpoints c.winkeyer_endpoint [])

  unfoldable pub validate_winkeyer : Config → Option WinkeyerConfig → Option Invalid
  unfolding check_device
  validate_winkeyer c none = if not (is_empty c.winkeyer_endpoint) then some no_device else none
  validate_winkeyer c (some winkeyer) = check_device c winkeyer

  unfoldable pub validate : Config → Option Invalid
  unfolding validate_winkeyer check_serial check_transport
  validate c =
      if not (
        equal c.radio.backend (text "ts590")
        || equal c.radio.backend (text "rigctld")
        || equal c.radio.backend (text "loopback"))
      then some (unknown_backend c.radio.backend)
      else first (check_transport c.radio) (
          check_serial c.serial_endpoint (
            if is_empty c.serial_endpoint && is_empty c.hamlib_net
            then some no_endpoint
            else validate_winkeyer c c.winkeyer))
