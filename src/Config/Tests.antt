-- ===== src/Config/Tests.antt =====
-- Runs of the checks of crates/cathub/src/config.rs.
use cathub.Prelude.{
  ◌≡◌, refl, Bool, false, ◌&&◌, List, [], ◌∷◌, Option, none, some, if◌then◌else◌, is_empty, equal,
  take, Bytes,
}
use cathub.Prelude.Text.{text}
use cathub.Config.{
  Config, WinkeyerConfig, WinkeyerEndpointConfig, shared_transport, ptt_requires,
  validate_winkeyer_endpoint, validate,
}
use cathub.Config.Sound.{DeviceIsSound, validate-DeviceIsSound}

-- Addresses as their texts; 127.0.0.0/8 is loopback.
abbrev parse : Bytes → Option Bytes
parse bytes = if is_empty bytes then none else some bytes

abbrev is_loopback : Bytes → Bool
is_loopback bytes = equal (take 4 bytes) (text "127.")

abbrev device : WinkeyerConfig
device = record {
  port = text "COM5";
  baud = 1200;
  max_tx_ms = 30000;
  api_bind = text "127.0.0.1:50071";
}

abbrev logger : Bytes → List Bytes → WinkeyerEndpointConfig
logger port perms = record {
  name = text "log";
  transport = port;
  application_transport = none;
  baud = 1200;
  primary = false;
  perms = perms;
}

abbrev typing : List Bytes
typing = text "status" ∷ text "send" ∷ []

abbrev station : List WinkeyerEndpointConfig → Config
station endpoints = record {
  radio = record {
    backend = text "ts590";
    model = [];
    transport = text "serial";
    port = text "COM3";
    baud = 4800;
    host = text "127.0.0.1";
    tcp_port = 4532;
    certified = false;
    reply_timeout_ms = 1000;
  };
  serial_endpoint = [];
  hamlib_net =
      record { name = text "n"; bind = text "127.0.0.1:4532"; perms = []; single_vfo = false } ∷ [];
  winkeyer = some device;
  winkeyer_endpoint = endpoints;
}

shared :
    validate parse is_loopback
      (station (logger (text "COM7") typing ∷ logger (text "com7") typing ∷ []))
    ≡ some shared_transport
unfolding validate
shared = refl

keying_alone :
    validate_winkeyer_endpoint (logger (text "COM7") (text "ptt" ∷ typing))
    ≡ some (ptt_requires (text "log"))
unfolding validate_winkeyer_endpoint
keying_alone = refl

abbrev two_loggers : Config
two_loggers = station (logger (text "COM7") typing ∷ logger (text "COM8") typing ∷ [])

two_loggers-fits : validate parse is_loopback two_loggers ≡ none
unfolding validate
two_loggers-fits = refl

validate-DeviceIsSound_example :
    (is_empty two_loggers.serial_endpoint && is_empty two_loggers.hamlib_net ≡ false)
    × DeviceIsSound two_loggers two_loggers.winkeyer
validate-DeviceIsSound_example =
    validate-DeviceIsSound parse is_loopback two_loggers two_loggers-fits
