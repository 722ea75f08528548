-- ===== src/Keyer/Endpoint/Tests.antt =====
-- Instances of the theorems on virtual keyers.
use cathub.Prelude.{◌≡◌, refl, true, false, none, [], ◌∷◌, Bytes}
use cathub.Prelude.Text.{text}
use cathub.Keyer.Protocol.{event_from_byte, status}
use cathub.Keyer.Broker.Snapshot.{BrokerSnapshot}
use cathub.Keyer.Endpoint.{
  EndpointPermissions, wk1, wk2, streams, on_read, synthesize_status, status_for_mode,
}
use cathub.Keyer.Endpoint.Effects.{permits_all}
use cathub.Keyer.Endpoint.Permitted.{on_read-permits_all}
use cathub.Keyer.Protocol.Framing.{IsFramed}
use cathub.Keyer.Endpoint.Status.{synthesize_status-event_from_byte}
use cathub.Keyer.Endpoint.Texting.{open_endpoint, on_read-typed}

abbrev sending : EndpointPermissions
sending = record { status = true; send = true; control = false; ptt = false; config_write = false }

-- A keyer that sends.
abbrev keying : BrokerSnapshot
keying = record {
  firmware_revision = none;
  connected = true;
  busy = true;
  break_in = false;
  key_down = true;
  pot_value = none;
  pot_wpm = none;
  active_client_id = none;
  active_job_id = none;
  queued_jobs = 0;
  last_error = none;
  last_safety_action = none;
}

synthesize_status-event_from_byte_example :
    (event_from_byte (synthesize_status keying wk2)
      ≡ status (record {
        raw = synthesize_status keying wk2;
        waiting = false;
        key_down = false;
        busy = true;
        break_in = false;
        xoff = false;
      }))
    × (status_for_mode (synthesize_status keying wk1) wk2 ≡ synthesize_status keying wk2)
synthesize_status-event_from_byte_example = synthesize_status-event_from_byte keying wk2

-- A speed command, a key-down that is refused, and a text.
abbrev typing : Bytes
typing = 0x02 ∷ 25 ∷ 0x19 ∷ 5 ∷ text "TEST"

on_read-permits_all_example :
    (permits_all sending
        (on_read sending (λ effect. true) keying typing (open_endpoint false wk2)).effects
      ≡ true)
    × IsFramed
        (on_read sending (λ effect. true) keying typing (open_endpoint false wk2)).endpoint.parser
on_read-permits_all_example =
    on_read-permits_all sending (λ effect. true) keying typing (open_endpoint false wk2) refl

on_read-typed_example :
    on_read sending (λ effect. true) keying (text "CQ") (open_endpoint false wk2) ≡ record {
      endpoint = open_endpoint false wk2;
      effects = streams [] (text "CQ") ∷ [];
      goes_on = true;
    }
on_read-typed_example =
    on_read-typed sending (λ effect. true) keying false wk2 b'C' (b'Q' ∷ []) refl (refl, (refl, tt))
