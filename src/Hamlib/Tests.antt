-- ===== src/Hamlib/Tests.antt =====
-- Instances of the theorems on the Hamlib server.
use cathub.Prelude.{some, ◌≡◌, refl, true, false, [], ◌∷◌}
use cathub.Prelude.Text.{text}
use cathub.Radio.Model.{usb, unknown, b}
use cathub.Radio.State.{Snapshot, snapshot_default}
use cathub.Radio.Permissions.{no_permissions}
use cathub.Radio.Session.{Session, new_session, outcome_ok}
use cathub.Kenwood.Ts590.{capabilities}
use cathub.Hamlib.Commands.{set_freq_command, get_split_vfo, dispatch_plain}
use cathub.Hamlib.Lines.{response_bytes, ext_command}
use cathub.Hamlib.Writes.{admits, dispatch_plain-admits}
use cathub.Radio.Model.{a, lsb, set_mode, set_data_mode, set_ptt, data_source, into_change}
use cathub.Prelude.Text.{utf8_or_empty, trim, trim_front}
use cathub.Radio.Tokens.{from_hamlib_token, hamlib_token}
use cathub.Radio.Permissions.{ptt_write}
use cathub.Radio.State.{
  vfo_default, StateHandle, new_handle, is_redundant, invalidated, snapshot_is_redundant,
  record_change, update_uncertain, apply_change,
}
use cathub.Radio.Link.Transport.{answer}
use cathub.Kenwood.Ts590.{Applied, failed, done, record_list}
use cathub.Hamlib.Commands.{writes}
use cathub.Hamlib.Lines.{planned}
use cathub.Hamlib.Bridge.{write_line, apply, check_rprt}
use cathub.Hamlib.Chained.{served, asks_mode, write_line-served}
use cathub.Hamlib.Extended.{IsReported, ends_session, ext_command-IsReported}

-- A logger without any permission, and a radio that receives on B.
abbrev logger : Session
logger = new_session 3 no_permissions capabilities

abbrev on_b : Snapshot
on_b = record snapshot_default { receive = b; split_on = true }

dispatch_plain-admits_example :
    admits false b (dispatch_plain [] logger on_b set_freq_command (text "14040005.000000" ∷ []))
    ≡ true
dispatch_plain-admits_example =
    dispatch_plain-admits [] logger on_b set_freq_command (text "14040005.000000" ∷ [])

split-goes_on : ends_session (dispatch_plain [] logger on_b get_split_vfo []) ≡ false
unfolding dispatch_plain
split-goes_on = refl

ext_command-IsReported_example : IsReported b';' (
    response_bytes
      (ext_command [] logger on_b b';' get_split_vfo (text "s") [])
      outcome_ok
      outcome_ok)
ext_command-IsReported_example =
    ext_command-IsReported [] logger on_b b';' get_split_vfo (text "s") [] outcome_ok outcome_ok
      refl split-goes_on

write_line-served_example :
    (served [] logger on_b (write_line snapshot_default (set_mode a usb))
      ≡ some (asks_mode on_b usb false))
    × (served [] logger on_b (write_line snapshot_default (set_data_mode a true))
        ≡ some (asks_mode on_b usb true))
    × (served [] logger on_b (write_line snapshot_default (set_ptt true data_source))
        ≡ some (planned (writes (set_ptt true data_source) ptt_write)))
write_line-served_example =
    write_line-served [] logger on_b snapshot_default a usb true true data_source

-- Packet on USB, then packet on LSB: the bridge asks for LSB without DATA, and its snapshot keeps
-- the flag, so that the write of the flag that follows is redundant.
abbrev packet : StateHandle
packet = record new_handle {
  snapshot = record snapshot_default {
    vfo_a = record vfo_default { data_on = true; mode_known = true };
  };
}

after_lsb : Applied → StateHandle
after_lsb (failed e) = packet
after_lsb (done r) = r.0

packet-dropped :
    is_redundant
      (after_lsb (apply (set_mode a lsb) (λ cmd. answer (text "RPRT 0")) packet))
      (set_data_mode a true)
    ≡ true
unfolding after_lsb apply check_rprt utf8_or_empty trim trim_front write_line hamlib_token
    record_list record_change update_uncertain apply_change into_change is_redundant invalidated
    snapshot_is_redundant new_handle
packet-dropped = refl

-- A poll takes the token of a mode with DATA for an unknown mode.
packet-polled : from_hamlib_token (text "PKTUSB") ≡ unknown
unfolding from_hamlib_token trim trim_front
packet-polled = refl
