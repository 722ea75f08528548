-- ===== src/Kenwood/Dialect/Tests.antt =====
-- Instances of the theorems on the dialects.
use cathub.Prelude.{◌≡◌, true, false, [], ◌∷◌, Bytes, arith}
use cathub.Radio.Model.{b, cw}
use cathub.Radio.State.{Snapshot, snapshot_default, vfo_default, new_handle}
use cathub.Kenwood.Echo.{observe}
use cathub.Kenwood.Dialect.Ts590
use cathub.Kenwood.Dialect.Ts2000
use cathub.Kenwood.Dialect.Transparent
use cathub.Kenwood.Dialect.Retarget.{stays_on, handle-stays_on}
use cathub.Kenwood.Dialect.Presented.{exchanged, exchange_action, asks_vfo, handle-exchanged}
use cathub.Kenwood.Dialect.Resync.{Agrees, resync-Agrees}

-- Split: B receives CW at 14.034 MHz and A transmits.
abbrev working : Snapshot
working = record snapshot_default {
  vfo_a = record vfo_default { freq_hz = 14025000 };
  vfo_b = record vfo_default { freq_hz = 14034320; base_mode = cw; mode_known = true };
  receive = b;
  split_on = true;
}

-- `FA00007030000;`
abbrev tune : Bytes
tune =
    b'F' ∷ b'A' ∷ b'0' ∷ b'0' ∷ b'0' ∷ b'0' ∷ b'7' ∷ b'0' ∷ b'3' ∷ b'0' ∷ b'0' ∷ b'0' ∷ b'0' ∷ b';'
    ∷ []

handle-stays_on_example : stays_on b (Ts2000.handle true working tune) ≡ true
handle-stays_on_example = handle-stays_on true working tune

-- `NB1;`
abbrev blanker : Bytes
blanker = b'N' ∷ b'B' ∷ b'1' ∷ b';' ∷ []

handle-exchanged_example :
    (Ts590.handle true false (exchanged working) tune
      ≡ exchange_action (Ts590.handle true false working tune))
    × (asks_vfo (Ts590.handle true false working tune) ≡ false)
handle-exchanged_example = handle-exchanged false working tune

resync-Agrees_example :
    Agrees working (observe (Transparent.resync true working) new_handle).snapshot
resync-Agrees_example = resync-Agrees working new_handle (omega arith) (omega arith)
