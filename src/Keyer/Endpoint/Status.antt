-- ===== src/Keyer/Endpoint/Status.antt =====
-- The status bytes that a session makes up, read as device bytes.
use Prim.Native.Nat.{bit_or}
use cathub.Prelude.{ℕ, ◌≡◌, refl, sym, Bool, true, false, ◌&&◌}
use cathub.Keyer.Protocol.{status, event_from_byte, status_from_byte}
use cathub.Keyer.Broker.Snapshot.{BrokerSnapshot}
use cathub.Keyer.Endpoint.{
  SessionMode, wk1, wk2, wk3, shows_key, synthesize_status, status_for_mode, bit_if,
}

-- What a client of the first keyer sees of the key, and a client of the later ones.
abbrev seen_key : SessionMode → Bool → Bool
seen_key wk1 down = down
seen_key wk2 down = false
seen_key wk3 down = false

shown : (m : SessionMode) (down : Bool) → shows_key m && down ≡ seen_key m down
shown wk1 down = refl
shown wk2 down = refl
shown wk3 down = refl

-- In the later modes the first keyer's status loses the key bit only.
for_mode :
    (s : BrokerSnapshot) (m : SessionMode)
    → status_for_mode (synthesize_status s wk1) m ≡ synthesize_status s m
unfolding status_for_mode synthesize_status
for_mode s m = go m s.key_down s.busy s.break_in
  where
    made : Bool → Bool → Bool → ℕ
    made k b i = bit_or (bit_or (bit_or 0xc0 (bit_if k 0x08)) (bit_if b 0x04)) (bit_if i 0x02)

    go :
        (m : SessionMode) (k b i : Bool)
        → status_for_mode (made k b i) m ≡ made (shows_key m && k) b i
    go wk1 k b i = refl
    go wk2 true true true = refl
    go wk2 true true false = refl
    go wk2 true false true = refl
    go wk2 true false false = refl
    go wk2 false true true = refl
    go wk2 false true false = refl
    go wk2 false false true = refl
    go wk2 false false false = refl
    go wk3 true true true = refl
    go wk3 true true false = refl
    go wk3 true false true = refl
    go wk3 true false false = refl
    go wk3 false true true = refl
    go wk3 false true false = refl
    go wk3 false false true = refl
    go wk3 false false false = refl

-- The client reads the status that a session makes up as a status byte that says what the snapshot
-- says: busy, break-in, and the key, which is down in the mode of the first keyer if the snapshot's is
-- and never down in the later modes. In each mode this is the byte that the session makes of the
-- device's status when the device sends what the first keyer shows.
pub synthesize_status-event_from_byte :
    (s : BrokerSnapshot) (m : SessionMode)
    → (event_from_byte (synthesize_status s m)
        ≡ status (record {
          raw = synthesize_status s m;
          waiting = false;
          key_down = seen_key m s.key_down;
          busy = s.busy;
          break_in = s.break_in;
          xoff = false;
        }))
      × (status_for_mode (synthesize_status s wk1) m ≡ synthesize_status s m)
unfolding event_from_byte synthesize_status status_from_byte
synthesize_status-event_from_byte s m =
    (rw (sym (shown m s.key_down)) (go (shows_key m && s.key_down) s.busy s.break_in), for_mode s m)
  where
    made : Bool → Bool → Bool → ℕ
    made k b i = bit_or (bit_or (bit_or 0xc0 (bit_if k 0x08)) (bit_if b 0x04)) (bit_if i 0x02)

    go :
        (k b i : Bool)
        → event_from_byte (made k b i)
          ≡ status (record {
            raw = made k b i;
            waiting = false;
            key_down = k;
            busy = b;
            break_in = i;
            xoff = false;
          })
    go true true true = refl
    go true true false = refl
    go true false true = refl
    go true false false = refl
    go false true true = refl
    go false true false = refl
    go false false true = refl
    go false false false = refl
