-- ===== src/Kenwood/Dialect/Answers.antt =====
-- What the dialects answer, read as the TS-590 backend reads a radio.
use cathub.Prelude.{
  ◌==◌, ◌-◌, ◌<◌, ◌≡◌, refl, ap, ◌∙◌, Bool, true, false, List, [], ◌∷◌, ◌++◌, some, if◌then◌else◌,
  contains,
}
use cathub.Prelude.Text.{padded, power10}
use cathub.Prelude.Text.Digits.{padded-digits}
use cathub.Radio.State.{Snapshot, vfo_of}
use cathub.Radio.Model.{
  Vfo, a, b, Mode, lsb, usb, cw, cw_r, fsk, fsk_r, am, fm, unknown, same_mode, other, StateChange,
  freq, mode, ptt, split, rx_vfo, to_kenwood_digit, from-to_kenwood_digit,
}
use cathub.Kenwood.Frames.{semicolon, vfo_digit}
use cathub.Kenwood.Ts590.{changes_of, flag}
use cathub.Kenwood.Status.{IfFrame, if_frame, IsStatus, if_frame-changes_of}
use cathub.Kenwood.Dialect.{status_text, decimal, bit, defaults}
use cathub.Kenwood.Dialect.Ts590
use cathub.Kenwood.Dialect.Ts2000

-- The status frame that a snapshot makes.
abbrev pub status_frame : Snapshot → IfFrame
status_frame s = record {
  hz = (vfo_of s.receive s).freq_hz;
  filler = defaults;
  keyed = s.keyed;
  mode_digit = to_kenwood_digit (vfo_of s.receive s).base_mode;
  receive = s.receive;
  scan = b'0';
  split_on = s.split_on;
  tail = b'0' ∷ b'0' ∷ b'0' ∷ b'0' ∷ [];
}

mode_digit-plain : (m : Mode) → (to_kenwood_digit m == semicolon) ≡ false
unfolding to_kenwood_digit
mode_digit-plain lsb = refl
mode_digit-plain usb = refl
mode_digit-plain cw = refl
mode_digit-plain cw_r = refl
mode_digit-plain fsk = refl
mode_digit-plain fsk_r = refl
mode_digit-plain am = refl
mode_digit-plain fm = refl
mode_digit-plain unknown = refl

settings-plain :
    (keyed : Bool) (m : Mode) (v : Vfo) (on : Bool)
    → contains
        (defaults
          ++ flag keyed
            ∷ to_kenwood_digit m
            ∷ vfo_digit v
            ∷ b'0'
            ∷ flag on
            ∷ b'0'
            ∷ b'0'
            ∷ b'0'
            ∷ b'0'
            ∷ [])
        semicolon
      ≡ false
settings-plain true m a true = rw (mode_digit-plain m) refl
settings-plain true m a false = rw (mode_digit-plain m) refl
settings-plain true m b true = rw (mode_digit-plain m) refl
settings-plain true m b false = rw (mode_digit-plain m) refl
settings-plain false m a true = rw (mode_digit-plain m) refl
settings-plain false m a false = rw (mode_digit-plain m) refl
settings-plain false m b true = rw (mode_digit-plain m) refl
settings-plain false m b false = rw (mode_digit-plain m) refl

status_frame-IsStatus :
    (s : Snapshot) → (vfo_of s.receive s).freq_hz < power10 11 → IsStatus (status_frame s)
status_frame-IsStatus s h = record {
  tunable = h;
  filled = refl;
  closed = settings-plain s.keyed (vfo_of s.receive s).base_mode s.receive s.split_on;
}

decimal-bit : (on : Bool) → decimal (bit on) ≡ flag on ∷ []
unfolding padded
decimal-bit true = refl
decimal-bit false = refl

decimal-mode : (m : Mode) → decimal (to_kenwood_digit m - b'0') ≡ to_kenwood_digit m ∷ []
unfolding padded to_kenwood_digit
decimal-mode lsb = refl
decimal-mode usb = refl
decimal-mode cw = refl
decimal-mode cw_r = refl
decimal-mode fsk = refl
decimal-mode fsk_r = refl
decimal-mode am = refl
decimal-mode fm = refl
decimal-mode unknown = refl

decimal-vfo : (v : Vfo) → decimal (Ts590.vfo_number v) ≡ vfo_digit v ∷ []
unfolding padded
decimal-vfo a = refl
decimal-vfo b = refl

status_text-if_frame :
    (s : Snapshot)
    → (vfo_of s.receive s).freq_hz < power10 11
    → status_text
        (vfo_of s.receive s).freq_hz
        s.keyed
        (vfo_of s.receive s).base_mode
        (Ts590.vfo_number s.receive)
        s.split_on
      ≡ if_frame (status_frame s)
unfolding status_text
status_text-if_frame s h =
    let m = (vfo_of s.receive s).base_mode in
    rw
      (
        padded-digits 10 (vfo_of s.receive s).freq_hz h,
        decimal-bit s.keyed,
        decimal-mode m,
        decimal-vfo s.receive,
        decimal-bit s.split_on,
      )
      refl

-- What a snapshot says of the operating VFO, as changes.
abbrev pub operating_changes : Snapshot → List StateChange
operating_changes s =
    let m = (vfo_of s.receive s).base_mode in
    freq s.receive (vfo_of s.receive s).freq_hz
    ∷ mode s.receive (if same_mode m unknown then usb else m)
    ∷ ptt s.keyed
    ∷ split s.split_on (some (if s.split_on then other s.receive else s.receive))
    ∷ rx_vfo s.receive
    ∷ []

pub synth_if-changes_of :
    (t s : Snapshot)
    → (vfo_of s.receive s).freq_hz < power10 11
    → (changes_of t (Ts590.synth_if s false) ≡ some (operating_changes s))
      × (changes_of t (Ts2000.synth_if s) ≡ some (operating_changes s))
unfolding Ts590.synth_if Ts2000.synth_if
synth_if-changes_of t s h =
    let m = (vfo_of s.receive s).base_mode in
    let e =
      ap (changes_of t) (status_text-if_frame s h)
      ∙ if_frame-changes_of t (status_frame s) (status_frame-IsStatus s h)
      ∙ ap
          (λ x. some (
            freq s.receive (vfo_of s.receive s).freq_hz
            ∷ mode s.receive x
            ∷ ptt s.keyed
            ∷ split s.split_on (some (if s.split_on then other s.receive else s.receive))
            ∷ rx_vfo s.receive
            ∷ []))
          (from-to_kenwood_digit m) in
    (e, e)
