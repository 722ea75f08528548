-- ===== src/Kenwood/Dialect/Presented.antt =====
-- What a single-VFO session of the TS-590 dialect can tell of the radio.
use cathub.Prelude.{
  ℕ, ◌≡◌, refl, ap, Bool, true, false, not, ◌&&◌, ◌||◌, ◌∙◌, arith, [], ◌∷◌, Option, none, some,
  if◌then◌else◌, is_empty, Bytes, Option-cases, inl, inr,
}
use cathub.Radio.State.{Snapshot, vfo_of}
use cathub.Radio.Model.{
  Vfo, a, b, other, same_vfo, StateMutation, set_vfo_freq, set_mode, set_data_mode, StateChange,
  freq, mode, rx_vfo, data_mode, split, ptt, rit, xit, tx_power,
}
use cathub.Kenwood.Frames.{parse_u64}
use cathub.Kenwood.Dialect.{
  Action, says, toggles, applies, forwards, parse_command, set_freq, freq_write, mode_write,
  auto_info, is_verb, status_text, freq_frame, mode_frame,
}
use cathub.Kenwood.Dialect.Keying.{is_held, Mediates, native-Mediates}
use cathub.Kenwood.Dialect.Ts590.{
  handle, verb_action, freq_request, mode_request, letters, synth_if, single_vfo_notification,
  format_notification,
}

-- The radio with its two VFOs exchanged, a write and a change to the other VFO, and an answer that
-- makes such a write.
abbrev pub exchanged : Snapshot → Snapshot
exchanged s = record s {
  vfo_a = s.vfo_b;
  vfo_b = s.vfo_a;
  receive = other s.receive;
  transmit = other s.transmit;
}

abbrev pub exchange_write : StateMutation → StateMutation
exchange_write (set_vfo_freq v hz) = set_vfo_freq (other v) hz
exchange_write (set_mode v m) = set_mode (other v) m
exchange_write (set_data_mode v on) = set_data_mode (other v) on
exchange_write m = m

abbrev pub exchange_action : Action → Action
exchange_action (applies m class) = applies (exchange_write m) class
exchange_action x = x

abbrev pub exchange_change : StateChange → StateChange
exchange_change (freq v hz) = freq (other v) hz
exchange_change (mode v m) = mode (other v) m
exchange_change (rx_vfo v) = rx_vfo (other v)
exchange_change c = c

pub operating-exchanged :
    (s : Snapshot) → vfo_of (other s.receive) (exchanged s) ≡ vfo_of s.receive s
unfolding other
operating-exchanged s = go s.receive
  where
    go : (v : Vfo) → vfo_of (other v) (exchanged s) ≡ vfo_of v s
    go a = refl
    go b = refl

exchange-if :
    (c : Bool) (x y : Action)
    → exchange_action (if c then x else y) ≡ (if c then exchange_action x else exchange_action y)
exchange-if true x y = refl
exchange-if false x y = refl

freq_write-exchanged :
    (v : Vfo) (hz : Option ℕ) → freq_write (other v) hz ≡ exchange_action (freq_write v hz)
freq_write-exchanged v none = refl
freq_write-exchanged v (some hz) = refl

mode_write-exchanged :
    (v : Vfo) (payload : Bytes)
    → mode_write (other v) payload ≡ exchange_action (mode_write v payload)
mode_write-exchanged v [] = refl
mode_write-exchanged v (c ∷ cs) = refl

if-exchanged :
    (c : Bool) (x y u v : Action)
    → u ≡ exchange_action x
    → v ≡ exchange_action y
    → (if c then u else v) ≡ exchange_action (if c then x else y)
if-exchanged true x y u v e f = e
if-exchanged false x y u v e f = f

synth_if-exchanged : (s : Snapshot) → synth_if (exchanged s) true ≡ synth_if s true
unfolding synth_if
synth_if-exchanged s =
    ap (λ v. status_text v.freq_hz s.keyed v.base_mode 0 false) (operating-exchanged s)

module _ (s : Snapshot) (payload : Bytes) where
  freq_request-exchanged :
      (verb : Bytes)
      → freq_request verb (other s.receive) (exchanged s) payload
        ≡ exchange_action (freq_request verb s.receive s payload)
  unfolding set_freq
  freq_request-exchanged verb =
      if-exchanged (is_empty payload) _ _ _ _
        (ap (λ v. says (freq_frame verb v.freq_hz)) (operating-exchanged s))
        (freq_write-exchanged s.receive (parse_u64 payload))

  mode_request-exchanged :
      mode_request (exchanged s) payload ≡ exchange_action (mode_request s payload)
  mode_request-exchanged =
      if-exchanged (is_empty payload) _ _ _ _
        (ap (λ v. says (mode_frame v.base_mode)) (operating-exchanged s))
        (mode_write-exchanged s.receive payload)

  auto_info-exchanged : (ai : Bool) → auto_info ai payload ≡ exchange_action (auto_info ai payload)
  auto_info-exchanged ai = if-exchanged (is_empty payload) _ _ _ _ refl refl

  verb_action-exchanged :
      (ai : Bool) (request verb : Bytes)
      → verb_action true ai (exchanged s) request verb payload
        ≡ exchange_action (verb_action true ai s request verb payload)
  unfolding verb_action
  verb_action-exchanged ai request verb =
      if-exchanged (is_verb verb b'F' b'A') _ _ _ _ (freq_request-exchanged (letters b'F' b'A')) (
        if-exchanged (is_verb verb b'F' b'B') _ _ _ _ (freq_request-exchanged (letters b'F' b'B')) (
          if-exchanged (is_verb verb b'F' b'R' && true) _ _ _ _ refl (
            if-exchanged (is_verb verb b'F' b'T' && true) _ _ _ _ refl (
              if-exchanged (is_verb verb b'M' b'D') _ _ _ _ mode_request-exchanged (
                if-exchanged (is_verb verb b'T' b'X') _ _ _ _ refl (
                  if-exchanged (is_verb verb b'R' b'X') _ _ _ _ refl (
                    if-exchanged (is_verb verb b'A' b'I') _ _ _ _ (auto_info-exchanged ai) (
                      if-exchanged (is_verb verb b'I' b'D' && is_empty payload) _ _ _ _ refl (
                        if-exchanged (is_verb verb b'P' b'S' && is_empty payload) _ _ _ _ refl (
                          if-exchanged (is_verb verb b'I' b'F' && is_empty payload) _ _ _ _
                            (ap says (synth_if-exchanged s)) refl))))))))))

-- What is passed through, and asks the radio itself for a VFO: frequencies, modes, selectors and the
-- bare status.
abbrev pub asks_vfo_command : Option (Bytes × Bytes) → Bool
asks_vfo_command none = false
asks_vfo_command (some (verb, payload)) =
    is_verb verb b'F' b'A'
    || is_verb verb b'F' b'B'
    || is_verb verb b'M' b'D'
    || is_verb verb b'F' b'R'
    || is_verb verb b'F' b'T'
    || (is_verb verb b'I' b'F' && is_empty payload)

unfoldable pub asks_vfo : Action → Bool
unfolding parse_command
asks_vfo (forwards raw class) = asks_vfo_command (parse_command raw)
asks_vfo action = false

held-asks_vfo :
    (request verb payload : Bytes) (action : Action)
    → parse_command request ≡ some (verb, payload)
    → Mediates (is_held true verb payload) request verb payload action
    → asks_vfo action ≡ false
unfolding asks_vfo
held-asks_vfo request verb payload (forwards raw class) e (held, same, c) =
    ap (λ x. asks_vfo_command (parse_command x)) same ∙ ap asks_vfo_command e ∙ ground (arith, held)
held-asks_vfo request verb payload (says bytes) e h = refl
held-asks_vfo request verb payload (toggles on) e h = refl
held-asks_vfo request verb payload (applies m class) e h = refl

-- Exchanging the VFOs of the radio changes nothing that is answered to a single-VFO session from the
-- snapshot, and moves its writes to the other VFO with the receiver; and no request of FA, FB, MD, FR,
-- FT or the bare IF, in capitals, is passed through to be answered by the radio. What the radio
-- answers to other requests is not stated.
pub handle-exchanged :
    (ai : Bool) (s : Snapshot) (request : Bytes)
    → (handle true ai (exchanged s) request ≡ exchange_action (handle true ai s request))
      × (asks_vfo (handle true ai s request) ≡ false)
unfolding handle asks_vfo
handle-exchanged ai s request = elim (Option-cases (parse_command request)) [
  | inl e ↦ rw e (refl, refl)
  | inr ((verb, payload), e) ↦ rw e (
    verb_action-exchanged s payload ai request verb,
    held-asks_vfo request verb payload (verb_action true ai s request verb payload) e
        (native-Mediates request verb payload true ai s),
  )
]

same_vfo-other : (v w : Vfo) → same_vfo (other v) (other w) ≡ same_vfo v w
unfolding other
same_vfo-other a a = refl
same_vfo-other a b = refl
same_vfo-other b a = refl
same_vfo-other b b = refl

presented-exchanged :
    (c : StateChange) (s : Snapshot)
    → single_vfo_notification (exchange_change c) (exchanged s) ≡ single_vfo_notification c s
unfolding single_vfo_notification
presented-exchanged (freq v hz) s = rw (same_vfo-other v s.receive, synth_if-exchanged s) refl
presented-exchanged (mode v m) s = rw (same_vfo-other v s.receive, synth_if-exchanged s) refl
presented-exchanged (rx_vfo v) s = rw (operating-exchanged s) refl
presented-exchanged (data_mode v on) s = refl
presented-exchanged (split enabled tx) s = refl
presented-exchanged (ptt on) s = refl
presented-exchanged (rit enabled hz) s = refl
presented-exchanged (xit enabled hz) s = refl
presented-exchanged (tx_power level) s = refl

-- Nor do its notifications tell: exchanging the VFOs in the radio and in what changed leaves the
-- notification as it is.
pub format_notification-exchanged :
    (ai : Bool) (c : StateChange) (s : Snapshot)
    → format_notification true ai (exchange_change c) (exchanged s)
      ≡ format_notification true ai c s
unfolding format_notification
format_notification-exchanged ai c s =
    ap (λ n. if not ai then none else n) (presented-exchanged c s)
