-- ===== src/Keyer/Endpoint/Texting.antt =====
-- What a client types on a virtual keyer.
use cathub.Prelude.{
  ℕ, ◌≡◌, refl, sym, ap, ◌∙◌, Bool, true, [], ◌∷◌, ◌++◌, some, if◌then◌else◌, Bytes, All, ltb,
  append_assoc, append-nil,
}
use cathub.Keyer.Protocol.{idle, push, char}
use cathub.Keyer.Broker.Snapshot.{BrokerSnapshot}
use cathub.Keyer.Endpoint

-- A byte that is no command.
abbrev pub IsPrintable : ℕ → Type 0
IsPrintable byte = ltb 0x1f byte ≡ true

abbrev pub open_endpoint : Bool → Endpoint.SessionMode → Endpoint.Endpoint
open_endpoint maintained mode = record {
  parser = idle;
  opened = true;
  maintenance_active = maintained;
  session_mode = mode;
}

abbrev pub typed : Bool → Endpoint.SessionMode → Bytes → Endpoint.Reading
typed maintained mode text = record {
  turn = Endpoint.stay (open_endpoint maintained mode) [];
  buffered_prefix = [];
  intended_text = text;
}

push-char : (byte : ℕ) → IsPrintable byte → push idle byte ≡ (idle, some (char byte))
unfolding push
push-char byte h = rw h refl

module _ (p : Endpoint.EndpointPermissions) (accepts : Endpoint.Effect → Bool)
    (s : BrokerSnapshot) where
  on_bytes-typed :
      (maintained : Bool) (mode : Endpoint.SessionMode) (text bytes : Bytes)
      → p.send ≡ true
      → All IsPrintable bytes
      → Endpoint.on_bytes p accepts s bytes (typed maintained mode text)
        ≡ typed maintained mode (text ++ bytes)
  unfolding Endpoint.on_bytes Endpoint.on_item
  on_bytes-typed maintained mode text [] send h = ap (typed maintained mode) (sym (append-nil text))
  on_bytes-typed maintained mode text (byte ∷ bytes) send h =
      let next : Endpoint.on_byte p accepts s byte (typed maintained mode text)
          ≡ typed maintained mode (text ++ byte ∷ []) =
        ap
          (λ r.
            Endpoint.on_optional p accepts s r.1
              (Endpoint.with_parser r.0 (typed maintained mode text)))
          (push-char byte h.0)
        ∙ ap
            (λ may.
              if may then typed maintained mode (text ++ byte ∷ []) else typed maintained mode text)
            send in
      ap (Endpoint.on_bytes p accepts s bytes) next
      ∙ on_bytes-typed maintained mode (text ++ byte ∷ []) bytes send h.1
      ∙ ap (typed maintained mode) (append_assoc text (byte ∷ []) bytes)

  -- Characters that arrive together are streamed as one text, whole and in order, once, and with
  -- nothing before it; the session goes on exactly if the scheduler takes them.
  pub on_read-typed :
      (maintained : Bool) (mode : Endpoint.SessionMode) (byte : ℕ) (bytes : Bytes)
      → p.send ≡ true
      → All IsPrintable (byte ∷ bytes)
      → Endpoint.on_read p accepts s (byte ∷ bytes) (open_endpoint maintained mode) ≡ record {
        endpoint = open_endpoint maintained mode;
        effects = Endpoint.streams [] (byte ∷ bytes) ∷ [];
        goes_on = accepts (Endpoint.streams [] (byte ∷ bytes));
      }
  unfolding Endpoint.on_read Endpoint.flush_stream
  on_read-typed maintained mode byte bytes send h =
      ap
        (λ (r : Endpoint.Reading).
          if r.turn.goes_on then (Endpoint.flush_stream accepts r).turn else r.turn)
        (on_bytes-typed maintained mode [] (byte ∷ bytes) send h)
