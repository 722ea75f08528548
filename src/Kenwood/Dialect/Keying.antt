-- ===== src/Kenwood/Dialect/Keying.antt =====
-- What the native dialects make of a request.
use cathub.Prelude.{
  ℕ, ◌≡◌, refl, Bool, true, false, ◌&&◌, ◌||◌, [], ◌∷◌, Option, none, some, if◌then◌else◌, is_empty,
  equal, Bytes, arith,
}
use cathub.Radio.State.{Snapshot}
use cathub.Radio.Model.{Vfo, a, b, set_ptt, generic}
use cathub.Radio.Permissions.{
  passthrough_read, config_write_class, modeled_write, ptt_write, exclusive,
}
use cathub.Kenwood.Frames.{parse_u64}
use cathub.Kenwood.Dialect.{
  Action, says, toggles, applies, forwards, set_freq, freq_write, mode_write, auto_info, is_verb,
  active, turns_on,
}
use cathub.Kenwood.Dialect.Ts590
use cathub.Kenwood.Dialect.Transparent

-- The verbs that key and unkey, and those that set what the snapshot keeps.
abbrev pub is_keying : Bytes → Bool
is_keying verb = is_verb verb b'T' b'X' || is_verb verb b'R' b'X'

abbrev pub is_setting : Bytes → Bool
is_setting verb = is_verb verb b'F' b'A' || is_verb verb b'F' b'B' || is_verb verb b'M' b'D'

-- The requests that are answered here and never reach the radio as they are: keying and
-- auto-information in both native dialects; in the TS-590 dialect also frequencies, modes and the bare
-- status, and the selectors of a single-VFO session.
abbrev pub is_mediated : Bytes → Bool
is_mediated verb = is_keying verb || is_verb verb b'A' b'I'

abbrev pub is_held : (single_vfo : Bool) → Bytes → Bytes → Bool
is_held single_vfo verb payload =
    is_mediated verb
    || is_setting verb
    || (is_verb verb b'I' b'F' && is_empty payload)
    || (single_vfo && (is_verb verb b'F' b'R' || is_verb verb b'F' b'T'))

-- What a dialect that holds a request back, or not, may make of it.
abbrev pub Mediates : (held : Bool) → Bytes → Bytes → Bytes → Action → Type 0
Mediates held request verb payload (forwards raw class) =
    (held ≡ false)
    × (raw ≡ request)
    × (class ≡ (if is_empty payload then passthrough_read else config_write_class))
Mediates held request verb payload (applies (set_ptt on source) class) =
    (is_verb verb (if on then b'T' else b'R') b'X' ≡ true)
    × (source ≡ generic)
    × (class ≡ ptt_write)
Mediates held request verb payload (applies m class) =
    (is_setting verb ≡ true) × (is_empty payload ≡ false) × (class ≡ modeled_write)
Mediates held request verb payload (toggles on) =
    (is_verb verb b'A' b'I' ≡ true) × (is_empty payload ≡ false) × (on ≡ turns_on payload)
Mediates held request verb payload (says bytes) = is_keying verb ≡ false

-- One verb is not another.
not_keying :
    (verb : Bytes) (c d : ℕ)
    → equal (c ∷ d ∷ []) (b'T' ∷ b'X' ∷ []) ≡ false
    → equal (c ∷ d ∷ []) (b'R' ∷ b'X' ∷ []) ≡ false
    → is_verb verb c d ≡ true
    → is_keying verb ≡ false
not_keying verb c d t r e = ground (
  arith,
  exclusive verb (c ∷ d ∷ []) (b'T' ∷ b'X' ∷ []) t e,
  exclusive verb (c ∷ d ∷ []) (b'R' ∷ b'X' ∷ []) r e,
)

module _ (held : Bool) (request verb payload : Bytes) where
  if-Mediates :
      (c : Bool) (x y : Action)
      → (c ≡ true → Mediates held request verb payload x)
      → (c ≡ false → Mediates held request verb payload y)
      → Mediates held request verb payload (if c then x else y)
  if-Mediates true x y p q = p refl
  if-Mediates false x y p q = q refl

  auto_info-Mediates :
      (ai : Bool)
      → is_verb verb b'A' b'I' ≡ true
      → Mediates held request verb payload (auto_info ai payload)
  auto_info-Mediates ai e =
      if-Mediates (is_empty payload) _ _ (λ n. not_keying verb b'A' b'I' refl refl e)
        (λ n. (e, n, refl))

  freq_write-Mediates :
      (v : Vfo) (hz : Option ℕ)
      → is_setting verb ≡ true
      → is_keying verb ≡ false
      → is_empty payload ≡ false
      → Mediates held request verb payload (freq_write v hz)
  freq_write-Mediates v none e k n = k
  freq_write-Mediates v (some hz) e k n = (e, n, refl)

  freq_request-Mediates :
      (letters : Bytes) (v : Vfo) (s : Snapshot)
      → is_setting verb ≡ true
      → is_keying verb ≡ false
      → Mediates held request verb payload (Ts590.freq_request letters v s payload)
  unfolding set_freq
  freq_request-Mediates letters v s e k =
      if-Mediates (is_empty payload) _ _ (λ n. k)
        (λ n. freq_write-Mediates v (parse_u64 payload) e k n)

  mode_write-Mediates :
      (v : Vfo) (digits : Bytes)
      → is_setting verb ≡ true
      → is_keying verb ≡ false
      → is_empty payload ≡ false
      → Mediates held request verb payload (mode_write v digits)
  mode_write-Mediates v [] e k n = k
  mode_write-Mediates v (c ∷ cs) e k n = (e, n, refl)

  mode_request-Mediates :
      (s : Snapshot)
      → is_verb verb b'M' b'D' ≡ true
      → Mediates held request verb payload (Ts590.mode_request s payload)
  mode_request-Mediates s e =
      let k = not_keying verb b'M' b'D' refl refl e in
      if-Mediates (is_empty payload) _ _ (λ n. k)
        (λ n. mode_write-Mediates (active s) payload (ground (arith, e)) k n)

  -- What both dialects do with identity and power.
  bare-Mediates :
      (bytes power : Bytes) (y : Action)
      → is_verb verb b'T' b'X' ≡ false
      → is_verb verb b'R' b'X' ≡ false
      → Mediates held request verb payload y
      → Mediates held request verb payload (
          if is_verb verb b'I' b'D' && is_empty payload
          then says bytes
          else if is_verb verb b'P' b'S' && is_empty payload
          then says power
          else y)
  bare-Mediates bytes power y tx rx h =
      if-Mediates (is_verb verb b'I' b'D' && is_empty payload) _ _ (λ c. ground (arith, tx, rx))
        (λ n.
          if-Mediates (is_verb verb b'P' b'S' && is_empty payload) _ _ (λ c. ground (arith, tx, rx))
            (λ m. h))

  -- What both dialects do with keying and auto-information.
  keys-Mediates :
      (ai : Bool) (y : Action)
      → (is_verb verb b'T' b'X' ≡ false
          → is_verb verb b'R' b'X' ≡ false
          → is_verb verb b'A' b'I' ≡ false
          → Mediates held request verb payload y)
      → Mediates held request verb payload (
          if is_verb verb b'T' b'X'
          then applies (set_ptt true generic) ptt_write
          else if is_verb verb b'R' b'X'
          then applies (set_ptt false generic) ptt_write
          else if is_verb verb b'A' b'I'
          then auto_info ai payload
          else y)
  keys-Mediates ai y h =
      if-Mediates (is_verb verb b'T' b'X') _ _ (λ c. (c, refl, refl))
        (λ tx.
          if-Mediates (is_verb verb b'R' b'X') _ _ (λ c. (c, refl, refl))
            (λ rx. if-Mediates (is_verb verb b'A' b'I') _ _ (auto_info-Mediates ai) (h tx rx)))

module _ (request verb payload : Bytes) where
  pub native-Mediates :
      (single_vfo ai : Bool) (s : Snapshot)
      → Mediates
          (is_held single_vfo verb payload)
          request
          verb
          payload
          (Ts590.verb_action single_vfo ai s request verb payload)
  unfolding Ts590.verb_action
  native-Mediates single_vfo ai s =
      let held = is_held single_vfo verb payload in
      let chosen = if-Mediates held request verb payload in
      chosen (is_verb verb b'F' b'A') _ _
        (λ e.
          freq_request-Mediates held request verb payload (Ts590.letters b'F' b'A')
            (if single_vfo then active s else a) s (ground (arith, e))
            (not_keying verb b'F' b'A' refl refl e))
        (λ fa.
          chosen (is_verb verb b'F' b'B') _ _
            (λ e.
              freq_request-Mediates held request verb payload (Ts590.letters b'F' b'B')
                (if single_vfo then active s else b) s (ground (arith, e))
                (not_keying verb b'F' b'B' refl refl e))
            (λ fb.
              chosen (is_verb verb b'F' b'R' && single_vfo) _ _
                (λ e. not_keying verb b'F' b'R' refl refl (ground (arith, e)))
                (λ fr.
                  chosen (is_verb verb b'F' b'T' && single_vfo) _ _
                    (λ e. not_keying verb b'F' b'T' refl refl (ground (arith, e)))
                    (λ ft.
                      chosen (is_verb verb b'M' b'D') _ _
                        (mode_request-Mediates held request verb payload s)
                        (λ md. keys-Mediates held request verb payload ai _ (λ tx rx info.
                          bare-Mediates held request verb payload _ _ _ tx rx (
                            chosen (is_verb verb b'I' b'F' && is_empty payload) _ _
                              (λ c. ground (arith, tx, rx))
                              (λ status. (
                                ground (arith, fa, fb, fr, ft, md, tx, rx, info, status),
                                refl,
                                refl,
                              )))))))))
