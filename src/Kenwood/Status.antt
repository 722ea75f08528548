-- ===== src/Kenwood/Status.antt =====
-- The status frame of the TS-590, written by its layout and read by the backend.
use cathub.Prelude.{
  ℕ, suc, ◌+◌, ◌<◌, ◌≡◌, refl, sym, ap, ◌∙◌, Bool, true, false, List, [], ◌∷◌, ◌++◌, some, arith,
  ◌==◌, length, All, Bytes, if◌then◌else◌, contains, or_left, or_right, append_assoc, length-append,
  get_elem?,
}
use cathub.Prelude.Text.{digits, power10, parse_unsigned}
use cathub.Prelude.Text.Digits.{
  IsDigit, digits-IsDigit, trim-digits, parse_unsigned-digits, length-digits,
}
use cathub.VirtualSerial.Wire.{take?, take?-append}
use cathub.Radio.Model.{Vfo, a, b, other, from_kenwood_digit, freq, mode, ptt, split, rx_vfo}
use cathub.Radio.State.{Snapshot}
use cathub.Kenwood.Frames.{
  semicolon, body_of, verb_of, with_verb, split_frame, parse_u64, vfo_digit, parse_digit, u64_max,
}
use cathub.Kenwood.Ts590.{
  IfStatus, is_one, parse_if_payload, status_of, parse_if_status, flag, changes_of, or_frame,
  frame_changes,
}

pub record IfFrame : Type 0 where
  pub hz : ℕ
  pub filler : Bytes
  pub keyed : Bool
  pub mode_digit : ℕ
  pub receive : Vfo
  pub scan : ℕ
  pub split_on : Bool
  pub tail : Bytes

-- The layout: 11 digits of frequency, 15 bytes of offsets and memory, the transmit flag, the mode, the
-- receiving VFO, one byte, the split flag, and the rest.
abbrev pub settings : IfFrame → Bytes
settings f = flag f.keyed ∷ f.mode_digit ∷ vfo_digit f.receive ∷ f.scan ∷ flag f.split_on ∷ f.tail

abbrev pub payload : IfFrame → Bytes
payload f = (digits 11 f.hz ++ f.filler) ++ settings f

abbrev pub if_frame : IfFrame → Bytes
if_frame f = b'I' ∷ b'F' ∷ payload f ++ semicolon ∷ []

pub record IsStatus (f : IfFrame) : Type 0 where
  pub tunable : f.hz < power10 11
  pub filled : length f.filler ≡ 15
  pub closed : contains (f.filler ++ settings f) semicolon ≡ false

get_elem?-append {ℓ} :
    {A : Type ℓ} (xs ys : List A) (i : ℕ) → get_elem? (xs ++ ys) (length xs + i) ≡ get_elem? ys i
get_elem?-append [] ys i = let e : 0 + i ≡ i = omega arith in ap (get_elem? ys) e
get_elem?-append (x ∷ xs) ys i =
    let e : suc (length xs) + i ≡ suc (length xs + i) = omega arith in
    ap (get_elem? (x ∷ xs ++ ys)) e ∙ get_elem?-append xs ys i

-- The fields of a status are read each on its own.
parse_if_payload-fields :
    (p hz : Bytes) (n tx digit vfo split_digit : ℕ) (receive : Vfo)
    → get_elem? p 28 ≡ some vfo
    → parse_digit vfo ≡ some receive
    → take? 11 p ≡ some hz
    → parse_u64 hz ≡ some n
    → get_elem? p 26 ≡ some tx
    → get_elem? p 27 ≡ some digit
    → get_elem? p 30 ≡ some split_digit
    → parse_if_payload p
      ≡ some (record {
        freq_hz = n;
        keyed = is_one tx;
        if_mode = from_kenwood_digit digit;
        receive = receive;
        split_on = is_one split_digit;
      })
unfolding parse_if_payload
parse_if_payload-fields p hz n tx digit vfo split_digit receive v r t h k d s =
    rw (v, r, t, h, k, d, s) refl

module _ (f : IfFrame) (v : IsStatus f) where
  head-length : length (digits 11 f.hz ++ f.filler) ≡ 26
  head-length =
      length-append (digits 11 f.hz) f.filler ∙ omega (arith, length-digits 11 f.hz, v.filled)

  at-settings : (i : ℕ) → get_elem? (payload f) (26 + i) ≡ get_elem? (settings f) i
  at-settings i =
      ap (λ n. get_elem? (payload f) (n + i)) (sym head-length)
      ∙ get_elem?-append (digits 11 f.hz ++ f.filler) (settings f) i

  hz-taken : take? 11 (payload f) ≡ some (digits 11 f.hz)
  hz-taken =
      ap (take? 11) (append_assoc (digits 11 f.hz) f.filler (settings f))
      ∙ ap (λ n. take? n (digits 11 f.hz ++ f.filler ++ settings f)) (sym (length-digits 11 f.hz))
      ∙ take?-append (digits 11 f.hz) (f.filler ++ settings f)

  hz-parsed : parse_u64 (digits 11 f.hz) ≡ some f.hz
  unfolding parse_u64
  hz-parsed =
      ap (parse_unsigned u64_max) (trim-digits 11 f.hz (omega arith))
      ∙ parse_unsigned-digits u64_max 11 f.hz (omega arith) v.tunable (omega (arith, v.tunable))

  status : IfStatus
  status = record {
    freq_hz = f.hz;
    keyed = f.keyed;
    if_mode = from_kenwood_digit f.mode_digit;
    receive = f.receive;
    split_on = f.split_on;
  }

  flag-is_one : (on : Bool) → is_one (flag on) ≡ on
  flag-is_one true = refl
  flag-is_one false = refl

  digit-parsed : (w : Vfo) → parse_digit (vfo_digit w) ≡ some w
  digit-parsed a = refl
  digit-parsed b = refl

  payload-parsed : parse_if_payload (payload f) ≡ some status
  unfolding status
  payload-parsed =
      parse_if_payload-fields (payload f) (digits 11 f.hz) f.hz (flag f.keyed) f.mode_digit
        (vfo_digit f.receive) (flag f.split_on) f.receive (at-settings 2) (digit-parsed f.receive)
        hz-taken hz-parsed (at-settings 0) (at-settings 1) (at-settings 4)
      ∙ ap
          (λ x. some (record {
            freq_hz = f.hz;
            keyed = x;
            if_mode = from_kenwood_digit f.mode_digit;
            receive = f.receive;
            split_on = is_one (flag f.split_on);
          }))
          (flag-is_one f.keyed)
      ∙ ap
          (λ x. some (record {
            freq_hz = f.hz;
            keyed = f.keyed;
            if_mode = from_kenwood_digit f.mode_digit;
            receive = f.receive;
            split_on = x;
          }))
          (flag-is_one f.split_on)

closed-body_of : (xs : Bytes) → contains xs semicolon ≡ false → body_of (xs ++ semicolon ∷ []) ≡ xs
unfolding body_of
closed-body_of [] h = refl
closed-body_of (x ∷ xs) h =
    rw (or_left (x == semicolon) _ h)
      (ap (◌∷◌ x) (closed-body_of xs (or_right (x == semicolon) _ h)))

digits-closed :
    (xs ys : Bytes)
    → All IsDigit xs
    → contains ys semicolon ≡ false
    → contains (xs ++ ys) semicolon ≡ false
digits-closed [] ys h k = k
digits-closed (x ∷ xs) ys h k = ground (arith, h.0, digits-closed xs ys h.1 k)

-- A digit ends the verb.
digit-verb_of : (x : ℕ) (xs : Bytes) → IsDigit x → verb_of (x ∷ xs) ≡ ([], x ∷ xs)
unfolding verb_of
digit-verb_of x xs d = ground (arith, d)

front-verb_of :
    (xs ys : Bytes) → All IsDigit xs → 0 < length xs → verb_of (xs ++ ys) ≡ ([], xs ++ ys)
front-verb_of [] ys h pos = absurd (omega arith)
front-verb_of (x ∷ xs) ys h pos = digit-verb_of x (xs ++ ys) h.0

if-verb_of :
    (xs : Bytes) → verb_of xs ≡ ([], xs) → verb_of (b'I' ∷ b'F' ∷ xs) ≡ (b'I' ∷ b'F' ∷ [], xs)
unfolding verb_of
if-verb_of xs e = ap (λ r. (b'I' ∷ b'F' ∷ r.0, r.1)) e

if-split_frame :
    (xs : Bytes)
    → contains xs semicolon ≡ false
    → verb_of xs ≡ ([], xs)
    → split_frame (b'I' ∷ b'F' ∷ xs ++ semicolon ∷ []) ≡ some (b'I' ∷ b'F' ∷ [], xs)
unfolding split_frame
if-split_frame xs c e =
    ap (λ body. with_verb (verb_of body)) (closed-body_of (b'I' ∷ b'F' ∷ xs) c)
    ∙ ap with_verb (if-verb_of xs e)

if_frame-split_frame :
    (f : IfFrame) → IsStatus f → split_frame (if_frame f) ≡ some (b'I' ∷ b'F' ∷ [], payload f)
if_frame-split_frame f v =
    let joined = append_assoc (digits 11 f.hz) f.filler (settings f) in
    if-split_frame (payload f)
      (ap (λ xs. contains xs semicolon) joined
        ∙ digits-closed (digits 11 f.hz) (f.filler ++ settings f) (digits-IsDigit 11 f.hz) v.closed)
      (ap verb_of joined
        ∙ front-verb_of (digits 11 f.hz) (f.filler ++ settings f) (digits-IsDigit 11 f.hz)
            (omega (arith, length-digits 11 f.hz))
        ∙ ap (λ xs. ([], xs)) (sym joined))

parse_if_status-if_frame :
    (f : IfFrame) (v : IsStatus f) → parse_if_status (if_frame f) ≡ some (status f v)
unfolding parse_if_status
parse_if_status-if_frame f v = ap status_of (if_frame-split_frame f v) ∙ payload-parsed f v

-- A status frame is recorded as what it says: the frequency and mode of the receiving VFO, keying,
-- split, with the other VFO transmitting under split and the receiving one without, and the receiving
-- VFO.
pub if_frame-changes_of :
    (s : Snapshot) (f : IfFrame)
    → IsStatus f
    → changes_of s (if_frame f)
      ≡ some (
          freq f.receive f.hz
          ∷ mode f.receive (from_kenwood_digit f.mode_digit)
          ∷ ptt f.keyed
          ∷ split f.split_on (some (if f.split_on then other f.receive else f.receive))
          ∷ rx_vfo f.receive
          ∷ [])
unfolding changes_of status
if_frame-changes_of s f v =
    ap (λ o. or_frame o (frame_changes s (split_frame (if_frame f)))) (parse_if_status-if_frame f v)
