-- ===== src/Kenwood/Writes.antt =====
-- What the TS-590 backend writes, read back by the backend itself.
use cathub.Prelude.{
  ℕ, ◌^◌, ◌<◌, ◌≡◌, refl, ap, ◌∙◌, false, [], ◌∷◌, ◌++◌, some, arith, ◌==◌, All, Bytes, contains,
  equal, max,
}
use cathub.Prelude.Text.{digit_count, padded}
use cathub.Prelude.Text.Digits.{IsDigit, digits-IsDigit, parse_unsigned-padded}
use cathub.Radio.Model.{Vfo, a, b, freq}
use cathub.Radio.State.{Snapshot}
use cathub.Kenwood.Frames.{semicolon, body_of, verb_of, split_frame, parse_u64, freq_verb, freq_set}
use cathub.Kenwood.Ts590.{parse_if_status, verb_changes, changes_of, bind}

digits-body_of : (xs : Bytes) → All IsDigit xs → body_of (xs ++ semicolon ∷ []) ≡ xs
unfolding body_of
digits-body_of [] h = refl
digits-body_of (x ∷ xs) h = ground (arith, h.0, digits-body_of xs h.1)

pub digits-verb_of : (xs : Bytes) → All IsDigit xs → verb_of xs ≡ ([], xs)
unfolding verb_of
digits-verb_of [] h = refl
digits-verb_of (x ∷ xs) h = ground (arith, h.0)

pub digits-contains : (xs : Bytes) → All IsDigit xs → contains xs semicolon ≡ false
digits-contains [] h = refl
digits-contains (x ∷ xs) h = ground (arith, h.0, digits-contains xs h.1)

pub padded-IsDigit : (width n : ℕ) → All IsDigit (padded width n)
unfolding padded
padded-IsDigit width n = digits-IsDigit (max width (digit_count 19 n)) n

-- A frame of two letters and digits splits at the letters.
split-digits :
    (c d : ℕ) (xs : Bytes)
    → All IsDigit xs
    → (verb_of (c ∷ d ∷ xs) ≡ (c ∷ d ∷ [], xs))
    → (c == semicolon) ≡ false
    → (d == semicolon) ≡ false
    → split_frame (c ∷ d ∷ xs ++ semicolon ∷ []) ≡ some (c ∷ d ∷ [], xs)
unfolding split_frame body_of
split-digits c d xs h v p q = rw (p, q, digits-body_of xs h, v) refl

letters-verb_of :
    (xs : Bytes)
    → All IsDigit xs
    → (verb_of (b'F' ∷ b'A' ∷ xs) ≡ (b'F' ∷ b'A' ∷ [], xs))
      × (verb_of (b'F' ∷ b'B' ∷ xs) ≡ (b'F' ∷ b'B' ∷ [], xs))
letters-verb_of xs h =
    let e = digits-verb_of xs h in
    (
      unfold verb_of in ap (λ r. (b'F' ∷ b'A' ∷ r.0, r.1)) e,
      unfold verb_of in ap (λ r. (b'F' ∷ b'B' ∷ r.0, r.1)) e,
    )

pub split_frame-freq_set :
    (vfo : Vfo) (hz : ℕ) → split_frame (freq_set vfo hz) ≡ some (freq_verb vfo, padded 11 hz)
unfolding freq_set
split_frame-freq_set a hz =
    let h = padded-IsDigit 11 hz in
    split-digits b'F' b'A' (padded 11 hz) h (letters-verb_of (padded 11 hz) h).0 refl refl
split_frame-freq_set b hz =
    let h = padded-IsDigit 11 hz in
    split-digits b'F' b'B' (padded 11 hz) h (letters-verb_of (padded 11 hz) h).1 refl refl

pub changes_of-split :
    (s : Snapshot) (f verb payload : Bytes)
    → split_frame f ≡ some (verb, payload)
    → equal verb (b'I' ∷ b'F' ∷ []) ≡ false
    → changes_of s f ≡ verb_changes s verb payload
unfolding changes_of parse_if_status
changes_of-split s f verb payload e n = rw (e, n) refl

-- A frequency that is written is read back as the same change of the same VFO.
pub freq_set-changes_of :
    (s : Snapshot) (vfo : Vfo) (hz : ℕ)
    → hz < 2 ^ 64
    → changes_of s (freq_set vfo hz) ≡ some (freq vfo hz ∷ [])
freq_set-changes_of s vfo hz h =
    changes_of-split s (freq_set vfo hz) (freq_verb vfo) (padded 11 hz)
      (split_frame-freq_set vfo hz) (named vfo)
    ∙ read vfo
  where
    named : (v : Vfo) → equal (freq_verb v) (b'I' ∷ b'F' ∷ []) ≡ false
    named a = refl
    named b = refl

    parsed : parse_u64 (padded 11 hz) ≡ some hz
    parsed = unfold parse_u64 in parse_unsigned-padded 11 hz h

    read : (v : Vfo) → verb_changes s (freq_verb v) (padded 11 hz) ≡ some (freq v hz ∷ [])
    read a = unfold verb_changes in ap (λ o. bind o (λ n. some (freq a n ∷ []))) parsed
    read b = unfold verb_changes in ap (λ o. bind o (λ n. some (freq b n ∷ []))) parsed
