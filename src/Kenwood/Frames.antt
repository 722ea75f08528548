-- ===== src/Kenwood/Frames.antt =====
-- Frames of Kenwood CAT (backend/kenwood/ts590.rs): a verb of letters, a payload, a semicolon.
use Prim.Native.Nat.{◌^◌}
use cathub.Prelude.{
  ℕ, ◌-◌, Bool, false, ◌||◌, [], ◌∷◌, ◌++◌, Option, none, some, ◌==◌, if◌then◌else◌, is_empty,
  Bytes,
}
use cathub.Prelude.Text.{within, trim, parse_unsigned, padded}
use cathub.Radio.Model.{Vfo, a, b}

abbrev pub semicolon : ℕ
semicolon = b';'

-- The bytes before the first semicolon, or all of them.
unfoldable pub body_of : Bytes → Bytes
body_of [] = []
body_of (c ∷ cs) = if c == semicolon then [] else c ∷ body_of cs

abbrev pub is_ascii_alphabetic : ℕ → Bool
is_ascii_alphabetic c = within 0x41 0x5a c || within 0x61 0x7a c

-- The leading letters, and the rest.
unfoldable pub verb_of : Bytes → Bytes × Bytes
verb_of [] = ([], [])
verb_of (c ∷ cs) =
    let (verb, payload) = verb_of cs in
    if is_ascii_alphabetic c then (c ∷ verb, payload) else ([], c ∷ cs)

abbrev pub with_verb : Bytes × Bytes → Option (Bytes × Bytes)
with_verb ([], payload) = none
with_verb (c ∷ verb, payload) = some (c ∷ verb, payload)

unfoldable pub split_frame : Bytes → Option (Bytes × Bytes)
unfolding body_of verb_of
split_frame frame = with_verb (verb_of (body_of frame))

abbrev pub u64_max : ℕ
u64_max = 2 ^ 64 - 1

unfoldable pub parse_u64 : Bytes → Option ℕ
parse_u64 bytes = parse_unsigned u64_max (trim bytes)

abbrev pub vfo_digit : Vfo → ℕ
vfo_digit a = b'0'
vfo_digit b = b'1'

abbrev pub parse_digit : ℕ → Option Vfo
parse_digit c = if c == b'0' then some a else if c == b'1' then some b else none

abbrev pub parse_rx_vfo_digit : Bytes → Option Vfo
parse_rx_vfo_digit [] = none
parse_rx_vfo_digit (c ∷ cs) = parse_digit c

abbrev pub has_empty_payload : Option (Bytes × Bytes) → Bool
has_empty_payload none = false
has_empty_payload (some (verb, payload)) = is_empty payload

unfoldable pub is_query : Bytes → Bool
unfolding split_frame
is_query frame = has_empty_payload (split_frame frame)

abbrev pub freq_verb : Vfo → Bytes
freq_verb a = b'F' ∷ b'A' ∷ []
freq_verb b = b'F' ∷ b'B' ∷ []

unfoldable pub freq_set : Vfo → ℕ → Bytes
freq_set vfo hz = freq_verb vfo ++ padded 11 hz ++ semicolon ∷ []

abbrev pub rx_vfo_set : Vfo → Bytes
rx_vfo_set vfo = b'F' ∷ b'R' ∷ vfo_digit vfo ∷ semicolon ∷ []
