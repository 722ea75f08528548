-- ===== src/Prelude/Text.antt =====
-- Text as UTF-8 bytes: what the program uses of Rust's `str` (`trim`, `parse::<u64>`, `{:011}`).
pub mod Digits
use Prim.Native.Nat.{ℕ, zero, suc, ◌+◌, ◌-◌, ◌*◌, ◌/◌, ◌%◌, ◌^◌, ◌≤◌, ◌<◌, max}
use Prim.Native.Char.{code}
use Prim.Native.String
use Prim.Native.String.{String}
use mathlib.Core.Path.{◌≡◌, refl, sym, ap, ◌∙◌}
use mathlib.Core.Bool.{Bool, true, false, ◌&&◌, ◌||◌, not}
use mathlib.Core.List.{List, [], ◌∷◌, ◌++◌, reverse, append_assoc}
use mathlib.Core.Option.{Option, none, some}
use native.Mathlib.Omega.{arith}
use cathub.Prelude.Tests.{ltb, leb, ◌==◌, if◌then◌else◌}
use cathub.Prelude.Lists.{length, is_empty, All}

-- The bytes of an ASCII text.
abbrev pub text : String → List ℕ
text String.[] = []
text (String.◌∷◌ c s) = code c ∷ text s

-- `a..=b` as a test.
abbrev pub within : ℕ → ℕ → ℕ → Bool
within a b c = leb a c && leb c b

-- The white space of one byte, and the UTF-8 forms of the rest of Unicode's.
abbrev pub is_space : ℕ → Bool
is_space c = within 9 13 c || c == 0x20

abbrev pub is_space2 : ℕ → ℕ → Bool
is_space2 c d = c == 0xc2 && (d == 0x85 || d == 0xa0)

abbrev pub is_space3 : ℕ → ℕ → ℕ → Bool
is_space3 c d e =
    (c == 0xe1 && d == 0x9a && e == 0x80)
    || (c == 0xe2 && d == 0x80 && (within 0x80 0x8a e || within 0xa8 0xa9 e || e == 0xaf))
    || (c == 0xe2 && d == 0x81 && e == 0x9f)
    || (c == 0xe3 && d == 0x80 && e == 0x80)

-- What may follow the first byte of a character in UTF-8: how many bytes, and the range of the next
-- one. A byte that starts no character asks for one in an empty range.
abbrev pub utf8_lead : ℕ → ℕ × ℕ × ℕ
utf8_lead c =
    if ltb c 0x80
    then (0, 0x80, 0xbf)
    else if within 0xc2 0xdf c
    then (1, 0x80, 0xbf)
    else if c == 0xe0
    then (2, 0xa0, 0xbf)
    else if c == 0xed
    then (2, 0x80, 0x9f)
    else if within 0xe1 0xef c
    then (2, 0x80, 0xbf)
    else if c == 0xf0
    then (3, 0x90, 0xbf)
    else if within 0xf1 0xf3 c
    then (3, 0x80, 0xbf)
    else if c == 0xf4
    then (3, 0x80, 0x8f)
    else (1, 1, 0)

-- `from_utf8` as a test: whether the bytes end the character begun, and are characters from there on.
abbrev pub is_utf8_from : (left low high : ℕ) → List ℕ → Bool
is_utf8_from zero low high [] = true
is_utf8_from (suc left) low high [] = false
is_utf8_from zero low high (c ∷ cs) =
    let (left, low_next, high_next) = utf8_lead c in is_utf8_from left low_next high_next cs
is_utf8_from (suc left) low high (c ∷ cs) = within low high c && is_utf8_from left 0x80 0xbf cs

-- `from_utf8(..).unwrap_or("")`.
unfoldable pub utf8_or_empty : List ℕ → List ℕ
utf8_or_empty bytes = if is_utf8_from 0 0x80 0xbf bytes then bytes else []

-- Drop leading white space; `swapped` reads the bytes of a character from its end.
unfoldable pub trim_front : (swapped : Bool) → List ℕ → List ℕ
trim_front swapped [] = []
trim_front swapped (c ∷ []) = if is_space c then [] else c ∷ []
trim_front swapped (c ∷ d ∷ []) =
    let rest = trim_front swapped (d ∷ []) in
    if is_space c
    then rest
    else if (if swapped then is_space2 d c else is_space2 c d)
    then []
    else c ∷ d ∷ []
trim_front swapped (c ∷ d ∷ e ∷ cs) =
    let rest = trim_front swapped (d ∷ e ∷ cs) in
    let rest2 = trim_front swapped (e ∷ cs) in
    let rest3 = trim_front swapped cs in
    if is_space c
    then rest
    else if (if swapped then is_space2 d c else is_space2 c d)
    then rest2
    else if (if swapped then is_space3 e d c else is_space3 c d e)
    then rest3
    else c ∷ d ∷ e ∷ cs

unfoldable pub trim : List ℕ → List ℕ
unfolding trim_front
trim bytes = reverse (trim_front true (reverse (trim_front false bytes)))

abbrev pub is_digit : ℕ → Bool
is_digit c = within 0x30 0x39 c

-- The value of a string of digits, read on from a number.
abbrev pub value_from : ℕ → List ℕ → Option ℕ
value_from n [] = some n
value_from n (c ∷ cs) = if is_digit c then value_from (n * 10 + (c - 0x30)) cs else none

abbrev pub without_sign : List ℕ → List ℕ
without_sign [] = []
without_sign (c ∷ cs) = if c == b'+' then cs else c ∷ cs

abbrev pub fits : ℕ → Option ℕ → Option ℕ
fits most none = none
fits most (some n) = if leb n most then some n else none

-- `str::parse` of an unsigned type whose largest value is `most`.
unfoldable pub parse_unsigned : ℕ → List ℕ → Option ℕ
parse_unsigned most text =
    let digits = without_sign text in
    if is_empty digits then none else fits most (value_from 0 digits)

-- The last `w` decimal digits of a number, and the number of its digits, at most `w + 1`.
abbrev pub digits : ℕ → ℕ → List ℕ
digits zero n = []
digits (suc w) n = digits w (n / 10) ++ (0x30 + n % 10) ∷ []

abbrev pub digit_count : ℕ → ℕ → ℕ
digit_count zero n = 1
digit_count (suc w) n = let more = digit_count w (n / 10) in if ltb n 10 then 1 else suc more

-- `format!("{n:0width$}")` of a `u64`, which has at most 20 digits.
unfoldable pub padded : ℕ → ℕ → List ℕ
padded width n = digits (max width (digit_count 19 n)) n

abbrev pub power10 : ℕ → ℕ
power10 zero = 1
power10 (suc w) = 10 * power10 w
