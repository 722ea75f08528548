-- ===== src/Hamlib/Words.antt =====
-- Lines, words and numbers of the protocol. A line is UTF-8 bytes; what `from_utf8_lossy` makes of
-- other bytes is done before.
use cathub.Prelude.{
  ℕ, zero, suc, ◌+◌, ◌-◌, ◌^◌, Bool, ◌&&◌, ◌||◌, not, List, [], ◌∷◌, ◌++◌, Option, none, some, ◌==◌,
  leb, if◌then◌else◌, equal, Bytes, is_empty, map,
}
use cathub.Prelude.Text.{
  text, is_space, is_space2, is_space3, within, value_from, parse_unsigned, padded,
}
use cathub.Radio.Model.{Vfo, a, b, ℤ, pos, negsuc}
use cathub.Radio.Tokens.{split_once}

abbrev pub u64_most : ℕ
u64_most = 2 ^ 64 - 1

-- Every white space as one blank.
unfoldable pub blanks : Bytes → Bytes
blanks [] = []
blanks (c ∷ []) = if is_space c then 0x20 ∷ [] else c ∷ []
blanks (c ∷ d ∷ []) =
    let rest = blanks (d ∷ []) in
    if is_space2 c d then 0x20 ∷ [] else (if is_space c then 0x20 else c) ∷ rest
blanks (c ∷ d ∷ e ∷ cs) =
    let rest = blanks (d ∷ e ∷ cs) in
    let rest2 = blanks (e ∷ cs) in
    let rest3 = blanks cs in
    if is_space3 c d e
    then 0x20 ∷ rest3
    else if is_space2 c d
    then 0x20 ∷ rest2
    else (if is_space c then 0x20 else c) ∷ rest

-- The pieces between separators, the last one included.
abbrev pub onto_first : ℕ → List Bytes → List Bytes
onto_first c [] = (c ∷ []) ∷ []
onto_first c (w ∷ ws) = (c ∷ w) ∷ ws

abbrev pub split_at : ℕ → Bytes → List Bytes
split_at sep [] = [] ∷ []
split_at sep (c ∷ cs) =
    let pieces = split_at sep cs in if c == sep then [] ∷ pieces else onto_first c pieces

abbrev pub non_empty : List Bytes → List Bytes
non_empty [] = []
non_empty (w ∷ ws) = let rest = non_empty ws in if is_empty w then rest else w ∷ rest

unfoldable pub split_whitespace : Bytes → List Bytes
unfolding blanks
split_whitespace line = non_empty (split_at 0x20 (blanks line))

abbrev pub lower : ℕ → ℕ
lower c = if within 0x41 0x5a c then c + 32 else c

abbrev pub eq_ignore_ascii_case : Bytes → Bytes → Bool
eq_ignore_ascii_case x y = equal (map lower x) (map lower y)

abbrev pub decimal : ℕ → Bytes
decimal = padded 1

abbrev pub flag_text : Bool → Bytes
flag_text on = if on then text "1" else text "0"

abbrev pub signed : ℤ → Bytes
signed (pos n) = decimal n
signed (negsuc n) = b'-' ∷ decimal (suc n)

abbrev pub line_of : Bytes → Bytes
line_of bytes = bytes ++ 10 ∷ []

abbrev pub vfo_name : Vfo → Bytes
vfo_name a = text "VFOA"
vfo_name b = text "VFOB"

abbrev pub named_b : Option Bytes → Vfo
named_b none = a
named_b (some v) = if eq_ignore_ascii_case v (text "VFOB") then b else a

abbrev pub whole_part : Option (Bytes × Bytes) → Option ℕ
whole_part none = none
whole_part (some (whole, fraction)) = parse_unsigned u64_most whole

abbrev pub or_else : Option ℕ → Option ℕ → Option ℕ
or_else none later = later
or_else (some n) later = some n

unfoldable pub parse_freq_hz : Bytes → Option ℕ
unfolding split_once parse_unsigned
parse_freq_hz arg = or_else (parse_unsigned u64_most arg) (whole_part (split_once b'.' arg))

abbrev pub negated : ℕ → ℤ
negated zero = pos 0
negated (suc n) = negsuc n

abbrev pub negative : Bytes → Option ℕ → Option ℤ
negative digits none = none
negative digits (some n) =
    if not (is_empty digits) && leb n (2 ^ 31) then some (negated n) else none

abbrev pub positive : Option ℕ → Option ℤ
positive none = none
positive (some n) = some (pos n)

-- `parse::<i32>`.
unfoldable pub parse_i32 : Bytes → Option ℤ
unfolding parse_unsigned
parse_i32 [] = none
parse_i32 (c ∷ cs) =
    if c == b'-'
    then negative cs (value_from 0 cs)
    else positive (parse_unsigned (2 ^ 31 - 1) (c ∷ cs))

-- The separator of an extended reply, and the rest of the line.
unfoldable pub split_erp : Bytes → Option (ℕ × Bytes)
split_erp [] = none
split_erp (c ∷ cs) =
    if c == b'+'
    then some (10, cs)
    else if c == b';' || c == b'|' || c == b','
    then some (c, cs)
    else none

abbrev pub join : Bytes → List Bytes → Bytes
join sep [] = []
join sep (r ∷ []) = r
join sep (r ∷ q ∷ rs) = r ++ sep ++ join sep (q ∷ rs)

unfoldable pub erp_records : ℕ → List Bytes → Bytes
erp_records sep records = line_of (join (sep ∷ []) records)
