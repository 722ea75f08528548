-- ===== src/Radio/Tokens.antt =====
-- The texts of model.rs: Hamlib's mode tokens and relative power.
use cathub.Prelude.{
  ℕ, zero, suc, ◌-◌, ◌^◌, ◌≡◌, refl, Bool, true, false, ◌&&◌, ◌||◌, not, [], ◌∷◌, ◌++◌, Option,
  none, some, ◌==◌, ltb, if◌then◌else◌, equal, Bytes, is_empty, length,
}
use cathub.Prelude.Text.{text, trim, parse_unsigned, padded, is_digit}
use cathub.Radio.Model.{Mode, lsb, usb, cw, cw_r, fsk, fsk_r, am, fm, unknown, same_mode, TxPower}
use cathub.Radio.Power.{relative_scale}

unfoldable pub hamlib_token : Mode → Bytes
hamlib_token lsb = text "LSB"
hamlib_token usb = text "USB"
hamlib_token unknown = text "USB"
hamlib_token cw = text "CW"
hamlib_token cw_r = text "CWR"
hamlib_token fsk = text "RTTY"
hamlib_token fsk_r = text "RTTYR"
hamlib_token am = text "AM"
hamlib_token fm = text "FM"

abbrev pub mode_of_token : Bytes → Mode
mode_of_token token =
    if equal token (text "LSB")
    then lsb
    else if equal token (text "USB")
    then usb
    else if equal token (text "CW")
    then cw
    else if equal token (text "CWR")
    then cw_r
    else if equal token (text "RTTY")
    then fsk
    else if equal token (text "RTTYR")
    then fsk_r
    else if equal token (text "AM")
    then am
    else if equal token (text "FM")
    then fm
    else unknown

unfoldable pub from_hamlib_token : Bytes → Mode
unfolding trim
from_hamlib_token token = mode_of_token (trim token)

unfoldable pub hamlib_token_with_data : Mode → Bool → Bytes
unfolding hamlib_token
hamlib_token_with_data usb true = text "PKTUSB"
hamlib_token_with_data lsb true = text "PKTLSB"
hamlib_token_with_data fm true = text "PKTFM"
hamlib_token_with_data am true = text "PKTAM"
hamlib_token_with_data m _ = hamlib_token m

-- `strip_prefix`.
abbrev pub strip_prefix : Bytes → Bytes → Option Bytes
strip_prefix [] bytes = some bytes
strip_prefix (p ∷ ps) [] = none
strip_prefix (p ∷ ps) (b ∷ bs) = if b == p then strip_prefix ps bs else none

abbrev pub decomposed : Bytes → Option Bytes → Mode × Bool
decomposed whole none = (from_hamlib_token whole, false)
decomposed whole (some base) = (from_hamlib_token base, true)

unfoldable pub decompose_hamlib_token : Bytes → Mode × Bool
unfolding from_hamlib_token
decompose_hamlib_token token = decomposed (trim token) (strip_prefix (text "PKT") (trim token))

-- The modes whose token has a DATA form.
abbrev pub has_packet : Mode → Bool
has_packet m = same_mode m usb || same_mode m lsb || same_mode m fm || same_mode m am

-- The token that is shown for a mode and a DATA flag is taken apart into the same mode, an unknown
-- one as USB, and the same flag, where the mode has a DATA form.
pub decompose-hamlib_token_with_data :
    (m : Mode) (data_on : Bool)
    → decompose_hamlib_token (hamlib_token_with_data m data_on)
      ≡ ((if same_mode m unknown then usb else m), data_on && has_packet m)
unfolding decompose_hamlib_token hamlib_token_with_data
decompose-hamlib_token_with_data lsb true = refl
decompose-hamlib_token_with_data usb true = refl
decompose-hamlib_token_with_data cw true = refl
decompose-hamlib_token_with_data cw_r true = refl
decompose-hamlib_token_with_data fsk true = refl
decompose-hamlib_token_with_data fsk_r true = refl
decompose-hamlib_token_with_data am true = refl
decompose-hamlib_token_with_data fm true = refl
decompose-hamlib_token_with_data unknown true = refl
decompose-hamlib_token_with_data lsb false = refl
decompose-hamlib_token_with_data usb false = refl
decompose-hamlib_token_with_data cw false = refl
decompose-hamlib_token_with_data cw_r false = refl
decompose-hamlib_token_with_data fsk false = refl
decompose-hamlib_token_with_data fsk_r false = refl
decompose-hamlib_token_with_data am false = refl
decompose-hamlib_token_with_data fm false = refl
decompose-hamlib_token_with_data unknown false = refl

-- `split_once`.
abbrev pub after_first : Bytes → Option (Bytes × Bytes) → ℕ → Option (Bytes × Bytes)
after_first cs none c = none
after_first cs (some (before, rest)) c = some (c ∷ before, rest)

unfoldable pub split_once : ℕ → Bytes → Option (Bytes × Bytes)
split_once sep [] = none
split_once sep (c ∷ cs) =
    let later = split_once sep cs in if c == sep then some ([], cs) else after_first cs later c

abbrev pub all_bytes : (ℕ → Bool) → Bytes → Bool
all_bytes p [] = true
all_bytes p (c ∷ cs) = p c && all_bytes p cs

abbrev pub zeros : ℕ → Bytes
zeros zero = []
zeros (suc n) = b'0' ∷ zeros n

abbrev pub or_whole : Bytes → Option (Bytes × Bytes) → Bytes × Bytes
or_whole whole none = (whole, [])
or_whole whole (some parts) = parts

abbrev pub millionths : Bytes × Bytes → Option ℕ
millionths (whole, fraction) =
    if equal whole (b'0' ∷ [])
    then (if ltb 6 (length fraction) || not (all_bytes is_digit fraction)
        then none
        else parse_unsigned (2 ^ 32 - 1) (fraction ++ zeros (6 - length fraction)))
    else if equal whole (b'1' ∷ []) && all_bytes (λ c. c == b'0') fraction
    then some relative_scale
    else none

unfoldable pub parse_relative_millionths : Bytes → Option ℕ
unfolding split_once parse_unsigned
parse_relative_millionths value = millionths (or_whole (trim value) (split_once b'.' (trim value)))

-- `trim_end_matches('0')`.
abbrev pub trim_zeros : Bytes → Bytes
trim_zeros [] = []
trim_zeros (c ∷ cs) =
    let rest = trim_zeros cs in if is_empty rest && c == b'0' then [] else c ∷ rest

unfoldable pub relative_decimal : TxPower → Bytes
relative_decimal power =
    if power.relative_millionths == relative_scale
    then b'1' ∷ []
    else if power.relative_millionths == 0
    then b'0' ∷ []
    else b'0' ∷ b'.' ∷ trim_zeros (padded 6 power.relative_millionths)
