-- ===== src/Hamlib/Chained.antt =====
-- The rigctld backend of one hub on the Hamlib server of another.
use cathub.Prelude.{
  ◌≡◌, refl, ap, ◌∙◌, Bool, true, false, ◌&&◌, ◌++◌, Option, none, some, if◌then◌else◌, Bytes,
}
use cathub.Prelude.Text.{text, trim, trim_front}
use cathub.Radio.Model.{
  Vfo, Mode, lsb, usb, cw, cw_r, fsk, fsk_r, am, fm, unknown, same_mode, PttSource, generic, mic,
  data_source, set_mode, set_data_mode, set_ptt,
}
use cathub.Radio.Tokens.{hamlib_token, hamlib_token_with_data, decompose_hamlib_token, has_packet}
use cathub.Radio.State.{Snapshot, vfo_of}
use cathub.Radio.Permissions.{ptt_write}
use cathub.Radio.Session.{Session}
use cathub.Hamlib.Words.{split_whitespace, blanks, split_erp}
use cathub.Hamlib.Commands.{command_of, writes, writes_both, dispatch_plain}
use cathub.Hamlib.Lines.{Response, planned, handle_line}
use cathub.Hamlib.Bridge.{write_line, ptt_value}

-- What a mode line and a DATA line ask of the server.
abbrev pub asks_mode : Snapshot → Mode → Bool → Response
asks_mode s m on = planned (
    writes_both (set_mode s.receive (if same_mode m unknown then usb else m))
      (set_data_mode s.receive (on && has_packet m)))

token_line-handled :
    (dump : Bytes) (c : Session) (s : Snapshot) (m : Mode) (on : Bool)
    → handle_line dump c s (text "M " ++ hamlib_token_with_data m on ++ text " 0")
      ≡ asks_mode s m on
unfolding handle_line split_whitespace blanks split_erp command_of dispatch_plain trim trim_front
    hamlib_token_with_data hamlib_token decompose_hamlib_token
token_line-handled dump c s lsb true = refl
token_line-handled dump c s lsb false = refl
token_line-handled dump c s usb true = refl
token_line-handled dump c s usb false = refl
token_line-handled dump c s cw true = refl
token_line-handled dump c s cw false = refl
token_line-handled dump c s cw_r true = refl
token_line-handled dump c s cw_r false = refl
token_line-handled dump c s fsk true = refl
token_line-handled dump c s fsk false = refl
token_line-handled dump c s fsk_r true = refl
token_line-handled dump c s fsk_r false = refl
token_line-handled dump c s am true = refl
token_line-handled dump c s am false = refl
token_line-handled dump c s fm true = refl
token_line-handled dump c s fm false = refl
token_line-handled dump c s unknown true = refl
token_line-handled dump c s unknown false = refl

hamlib_token-plain : (m : Mode) → hamlib_token m ≡ hamlib_token_with_data m false
unfolding hamlib_token_with_data
hamlib_token-plain lsb = refl
hamlib_token-plain usb = refl
hamlib_token-plain cw = refl
hamlib_token-plain cw_r = refl
hamlib_token-plain fsk = refl
hamlib_token-plain fsk_r = refl
hamlib_token-plain am = refl
hamlib_token-plain fm = refl
hamlib_token-plain unknown = refl

ptt_line-handled :
    (dump : Bytes) (c : Session) (s : Snapshot) (keyed : Bool) (source : PttSource)
    → handle_line dump c s (text "T " ++ ptt_value keyed source)
      ≡ planned (writes (set_ptt keyed (if keyed then source else generic)) ptt_write)
unfolding handle_line split_whitespace blanks split_erp command_of dispatch_plain trim trim_front
ptt_line-handled dump c s false generic = refl
ptt_line-handled dump c s false mic = refl
ptt_line-handled dump c s false data_source = refl
ptt_line-handled dump c s true generic = refl
ptt_line-handled dump c s true mic = refl
ptt_line-handled dump c s true data_source = refl

-- What a server makes of a write that is supported.
abbrev pub served : (dump : Bytes) → Session → Snapshot → Option Bytes → Option Response
served dump c s none = none
served dump c s (some line) = some (handle_line dump c s line)

-- A hub behind another is asked for what was written: a mode for that mode, an unknown one as USB,
-- with the DATA flag off; a DATA flag for it with the mode held, where the mode has a DATA form;
-- keying for keying from the same source.
pub write_line-served :
    (dump : Bytes) (c : Session) (s t : Snapshot) (vfo : Vfo) (m : Mode) (on keyed : Bool)
    (source : PttSource)
    → (served dump c s (write_line t (set_mode vfo m)) ≡ some (asks_mode s m false))
      × (served dump c s (write_line t (set_data_mode vfo on))
          ≡ some (asks_mode s (vfo_of vfo t).base_mode on))
      × (served dump c s (write_line t (set_ptt keyed source))
          ≡ some (planned (writes (set_ptt keyed (if keyed then source else generic)) ptt_write)))
unfolding write_line
write_line-served dump c s t vfo m on keyed source = (
  ap (λ token. some (handle_line dump c s (text "M " ++ token ++ text " 0"))) (hamlib_token-plain m)
      ∙ ap some (token_line-handled dump c s m false),
  ap some (token_line-handled dump c s (vfo_of vfo t).base_mode on),
  ap some (ptt_line-handled dump c s keyed source),
)
