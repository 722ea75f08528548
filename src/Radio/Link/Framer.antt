-- ===== src/Radio/Link/Framer.antt =====
-- `Framer` of radio/mod.rs: a byte stream cut at its delimiter, with a bounded partial frame.
use cathub.Prelude.{ℕ, List, [], ◌∷◌, ◌++◌, ◌==◌, leb, if◌then◌else◌, length, Bytes}

-- `MAX_RADIO_FRAME_LEN`.
abbrev pub max_radio_frame_len : ℕ
max_radio_frame_len = 4096

pub data Framing : Type 0 where
  semicolon_terminated line_terminated ci_v : Framing

abbrev pub delimiter : Framing → ℕ
delimiter semicolon_terminated = b';'
delimiter line_terminated = 0x0a
delimiter ci_v = 0xfd

pub record Framer : Type 0 where
  pub framing : Framing
  pub buf : Bytes

abbrev pub new_framer : Framing → Framer
new_framer framing = record { framing = framing; buf = [] }

-- What is left of the partial frame when a byte arrives.
abbrev pub bounded : Bytes → Bytes
bounded buf = if leb max_radio_frame_len (length buf) then [] else buf

-- The body of the loop: the new partial frame, and the frame that the byte completes.
unfoldable pub push_byte : ℕ → Bytes → ℕ → Bytes × List Bytes
push_byte delim buf b =
    let grown = bounded buf ++ b ∷ [] in if b == delim then ([], grown ∷ []) else (grown, [])

unfoldable pub push_bytes : ℕ → Bytes → Bytes → Bytes × List Bytes
push_bytes delim buf [] = (buf, [])
push_bytes delim buf (b ∷ bs) =
    let (next, done) = push_byte delim buf b in
    let (last, frames) = push_bytes delim next bs in (last, done ++ frames)

unfoldable pub push : Framer → Bytes → Framer × List Bytes
unfolding push_bytes
push f bytes =
    let (buf, frames) = push_bytes (delimiter f.framing) f.buf bytes in
    (record f { buf = buf }, frames)
