-- ===== src/VirtualSerial/Decoder.antt =====
-- `FrameDecoder` of protocol.rs: frames out of a byte stream.
use cathub.Prelude.{
  ℕ, ◌+◌, ◌≤◌, ◌<◌, ◌≡◌, sym, ap, ◌∙◌, true, false, not, List, [], ◌∷◌, ◌++◌, Option, none, some,
  arith, ◌==◌, ltb, if◌then◌else◌, length, length-append, take, drop, take-append, drop-append,
  length-take, zero, suc, ◌-◌, subst, Bytes, Bool-cases, inl, inr,
}
use cathub.VirtualSerial.Wire.{
  bad_magic, unsupported_header, frame_too_large, Result, ok, err, and_then, get_slice, read_u16,
  read_u32, from_le_bytes, from-to_le_bytes,
}
use cathub.VirtualSerial.Payloads.{fields_bytes}
use cathub.VirtualSerial.Frame.{
  Frame, header, header_len, absolute_max_frame_len, has_magic, decode, IsFrame, wire, decode-wire,
  if_false, if_true,
}

-- The state is the bytes that wait for a complete frame.
abbrev pub FrameDecoder : Type 0
FrameDecoder = Bytes

abbrev pub push : Bytes → FrameDecoder → FrameDecoder
push bytes buffer = buffer ++ bytes

abbrev pub buffered_len : FrameDecoder → ℕ
buffered_len buffer = length buffer

abbrev pub Next : Type 0
Next = FrameDecoder × Result (Option Frame)

abbrev pub map_some : Result Frame → Result (Option Frame)
map_some r = and_then r (λ frame. ok (some frame))

-- The end of `next_frame`, from the length that the header names.
unfoldable pub take_frame : FrameDecoder → Result ℕ → Next
take_frame buffer (err e) = (buffer, err e)
take_frame buffer (ok payload_len) =
    let total = header_len + payload_len in
    if ltb absolute_max_frame_len total
    then (buffer, err (frame_too_large total))
    else if ltb (length buffer) total
    then (buffer, ok none)
    else (drop total buffer, map_some (decode (take total buffer)))

unfoldable pub check_header : FrameDecoder → Result ℕ → Next
unfolding take_frame
check_header buffer (err e) = (buffer, err e)
check_header buffer (ok len) =
    if not (len == header_len)
    then (buffer, err (unsupported_header len))
    else take_frame buffer (read_u32 buffer 16)

unfoldable pub next_frame : FrameDecoder → Next
unfolding check_header
next_frame buffer =
    if ltb (length buffer) header_len
    then (buffer, ok none)
    else if not (has_magic (get_slice buffer 0 4))
    then (buffer, err bad_magic)
    else check_header buffer (read_u16 buffer 4)

-- What `next_frame` does with a header of the right magic and length.
next_frame-header :
    (a b c d e f g h i j p0 p1 p2 p3 : ℕ) (tail : Bytes)
    → 20 ≤ length tail
    → let buffer =
        67 ∷ 72 ∷ 86 ∷ 83 ∷ 40 ∷ 0 ∷ a ∷ b ∷ c ∷ d ∷ e ∷ f ∷ g ∷ h ∷ i ∷ j ∷ p0 ∷ p1 ∷ p2 ∷ p3
        ∷ tail in
      next_frame buffer ≡ take_frame buffer (ok (from_le_bytes (p0 ∷ p1 ∷ p2 ∷ p3 ∷ [])))
unfolding next_frame check_header
next_frame-header a b c d e f g h i j p0 p1 p2 p3 tail l =
    let buffer =
      67 ∷ 72 ∷ 86 ∷ 83 ∷ 40 ∷ 0 ∷ a ∷ b ∷ c ∷ d ∷ e ∷ f ∷ g ∷ h ∷ i ∷ j ∷ p0 ∷ p1 ∷ p2 ∷ p3
      ∷ tail in
    if_false (ltb (length buffer) header_len) _ _ (ground (arith, l))

take_frame-wire :
    (f : Frame) (rest : Bytes)
    → IsFrame f
    → take_frame (wire f ++ rest) (ok (length (fields_bytes f.fields))) ≡ (rest, ok (some f))
unfolding take_frame
take_frame-wire f rest v =
    let total = header_len + length (fields_bytes f.fields) in
    let whole : total ≡ length (wire f) = omega arith in
    if_false (ltb absolute_max_frame_len total) _ _ (ground (arith, v.short))
    ∙ if_false (ltb (length (wire f ++ rest)) total) _ _
        (ground (arith, length-append (fields_bytes f.fields) rest))
    ∙ ap (λ n. (drop n (wire f ++ rest), map_some (decode (take n (wire f ++ rest))))) whole
    ∙ ap (λ left. (left, map_some (decode (take (length (wire f)) (wire f ++ rest)))))
        (drop-append (wire f) rest)
    ∙ ap (λ bytes. (rest, map_some (decode bytes))) (take-append (wire f) rest)
    ∙ ap (λ r. (rest, map_some r)) (decode-wire f v)

-- The decoder takes a well-formed frame off the front of its buffer and leaves what follows it.
pub next_frame-wire :
    (f : Frame) (rest : Bytes) → IsFrame f → next_frame (wire f ++ rest) ≡ (rest, ok (some f))
next_frame-wire f rest v =
    next_frame-header _ _ _ _ _ _ _ _ _ _ _ _ _ _ _ (omega arith)
    ∙ ap (λ n. take_frame (wire f ++ rest) (ok n))
        (from-to_le_bytes 4 (length (fields_bytes f.fields)) (omega (arith, v.short)))
    ∙ take_frame-wire f rest v

take-append_more {ℓ} :
    {A : Type ℓ} (xs ys : List A) (n : ℕ)
    → length xs ≤ n
    → take n (xs ++ ys) ≡ xs ++ take (n - length xs) ys
take-append_more [] ys n h = ap (λ k. take k ys) (omega arith)
take-append_more (x ∷ xs) ys zero h = absurd (omega arith)
take-append_more (x ∷ xs) ys (suc n) h =
    ap (◌∷◌ x) (take-append_more xs ys n (omega arith) ∙ ap (λ k. xs ++ take k ys) (omega arith))

take_frame-waits :
    (f : Frame) (part : Bytes)
    → IsFrame f
    → length part < length (fields_bytes f.fields)
    → let buffer = header f (length (fields_bytes f.fields)) ++ part in
      take_frame buffer (ok (length (fields_bytes f.fields))) ≡ (buffer, ok none)
unfolding take_frame
take_frame-waits f part v h =
    let total = header_len + length (fields_bytes f.fields) in
    let buffer = header f (length (fields_bytes f.fields)) ++ part in
    if_false (ltb absolute_max_frame_len total) _ _ (ground (arith, v.short))
    ∙ if_true (ltb (length buffer) total) _ _ (ground (arith, h))

header-waits :
    (f : Frame) (part : Bytes)
    → IsFrame f
    → length part < length (fields_bytes f.fields)
    → let buffer = header f (length (fields_bytes f.fields)) ++ part in
      next_frame buffer ≡ (buffer, ok none)
header-waits f part v h =
    next_frame-header _ _ _ _ _ _ _ _ _ _ _ _ _ _ _ (omega arith)
    ∙ ap (λ n. take_frame (header f (length (fields_bytes f.fields)) ++ part) (ok n))
        (from-to_le_bytes 4 (length (fields_bytes f.fields)) (omega (arith, v.short)))
    ∙ take_frame-waits f part v h

short-waits : (buffer : Bytes) → length buffer < header_len → next_frame buffer ≡ (buffer, ok none)
unfolding next_frame
short-waits buffer h = if_true (ltb (length buffer) header_len) _ _ (ground (arith, h))

-- While the buffer holds a proper beginning of a well-formed frame, the decoder waits and changes
-- nothing.
pub next_frame-waits :
    (f : Frame) (n : ℕ)
    → IsFrame f
    → n < length (wire f)
    → next_frame (take n (wire f)) ≡ (take n (wire f), ok none)
next_frame-waits f n v h =
    let body = fields_bytes f.fields in
    elim (Bool-cases (ltb n header_len)) [
      | inl short ↦
          short-waits (take n (wire f))
            (omega (arith, length-take n (wire f), below n header_len short))
      | inr long ↦
          subst (λ buffer. next_frame buffer ≡ (buffer, ok none))
            (sym (take-append_more (header f (length body)) body n (ge n header_len long)))
            (header-waits f (take (n - header_len) body) v
              (omega (arith, length-take (n - header_len) body, ge n header_len long)))
    ]
  where
    below : (a b : ℕ) → ltb a b ≡ true → a < b
    below a b e = ground arith

    ge : (a b : ℕ) → ltb a b ≡ false → b ≤ a
    ge a b e = ground arith
