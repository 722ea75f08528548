-- ===== src/Radio/Link/Framing.antt =====
-- What the framer of radio/mod.rs hands out.
use cathub.Prelude.{
  or_left, or_right, ℕ, ◌+◌, ◌≤◌, ◌<◌, ◌≡◌, refl, sym, ap, ◌∙◌, false, List, [], ◌∷◌, ◌++◌, arith,
  ◌==◌, ==_refl, length, length-append, Bytes, All, All-append, append_assoc, contains,
}
use cathub.Radio.Link.Framer.{
  max_radio_frame_len, delimiter, Framer, bounded, push_byte, push_bytes, push,
}

-- A frame: its delimiter stands at its end and nowhere else, and it has at most 4096 bytes.
abbrev pub IsBody : ℕ → Bytes → Type 0
IsBody delim body = (contains body delim ≡ false) × (length body < max_radio_frame_len)

abbrev pub frame : ℕ → Bytes → Bytes
frame delim body = body ++ delim ∷ []

abbrev pub frames_of : ℕ → List Bytes → List Bytes
frames_of delim [] = []
frames_of delim (body ∷ bodies) = frame delim body ∷ frames_of delim bodies

abbrev pub stream_of : ℕ → List Bytes → Bytes
stream_of delim [] = []
stream_of delim (body ∷ bodies) = frame delim body ++ stream_of delim bodies

pub push_bytes-append :
    (delim : ℕ) (buf bs cs : Bytes)
    → push_bytes delim buf (bs ++ cs) ≡ (
      (push_bytes delim (push_bytes delim buf bs).0 cs).0,
      (push_bytes delim buf bs).1 ++ (push_bytes delim (push_bytes delim buf bs).0 cs).1,
    )
unfolding push_bytes
push_bytes-append delim buf [] cs = refl
push_bytes-append delim buf (b ∷ bs) cs =
    let next = push_byte delim buf b in
    let e = push_bytes-append delim next.0 bs cs in
    ap (λ r. (r.0, next.1 ++ r.1)) e
    ∙ ap (λ r. ((push_bytes delim (push_bytes delim next.0 bs).0 cs).0, r))
        (sym (append_assoc next.1 _ _))

-- Frames do not depend on how the stream is cut into reads: two reads give the frames, and leave
-- the partial frame, that one read of all the bytes does.
pub push-append :
    (f : Framer) (bs cs : Bytes)
    → push f (bs ++ cs) ≡ ((push (push f bs).0 cs).0, (push f bs).1 ++ (push (push f bs).0 cs).1)
unfolding push
push-append f bs cs =
    ap (λ r. (record f { buf = r.0 }, r.1)) (push_bytes-append (delimiter f.framing) f.buf bs cs)

push_byte-length :
    (delim : ℕ) (buf : Bytes) (b : ℕ)
    → (length (push_byte delim buf b).0 ≤ max_radio_frame_len)
      × All (λ g. length g ≤ max_radio_frame_len) (push_byte delim buf b).1
unfolding push_byte
push_byte-length delim buf b = ground (arith, length-append (bounded buf) (b ∷ []))

Short : Bytes → Type 0
Short g = length g ≤ max_radio_frame_len

push_bytes-length :
    (delim : ℕ) (buf bs : Bytes)
    → Short buf
    → Short (push_bytes delim buf bs).0 × All Short (push_bytes delim buf bs).1
unfolding push_bytes Short
push_bytes-length delim buf [] h = (h, tt)
push_bytes-length delim buf (b ∷ bs) h =
    let next = push_byte delim buf b in
    let (short, done) = push_byte-length delim buf b in
    let (last, rest) = push_bytes-length delim next.0 bs short in
    (last, All-append Short next.1 (push_bytes delim next.0 bs).1 done rest)

-- Whatever the line sends, a framer within its bound stays within it, and so is every frame.
pub push-length :
    (f : Framer) (bs : Bytes)
    → length f.buf ≤ max_radio_frame_len
    → (length (push f bs).0.buf ≤ max_radio_frame_len)
      × All (λ g. length g ≤ max_radio_frame_len) (push f bs).1
unfolding push Short
push-length f bs h = push_bytes-length (delimiter f.framing) f.buf bs h

push_byte-inner :
    (delim : ℕ) (buf : Bytes) (b : ℕ)
    → length buf < max_radio_frame_len
    → (b == delim) ≡ false
    → push_byte delim buf b ≡ (buf ++ b ∷ [], [])
unfolding push_byte
push_byte-inner delim buf b h n = ground (arith, h, n)

push_byte-last :
    (delim : ℕ) (buf : Bytes)
    → length buf < max_radio_frame_len
    → push_byte delim buf delim ≡ ([], (buf ++ delim ∷ []) ∷ [])
unfolding push_byte
push_byte-last delim buf h = ground (arith, h, ==_refl delim)

pub push_bytes-body :
    (delim : ℕ) (buf body : Bytes)
    → contains body delim ≡ false
    → length buf + length body < max_radio_frame_len
    → push_bytes delim buf (frame delim body) ≡ ([], (buf ++ frame delim body) ∷ [])
unfolding push_bytes
push_bytes-body delim buf [] n h = rw (push_byte-last delim buf (omega arith)) refl
push_bytes-body delim buf (b ∷ body) n h =
    rw (push_byte-inner delim buf b (omega arith) (or_left (b == delim) _ n)) (
      push_bytes-body delim (buf ++ b ∷ []) body (or_right (b == delim) _ n)
        (omega (arith, length-append buf (b ∷ [])))
      ∙ ap (λ g. ([], g ∷ [])) (append_assoc buf (b ∷ []) (frame delim body)))

push_bytes-stream_of :
    (delim : ℕ) (bodies : List Bytes)
    → All (IsBody delim) bodies
    → push_bytes delim [] (stream_of delim bodies) ≡ ([], frames_of delim bodies)
push_bytes-stream_of delim [] h = unfold push_bytes in refl
push_bytes-stream_of delim (body ∷ bodies) h =
    let e = push_bytes-body delim [] body h.0.0 (omega (arith, h.0.1)) in
    push_bytes-append delim [] (frame delim body) (stream_of delim bodies)
    ∙ ap
        (λ r. (
          (push_bytes delim r.0 (stream_of delim bodies)).0,
          r.1 ++ (push_bytes delim r.0 (stream_of delim bodies)).1,
        ))
        e
    ∙ ap (λ r. (r.0, frame delim body ∷ r.1)) (push_bytes-stream_of delim bodies h.1)

push_byte-delimiter : (delim : ℕ) (buf : Bytes) → (push_byte delim buf delim).0 ≡ []
unfolding push_byte
push_byte-delimiter delim buf = rw (==_refl delim) refl

delimited-empty : (delim : ℕ) (buf junk : Bytes) → (push_bytes delim buf (frame delim junk)).0 ≡ []
unfolding push_bytes
delimited-empty delim buf [] = push_byte-delimiter delim buf
delimited-empty delim buf (b ∷ junk) = delimited-empty delim (push_byte delim buf b).0 junk

-- A framer that has seen anything at all, noise longer than its bound too, gives from the next
-- delimiter on exactly the frames of a stream of short frames, in order, and holds nothing back.
pub push-stream_of :
    (f : Framer) (junk : Bytes) (bodies : List Bytes)
    → All (IsBody (delimiter f.framing)) bodies
    → let delim = delimiter f.framing in
      let r = push f (frame delim junk ++ stream_of delim bodies) in
      (r.0.buf ≡ []) × (r.1 ≡ (push f (frame delim junk)).1 ++ frames_of delim bodies)
unfolding push
push-stream_of f junk bodies h =
    let delim = delimiter f.framing in
    let first = push_bytes delim f.buf (frame delim junk) in
    let e : push_bytes delim f.buf (frame delim junk ++ stream_of delim bodies)
        ≡ ([], first.1 ++ frames_of delim bodies) =
      push_bytes-append delim f.buf (frame delim junk) (stream_of delim bodies)
      ∙ ap
          (λ buf. (
            (push_bytes delim buf (stream_of delim bodies)).0,
            first.1 ++ (push_bytes delim buf (stream_of delim bodies)).1,
          ))
          (delimited-empty delim f.buf junk)
      ∙ ap (λ r. (r.0, first.1 ++ r.1)) (push_bytes-stream_of delim bodies h) in
    (ap (λ r. r.0) e, ap (λ r. r.1) e)
