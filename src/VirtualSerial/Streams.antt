-- ===== src/VirtualSerial/Streams.antt =====
-- Streams of frames through the decoder of protocol.rs, polled until it has no complete frame.
use cathub.Prelude.{
  ℕ, zero, suc, ◌<◌, ◌≡◌, refl, ap, ◌∙◌, List, [], ◌∷◌, ◌++◌, none, some, length, take, Bytes, All,
  append_assoc,
}
use cathub.VirtualSerial.Wire.{ok, err}
use cathub.VirtualSerial.Frame.{Frame, IsFrame, wire}
use cathub.VirtualSerial.Decoder.{FrameDecoder, next_frame, next_frame-wire, next_frame-waits}

unfoldable pub poll : ℕ → FrameDecoder → FrameDecoder × List Frame
poll zero buffer = (buffer, [])
poll (suc n) buffer =
    let (left, result) = next_frame buffer in
    elim result [
      | err e ↦ (left, [])
      | ok none ↦ (left, [])
      | ok (some f) ↦ let (last, fs) = poll n left in (last, f ∷ fs)
    ]

abbrev pub wire_all : List Frame → Bytes
wire_all [] = []
wire_all (f ∷ fs) = wire f ++ wire_all fs

poll-frame :
    (n : ℕ) (buffer left : Bytes) (f : Frame)
    → next_frame buffer ≡ (left, ok (some f))
    → poll (suc n) buffer ≡ ((poll n left).0, f ∷ (poll n left).1)
unfolding poll
poll-frame n buffer left f e = rw (poll, ap (λ p. p.1) e, ap (λ p. p.0) e) refl

poll-waits :
    (n : ℕ) (buffer : Bytes)
    → next_frame buffer ≡ (buffer, ok none)
    → poll (suc n) buffer ≡ (buffer, [])
unfolding poll
poll-waits n buffer e = rw (poll, ap (λ p. p.1) e, ap (λ p. p.0) e) refl

-- A stream of well-formed frames and a proper beginning of one more gives exactly these frames, in
-- order, and leaves the beginning in the buffer, once the decoder is polled for one more frame than
-- there are.
pub poll-wire_all :
    (fs : List Frame) (g : Frame) (n : ℕ)
    → All IsFrame fs
    → IsFrame g
    → n < length (wire g)
    → poll (suc (length fs)) (wire_all fs ++ take n (wire g)) ≡ (take n (wire g), fs)
poll-wire_all [] g n h v lt = poll-waits 0 (take n (wire g)) (next_frame-waits g n v lt)
poll-wire_all (f ∷ fs) g n h v lt =
    let rest = wire_all fs ++ take n (wire g) in
    ap (poll (suc (suc (length fs)))) (append_assoc (wire f) (wire_all fs) (take n (wire g)))
    ∙ poll-frame (suc (length fs)) (wire f ++ rest) rest f (next_frame-wire f rest h.0)
    ∙ ap (λ r. (r.0, f ∷ r.1)) (poll-wire_all fs g n h.1 v lt)
