-- ===== src/Radio/Link/Replies.antt =====
-- Commands and replies of the transport task of radio/mod.rs.
use cathub.Prelude.{
  ℕ, suc, ◌-◌, ◌≡◌, refl, sym, ap, ◌∙◌, true, false, ◌||◌, List, [], ◌∷◌, ◌++◌, none, some, ◌==◌,
  Bytes, arith, Bool-cases, inl, inr, append_assoc, append-nil, All, length,
}
use cathub.Radio.Link.Transport.{
  answer, Expect, verbs, lines, no_reply, Matcher, verb, lines_left, RawCommand, Pending, Event,
  accepted, wrote, answered, routed, Transport, running, exited, Outcome, starts_with, rprt,
  frame_matches, expect_reply, on_command, match_frame, on_frame, on_elapsed, on_closed, read_on,
  Step, takes, reads, waits, ends, drops, Run, stays, goes,
}

abbrev pub taken : List Event → List ℕ
taken [] = []
taken (accepted c ∷ es) = c ∷ taken es
taken (_ ∷ es) = taken es

abbrev pub given : List Event → List ℕ
given [] = []
given (answered c r ∷ es) = c ∷ given es
given (_ ∷ es) = given es

abbrev pub in_flight : Transport → List ℕ
in_flight (running none) = []
in_flight (running (some p)) = p.reply ∷ []
in_flight (exited reason) = []

abbrev Balanced : Transport → Outcome → Type 0
Balanced t (u, es) = in_flight t ++ taken es ≡ given es ++ in_flight u

expect_reply-Balanced :
    (c : RawCommand) (e : Expect) (now : ℕ)
    → c.reply ∷ taken (expect_reply c e now).1
      ≡ given (expect_reply c e now).1 ++ in_flight (expect_reply c e now).0
expect_reply-Balanced c (verbs vs) now = refl
expect_reply-Balanced c (lines n) now = elim (Bool-cases (n == 0)) [
  | inl e ↦ rw e refl
  | inr e ↦ rw e refl
]
expect_reply-Balanced c no_reply now = refl

match_frame-Balanced :
    (p : Pending) (m : Matcher) (frame : Bytes)
    → Balanced (running (some p)) (match_frame p m frame)
match_frame-Balanced p (verb vs) frame = elim (Bool-cases (frame_matches frame vs)) [
  | inl e ↦ rw e refl
  | inr e ↦ rw e refl
]
match_frame-Balanced p (lines_left remaining acc) frame =
    elim (Bool-cases (remaining - 1 == 0 || starts_with frame rprt)) [
      | inl e ↦ rw e refl
      | inr e ↦ rw e refl
    ]

Step-Balanced : (t : Transport) (o : Outcome) → Step t o → Balanced t o
unfolding on_command on_frame on_elapsed on_closed
Step-Balanced _ _ (takes c true now) = expect_reply-Balanced c c.expect now
Step-Balanced _ _ (takes c false now) = refl
Step-Balanced _ _ (reads none frame) = refl
Step-Balanced _ _ (reads (some p) frame) = match_frame-Balanced p p.matcher frame
Step-Balanced _ _ (waits p) = refl
Step-Balanced _ _ (ends none) = refl
Step-Balanced _ _ (ends (some p)) = refl
Step-Balanced _ _ drops = refl

taken-append : (es fs : List Event) → taken (es ++ fs) ≡ taken es ++ taken fs
taken-append [] fs = refl
taken-append (accepted c ∷ es) fs = ap (◌∷◌ c) (taken-append es fs)
taken-append (wrote b ∷ es) fs = taken-append es fs
taken-append (answered c r ∷ es) fs = taken-append es fs
taken-append (routed f ∷ es) fs = taken-append es fs

given-append : (es fs : List Event) → given (es ++ fs) ≡ given es ++ given fs
given-append [] fs = refl
given-append (accepted c ∷ es) fs = given-append es fs
given-append (wrote b ∷ es) fs = given-append es fs
given-append (answered c r ∷ es) fs = ap (◌∷◌ c) (given-append es fs)
given-append (routed f ∷ es) fs = given-append es fs

Balanced-Run : (t : Transport) (o : Outcome) → Run t o → Balanced t o
Balanced-Run t _ (stays _) = append-nil (in_flight t)
Balanced-Run t _ (goes _ u v es fs step rest) =
    ap (λ ts. in_flight t ++ ts) (taken-append es fs)
    ∙ sym (append_assoc (in_flight t) (taken es) (taken fs))
    ∙ ap (λ ts. ts ++ taken fs) (Step-Balanced t (u, es) step)
    ∙ append_assoc (given es) (in_flight u) (taken fs)
    ∙ ap (λ ts. given es ++ ts) (Balanced-Run u (v, fs) rest)
    ∙ sym (append_assoc (given es) (given fs) (in_flight v))
    ∙ ap (λ gs. gs ++ in_flight v) (sym (given-append es fs))

-- Over every run of the transport task the replies, and then the command in flight, are the command
-- in flight at its start and the commands taken since, in order: each command has one reply at most,
-- and once the task has ended each has one.
pub Run-replies :
    (t u : Transport) (es : List Event)
    → Run t (u, es)
    → in_flight t ++ taken es ≡ given es ++ in_flight u
Run-replies t u es r = Balanced-Run t (u, es) r

-- A frame that goes on with a reply of several lines.
abbrev pub IsLine : Bytes → Type 0
IsLine frame = starts_with frame rprt ≡ false

abbrev pub joined : List Bytes → Bytes
joined [] = []
joined (f ∷ fs) = f ++ joined fs

abbrev pub lines_pending : ℕ → ℕ → ℕ → Bytes → Pending
lines_pending reply deadline n acc = record {
  matcher = lines_left n acc;
  reply = reply;
  deadline = deadline;
}

on_frame-inner :
    (reply deadline n : ℕ) (acc frame : Bytes)
    → IsLine frame
    → on_frame (some (lines_pending reply deadline (suc (suc n)) acc)) frame
      ≡ (running (some (lines_pending reply deadline (suc n) (acc ++ frame))), [])
unfolding on_frame
on_frame-inner reply deadline n acc frame k =
    let left : suc (suc n) - 1 ≡ suc n = omega arith in
    let more : (suc n == 0) ≡ false = ground arith in rw (left, more, k) refl

-- A command that waits for some lines is answered with that many next frames joined, if none of them
-- is an error report.
pub read_on-lines :
    (reply deadline : ℕ) (acc frame : Bytes) (frames : List Bytes)
    → IsLine frame
    → All IsLine frames
    → read_on
        (frame ∷ frames)
        (running (some (lines_pending reply deadline (suc (length frames)) acc)))
      ≡ (running none, answered reply (answer (acc ++ joined (frame ∷ frames))) ∷ [])
read_on-lines reply deadline acc frame [] k h =
    unfold on_frame in
    ap (λ bytes. (running none, answered reply (answer (acc ++ bytes)) ∷ []))
      (sym (append-nil frame))
read_on-lines reply deadline acc frame (g ∷ gs) k h =
    ap (λ o. ((read_on (g ∷ gs) o.0).0, o.1 ++ (read_on (g ∷ gs) o.0).1))
      (on_frame-inner reply deadline (length gs) acc frame k)
    ∙ read_on-lines reply deadline (acc ++ frame) g gs h.0 h.1
    ∙ ap (λ bytes. (running none, answered reply (answer bytes) ∷ []))
        (append_assoc acc frame (joined (g ∷ gs)))
