-- ===== src/Kenwood/Dialect/Resync.antt =====
-- What a mirror that lost events makes of the frames that present the state again.
use cathub.Prelude.{
  ◌<◌, ◌≡◌, refl, sym, ap, subst, ◌∙◌, true, not, List, [], ◌∷◌, some, if◌then◌else◌, Bytes, arith,
}
use cathub.Prelude.Text.{power10}
use cathub.Radio.State.{Snapshot, vfo_of, StateHandle}
use cathub.Radio.Model.{
  Vfo, a, b, Mode, lsb, usb, cw, cw_r, fsk, fsk_r, am, fm, unknown, same_mode, same_vfo, other,
  StateChange, freq, mode, ptt, split, rx_vfo, to_kenwood_digit, from_kenwood_digit, poll_diff,
}
use cathub.Radio.Replay.{assign, replay, assign_all, replay-assign_all}
use cathub.Kenwood.Frames.{freq_set, semicolon, split_frame, body_of, verb_of, vfo_digit}
use cathub.Kenwood.Ts590.{changes_of, parse_if_status, verb_changes, record_event}
use cathub.Kenwood.Writes.{freq_set-changes_of}
use cathub.Kenwood.Echo.{observe, record_event-snapshot, switch-changes}
use cathub.Kenwood.Dialect.{freq_frame, mode_frame}
use cathub.Kenwood.Dialect.Ts590.{snapshot_resync_frames}
use cathub.Kenwood.Dialect.Transparent.{resync}
use cathub.Kenwood.Dialect.Answers.{synth_if-changes_of}

-- Frames read one after another.
data Reads : Snapshot → List Bytes → Snapshot → Type 0 where
  stops : (s : Snapshot) → Reads s [] s
  reads :
      (f : Bytes) (fs : List Bytes) (cs : List StateChange) (s t : Snapshot)
      → changes_of s f ≡ some cs
      → Reads (assign_all cs s) fs t
      → Reads s (f ∷ fs) t

observe-Reads :
    (s t : Snapshot) (fs : List Bytes)
    → Reads s fs t
    → (h : StateHandle) → h.snapshot ≡ s
    → (observe fs h).snapshot ≡ t
observe-Reads _ _ _ (stops s) = λ h e. e
observe-Reads _ t _ (reads f fs cs s _ read rest) = λ h e.
    observe-Reads (assign_all cs s) t fs rest (record_event f poll_diff h).0.0 (
      record_event-snapshot f h cs (ap (λ u. changes_of u f) e ∙ read)
      ∙ ap (replay cs) e
      ∙ replay-assign_all cs s)

-- The mode that a mode digit stands for.
abbrev pub heard : Mode → Mode
heard m = if same_mode m unknown then usb else m

mode_frame-changes :
    (s : Snapshot) (m : Mode) → changes_of s (mode_frame m) ≡ some (mode s.receive (heard m) ∷ [])
unfolding changes_of parse_if_status split_frame body_of verb_of verb_changes to_kenwood_digit
    from_kenwood_digit
mode_frame-changes s lsb = refl
mode_frame-changes s usb = refl
mode_frame-changes s cw = refl
mode_frame-changes s cw_r = refl
mode_frame-changes s fsk = refl
mode_frame-changes s fsk_r = refl
mode_frame-changes s am = refl
mode_frame-changes s fm = refl
mode_frame-changes s unknown = refl

selector-digit : (v : Vfo) → (if same_vfo v a then b'0' else b'1') ≡ vfo_digit v
selector-digit a = refl
selector-digit b = refl

-- The changes that the frames stand for, in order.
presented_changes : Snapshot → Vfo → List StateChange
presented_changes s r =
    freq a s.vfo_a.freq_hz
    ∷ freq b s.vfo_b.freq_hz
    ∷ rx_vfo r
    ∷ split (not (same_vfo r s.transmit)) (some s.transmit)
    ∷ mode r (heard (vfo_of r s).base_mode)
    ∷ freq r (vfo_of r s).freq_hz
    ∷ mode r (heard (vfo_of r s).base_mode)
    ∷ ptt s.keyed
    ∷ split s.split_on (some (if s.split_on then other r else r))
    ∷ rx_vfo r
    ∷ []

-- The snapshot holds what the other says.
abbrev pub Agrees : Snapshot → Snapshot → Type 0
Agrees s t =
    (t.vfo_a.freq_hz ≡ s.vfo_a.freq_hz)
    × (t.vfo_b.freq_hz ≡ s.vfo_b.freq_hz)
    × (t.receive ≡ s.receive)
    × (t.split_on ≡ s.split_on)
    × (t.transmit ≡ (if s.split_on then other s.receive else s.receive))
    × (t.keyed ≡ s.keyed)
    × ((vfo_of s.receive t).base_mode ≡ heard (vfo_of s.receive s).base_mode)

presented-Agrees : (s t : Snapshot) → Agrees s (assign_all (presented_changes s s.receive) t)
unfolding presented_changes
presented-Agrees s t = let (fa, fb, m) = fields s.receive in (fa, fb, refl, refl, refl, refl, m)
  where
    fields :
        (r : Vfo)
        → let u = assign_all (presented_changes s r) t in
          (u.vfo_a.freq_hz ≡ s.vfo_a.freq_hz)
          × (u.vfo_b.freq_hz ≡ s.vfo_b.freq_hz)
          × ((vfo_of r u).base_mode ≡ heard (vfo_of r s).base_mode)
    fields a = (refl, refl, refl)
    fields b = (refl, refl, refl)

resync-Reads :
    (s t : Snapshot)
    → s.vfo_a.freq_hz < power10 11
    → s.vfo_b.freq_hz < power10 11
    → Reads t (snapshot_resync_frames s) (assign_all (presented_changes s s.receive) t)
unfolding snapshot_resync_frames presented_changes freq_frame freq_set
resync-Reads s t low_a low_b =
    let m = (vfo_of s.receive s).base_mode in
    let t1 = assign t (freq a s.vfo_a.freq_hz) in
    let t2 = assign t1 (freq b s.vfo_b.freq_hz) in
    let t3 = assign t2 (rx_vfo s.receive) in
    let t4 = assign t3 (split (not (same_vfo s.receive s.transmit)) (some s.transmit)) in
    let t5 = assign t4 (mode s.receive (heard m)) in
    reads _ _ _ t _ (freq_set-changes_of t a s.vfo_a.freq_hz (omega (arith, low_a))) (
      reads _ _ _ t1 _ (freq_set-changes_of t1 b s.vfo_b.freq_hz (omega (arith, low_b))) (
        reads _ _ _ t2 _
          (ap (λ c. changes_of t2 (b'F' ∷ b'R' ∷ c ∷ semicolon ∷ [])) (selector-digit s.receive)
            ∙ (switch-changes t2 s.receive).0)
          (reads _ _ _ t3 _
            (ap (λ c. changes_of t3 (b'F' ∷ b'T' ∷ c ∷ semicolon ∷ [])) (selector-digit s.transmit)
              ∙ (switch-changes t3 s.transmit).1)
            (reads _ _ _ t4 _ (mode_frame-changes t4 m) (
              reads _ _ _ t5 _ (synth_if-changes_of t5 s (operating-low s low_a low_b)).0
                (stops _))))))
  where
    operating-low :
        (u : Snapshot)
        → u.vfo_a.freq_hz < power10 11
        → u.vfo_b.freq_hz < power10 11
        → (vfo_of u.receive u).freq_hz < power10 11
    operating-low u p q = go u.receive
      where
        go : (v : Vfo) → (vfo_of v u).freq_hz < power10 11
        go a = p
        go b = q

-- A mirror that lost events and is sent the state again holds it then, whatever it held before: both
-- frequencies (below 100 GHz), the receiving VFO, split, keying and the mode of the receiving VFO, and
-- as the transmitting VFO the one that split says.
pub resync-Agrees :
    (s : Snapshot) (h : StateHandle)
    → s.vfo_a.freq_hz < power10 11
    → s.vfo_b.freq_hz < power10 11
    → Agrees s (observe (resync true s) h).snapshot
unfolding resync
resync-Agrees s h low_a low_b =
    let t = h.snapshot in
    let e =
      observe-Reads t (assign_all (presented_changes s s.receive) t) (snapshot_resync_frames s)
        (resync-Reads s t low_a low_b) h refl in
    subst (Agrees s) (sym e) (presented-Agrees s t)
