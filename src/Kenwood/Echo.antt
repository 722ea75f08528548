-- ===== src/Kenwood/Echo.antt =====
-- The state that the TS-590 backend assumes after a write, against the state that it would read from
-- the frames it wrote: the radio link of radio/mod.rs cuts them, and `record_event` records each.
use cathub.Prelude.{
  ℕ, ◌^◌, ◌≡◌, refl, sym, ap, ◌∙◌, Bool, true, false, not, ◌&&◌, List, [], ◌∷◌, ◌++◌, none, some,
  arith, ltb, if◌then◌else◌, Bytes, and_both,
}
use cathub.Prelude.Text.{padded}
use cathub.Prelude.Text.Digits.{length-padded-le}
use cathub.Radio.Model.{
  Vfo, a, b, same_vfo, Mode, lsb, usb, cw, cw_r, fsk, fsk_r, am, fm, unknown, same_mode,
  StateMutation, set_rx_vfo, set_vfo_freq, set_mode, set_data_mode, set_split, set_ptt, set_rit,
  set_xit, into_change, StateChange, poll_diff, RadioEventSource, optimistic_write,
  to_kenwood_digit, from_kenwood_digit, split, mode, data_mode, freq, rx_vfo,
}
use cathub.Radio.State.{Snapshot, StateHandle, record_change, apply_change}
use cathub.Radio.Replay.{apply_change-assign, replay, same_vfo_sound}
use cathub.Radio.Link.Framer.{semicolon_terminated, new_framer, push, push_bytes, push_byte}
use cathub.Radio.Link.Framing.{push_bytes-body}
use cathub.Kenwood.Frames.{semicolon, rx_vfo_set, split_frame, body_of, verb_of, freq_set}
use cathub.Kenwood.Ts590.{
  parse_if_status, verb_changes, changes_of, record_list, record_event, mutation_bytes, following,
  flag, ft_set,
}
use cathub.Kenwood.Writes.{padded-IsDigit, digits-contains, freq_set-changes_of}

-- The frames of a write as the link cuts them, and what recording them leaves.
abbrev pub frames_of : Bytes → List Bytes
frames_of bytes = (push (new_framer semicolon_terminated) bytes).1

abbrev pub observe : List Bytes → StateHandle → StateHandle
observe [] h = h
observe (f ∷ fs) h = observe fs (record_event f poll_diff h).0.0

abbrev pub optimistic : StateMutation → StateHandle → StateHandle
optimistic m h = (record_list (into_change m ∷ following h.snapshot m) optimistic_write h).0

-- The writes whose frames say what the state takes them to say.
abbrev pub is_explicit : Snapshot → StateMutation → Bool
is_explicit s (set_vfo_freq vfo hz) = ltb hz (2 ^ 64)
is_explicit s (set_mode vfo m) = same_vfo s.receive vfo && not (same_mode m unknown)
is_explicit s (set_data_mode vfo on) = same_vfo s.receive vfo
is_explicit s (set_rx_vfo vfo) = not (s.split_on && same_vfo s.transmit vfo)
is_explicit s (set_split true (some b)) = same_vfo s.receive a
is_explicit s (set_split false (some a)) = same_vfo s.receive a
is_explicit s _ = false

record_list-snapshot :
    (cs : List StateChange) (source : RadioEventSource) (h : StateHandle)
    → (record_list cs source h).0.snapshot ≡ replay cs h.snapshot
unfolding record_list record_change
record_list-snapshot [] source h = refl
record_list-snapshot (c ∷ cs) source h = record_list-snapshot cs source (record_change c source h).0

pub record_event-snapshot :
    (f : Bytes) (h : StateHandle) (cs : List StateChange)
    → changes_of h.snapshot f ≡ some cs
    → (record_event f poll_diff h).0.0.snapshot ≡ replay cs h.snapshot
unfolding record_event
record_event-snapshot f h cs e = rw e (record_list-snapshot cs poll_diff h)

one_frame :
    (f bytes : Bytes) (h : StateHandle) (cs : List StateChange)
    → frames_of bytes ≡ f ∷ []
    → changes_of h.snapshot f ≡ some cs
    → (observe (frames_of bytes) h).snapshot ≡ replay cs h.snapshot
one_frame f bytes h cs cut e = rw cut (record_event-snapshot f h cs e)

two_frames :
    (f g bytes : Bytes) (h : StateHandle) (cs ds : List StateChange) (s : Snapshot)
    → frames_of bytes ≡ f ∷ g ∷ []
    → changes_of h.snapshot f ≡ some cs
    → replay cs h.snapshot ≡ s
    → changes_of s g ≡ some ds
    → (observe (frames_of bytes) h).snapshot ≡ replay ds s
two_frames f g bytes h cs ds s cut e r d = rw cut (
    let mid = (record_event f poll_diff h).0.0 in
    let at : mid.snapshot ≡ s = record_event-snapshot f h cs e ∙ r in
    record_event-snapshot g mid ds (ap (λ t. changes_of t g) at ∙ d) ∙ ap (replay ds) at)

freq-frames : (vfo : Vfo) (hz : ℕ) → frames_of (freq_set vfo hz) ≡ freq_set vfo hz ∷ []
unfolding push freq_set
freq-frames a hz =
    ap (λ r. r.1)
      (push_bytes-body semicolon [] (b'F' ∷ b'A' ∷ padded 11 hz)
        (digits-contains _ (padded-IsDigit 11 hz)) (omega (arith, length-padded-le 11 hz)))
freq-frames b hz =
    ap (λ r. r.1)
      (push_bytes-body semicolon [] (b'F' ∷ b'B' ∷ padded 11 hz)
        (digits-contains _ (padded-IsDigit 11 hz)) (omega (arith, length-padded-le 11 hz)))

mode-frames :
    (m : Mode)
    → frames_of (b'M' ∷ b'D' ∷ to_kenwood_digit m ∷ semicolon ∷ [])
      ≡ (b'M' ∷ b'D' ∷ to_kenwood_digit m ∷ semicolon ∷ []) ∷ []
unfolding push push_bytes push_byte to_kenwood_digit
mode-frames lsb = refl
mode-frames usb = refl
mode-frames cw = refl
mode-frames cw_r = refl
mode-frames fsk = refl
mode-frames fsk_r = refl
mode-frames am = refl
mode-frames fm = refl
mode-frames unknown = refl

mode-changes :
    (s : Snapshot) (m : Mode)
    → same_mode m unknown ≡ false
    → changes_of s (b'M' ∷ b'D' ∷ to_kenwood_digit m ∷ semicolon ∷ [])
      ≡ some (mode s.receive m ∷ [])
unfolding changes_of parse_if_status split_frame body_of verb_of verb_changes to_kenwood_digit
    from_kenwood_digit
mode-changes s lsb n = refl
mode-changes s usb n = refl
mode-changes s cw n = refl
mode-changes s cw_r n = refl
mode-changes s fsk n = refl
mode-changes s fsk_r n = refl
mode-changes s am n = refl
mode-changes s fm n = refl
mode-changes s unknown n = cc

data-frames :
    (s : Snapshot) (on : Bool)
    → let bytes = b'D' ∷ b'A' ∷ flag on ∷ semicolon ∷ [] in
      (frames_of bytes ≡ bytes ∷ []) × (changes_of s bytes ≡ some (data_mode s.receive on ∷ []))
unfolding push push_bytes push_byte changes_of parse_if_status split_frame body_of verb_of
    verb_changes
data-frames s true = (refl, refl)
data-frames s false = (refl, refl)

-- An `FR` frame and an `FT` frame.
switch-frames : (v t : Vfo) → frames_of (rx_vfo_set v ++ ft_set t) ≡ rx_vfo_set v ∷ ft_set t ∷ []
unfolding push push_bytes push_byte
switch-frames a a = refl
switch-frames a b = refl
switch-frames b a = refl
switch-frames b b = refl

pub switch-changes :
    (s : Snapshot) (v : Vfo)
    → (changes_of s (rx_vfo_set v) ≡ some (rx_vfo v ∷ []))
      × (changes_of s (ft_set v) ≡ some (split (not (same_vfo s.receive v)) (some v) ∷ []))
unfolding changes_of parse_if_status split_frame body_of verb_of verb_changes
switch-changes s a = (refl, refl)
switch-changes s b = (refl, refl)

-- What the radio holds after both.
switched : Vfo → Vfo → Snapshot → Snapshot
switched v t s = record s { receive = v; split_on = not (same_vfo v t); transmit = t }

observe-switch :
    (h : StateHandle) (v t : Vfo)
    → (observe (frames_of (rx_vfo_set v ++ ft_set t)) h).snapshot ≡ switched v t h.snapshot
unfolding switched
observe-switch h v t =
    let s = record h.snapshot { receive = v } in
    two_frames (rx_vfo_set v) (ft_set t) (rx_vfo_set v ++ ft_set t) h (rx_vfo v ∷ [])
      (split (not (same_vfo v t)) (some t) ∷ []) s (switch-frames v t)
      (switch-changes h.snapshot v).0 (apply_change-assign h.snapshot (rx_vfo v))
      (switch-changes s t).1
    ∙ apply_change-assign s (split (not (same_vfo v t)) (some t))

optimistic-snapshot :
    (m : StateMutation) (h : StateHandle)
    → (optimistic m h).snapshot ≡ replay (into_change m ∷ following h.snapshot m) h.snapshot
optimistic-snapshot m h =
    record_list-snapshot (into_change m ∷ following h.snapshot m) optimistic_write h

same_vfo_refl : (v : Vfo) → same_vfo v v ≡ true
same_vfo_refl a = refl
same_vfo_refl b = refl

same_vfo_symm : (v w : Vfo) → same_vfo v w ≡ same_vfo w v
same_vfo_symm a a = refl
same_vfo_symm a b = refl
same_vfo_symm b a = refl
same_vfo_symm b b = refl

switched-replay :
    (s : Snapshot) (v : Vfo) (on : Bool)
    → s.split_on ≡ on
    → not (on && same_vfo s.transmit v) ≡ true
    → switched v (if on then s.transmit else v) s
      ≡ replay (rx_vfo v ∷ (if on then [] else split false (some v) ∷ [])) s
unfolding switched
switched-replay s v true e n =
    ap (λ x. record s { receive = v; split_on = x })
      (ap not (same_vfo_symm v s.transmit) ∙ n ∙ sym e)
    ∙ sym (apply_change-assign s (rx_vfo v))
switched-replay s v false e n =
    let moved = record s { receive = v } in
    ap (λ x. record s { receive = v; split_on = not x; transmit = v }) (same_vfo_refl v)
    ∙ sym (apply_change-assign moved (split false (some v)))
    ∙ ap (λ t. (apply_change t (split false (some v))).0) (sym (apply_change-assign s (rx_vfo v)))

rx_vfo-switched :
    (s : Snapshot) (v : Vfo)
    → is_explicit s (set_rx_vfo v) ≡ true
    → switched v (if s.split_on then s.transmit else v) s
      ≡ replay (rx_vfo v ∷ following s (set_rx_vfo v)) s
rx_vfo-switched s v e = switched-replay s v s.split_on refl e

split-switched :
    (s : Snapshot) (enabled : Bool) (t : Vfo)
    → s.receive ≡ a
    → not (same_vfo a t) ≡ enabled
    → switched a t s ≡ replay (split enabled (some t) ∷ []) s
unfolding switched
split-switched s enabled t r n =
    rw (n, sym r) (sym (apply_change-assign s (split enabled (some t))))

-- For every write that its frames spell out, the state assumed at the write is the state that the
-- backend would record from those frames: a frequency, a mode or a DATA flag of the receiving VFO,
-- a switch of the receiving VFO away from the transmitting one or without split, and split on B, or
-- no split, while A receives.
pub echo :
    (h : StateHandle) (m : StateMutation)
    → is_explicit h.snapshot m ≡ true
    → (observe (frames_of (mutation_bytes h.snapshot m)) h).snapshot ≡ (optimistic m h).snapshot
unfolding mutation_bytes into_change
echo h (set_vfo_freq vfo hz) e =
    one_frame (freq_set vfo hz) (freq_set vfo hz) h (freq vfo hz ∷ []) (freq-frames vfo hz)
      (freq_set-changes_of h.snapshot vfo hz (ground (arith, e)))
    ∙ sym (optimistic-snapshot (set_vfo_freq vfo hz) h)
echo h (set_mode vfo m) e =
    let (same, known) = and_both (same_vfo h.snapshot.receive vfo) (not (same_mode m unknown)) e in
    let bytes = b'M' ∷ b'D' ∷ to_kenwood_digit m ∷ semicolon ∷ [] in
    one_frame bytes bytes h (mode h.snapshot.receive m ∷ []) (mode-frames m)
      (mode-changes h.snapshot m (ground (arith, known)))
    ∙ ap (λ v. replay (mode v m ∷ []) h.snapshot) (same_vfo_sound h.snapshot.receive vfo same)
    ∙ sym (optimistic-snapshot (set_mode vfo m) h)
echo h (set_data_mode vfo on) e =
    let bytes = b'D' ∷ b'A' ∷ flag on ∷ semicolon ∷ [] in
    let (cut, read) = data-frames h.snapshot on in
    one_frame bytes bytes h (data_mode h.snapshot.receive on ∷ []) cut read
    ∙ ap (λ v. replay (data_mode v on ∷ []) h.snapshot) (same_vfo_sound h.snapshot.receive vfo e)
    ∙ sym (optimistic-snapshot (set_data_mode vfo on) h)
echo h (set_rx_vfo vfo) e =
    observe-switch h vfo (if h.snapshot.split_on then h.snapshot.transmit else vfo)
    ∙ rx_vfo-switched h.snapshot vfo e
    ∙ sym (optimistic-snapshot (set_rx_vfo vfo) h)
echo h (set_split true (some b)) e =
    observe-switch h a b
    ∙ split-switched h.snapshot true b (same_vfo_sound h.snapshot.receive a e) refl
    ∙ sym (optimistic-snapshot (set_split true (some b)) h)
echo h (set_split false (some a)) e =
    observe-switch h a a
    ∙ split-switched h.snapshot false a (same_vfo_sound h.snapshot.receive a e) refl
    ∙ sym (optimistic-snapshot (set_split false (some a)) h)
echo h (set_split true none) e = cc
echo h (set_split true (some a)) e = cc
echo h (set_split false none) e = cc
echo h (set_split false (some b)) e = cc
echo h (set_ptt keyed source) e = cc
echo h (set_rit offset_hz enabled) e = cc
echo h (set_xit offset_hz enabled) e = cc
