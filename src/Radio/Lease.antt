-- ===== src/Radio/Lease.antt =====
-- ptt.rs: the transmit lease. The lock is left out: every method runs alone. `now` is what the
-- clock reads, and `elapsed` stops at zero.
use cathub.Prelude.{
  ℕ, ◌-◌, ◌≤◌, ◌≡◌, ◌↔◌, refl, Bool, true, false, not, ◌||◌, List, [], ◌∷◌, Option, none, some,
  arith, ◌==◌, leb, if◌then◌else◌, is_id, Bool-cases, inl, inr,
}

pub data PttDenied : Type 0 where
  busy not_permitted : PttDenied

-- What `try_key` returns.
pub data KeyResult : Type 0 where
  granted : KeyResult
  denied : PttDenied → KeyResult

pub record PttManager : Type 0 where
  pub owner : Option ℕ
  pub keyed_at : Option ℕ
  pub max_tx : ℕ

unfoldable pub new : ℕ → PttManager
new max_tx = record { owner = none; keyed_at = none; max_tx = max_tx }

-- Whether another session owns the lease.
abbrev pub is_other : Option ℕ → ℕ → Bool
is_other none session_id = false
is_other (some owner) session_id = not (owner == session_id)

unfoldable pub try_key : ℕ → Bool → ℕ → PttManager → PttManager × KeyResult
try_key session_id has_ptt now p =
    if not has_ptt
    then (p, denied not_permitted)
    else if is_other p.owner session_id
    then (p, denied busy)
    else (record p { owner = some session_id; keyed_at = some now }, granted)

unfoldable pub unkey : ℕ → PttManager → PttManager
unkey session_id p =
    if is_id p.owner session_id then record p { owner = none; keyed_at = none } else p

abbrev pub is_over : Option ℕ → ℕ → ℕ → Bool
is_over none now max_tx = false
is_over (some t) now max_tx = leb max_tx (now - t)

unfoldable pub expired_owner : ℕ → PttManager → Option ℕ
expired_owner now p = if is_over p.keyed_at now p.max_tx then p.owner else none

pub data Call : Type 0 where
  keys : ℕ → Bool → ℕ → Call
  unkeys : ℕ → Call

unfoldable pub step : PttManager → Call → PttManager
step p (keys session_id has_ptt now) = (try_key session_id has_ptt now p).0
step p (unkeys session_id) = unkey session_id p

abbrev pub run : PttManager → List Call → PttManager
run p [] = p
run p (c ∷ cs) = run (step p c) cs

-- The transmitter is timed exactly while it is owned.
abbrev pub IsTimed : Option ℕ → Option ℕ → Type 0
IsTimed none none = Unit {0}
IsTimed (some owner) (some t) = Unit {0}
IsTimed _ _ = ⊥

abbrev pub releases : Call → ℕ → Bool
releases (unkeys session_id) s = session_id == s
releases _ s = false

abbrev pub releases_any : List Call → ℕ → Bool
releases_any [] s = false
releases_any (c ∷ cs) s = releases c s || releases_any cs s

step-IsTimed :
    (p : PttManager) (c : Call)
    → IsTimed p.owner p.keyed_at
    → IsTimed (step p c).owner (step p c).keyed_at
unfolding step try_key unkey
step-IsTimed p (keys session_id has_ptt now) t = ground (arith, t)
step-IsTimed p (unkeys session_id) t = ground (arith, t)

run-IsTimed :
    (p : PttManager) (cs : List Call)
    → IsTimed p.owner p.keyed_at
    → IsTimed (run p cs).owner (run p cs).keyed_at
run-IsTimed p [] t = t
run-IsTimed p (c ∷ cs) t = run-IsTimed (step p c) cs (step-IsTimed p c t)

-- Over every history of a new manager, the time of keying is known exactly while there is an owner.
pub run-new-IsTimed :
    (max_tx : ℕ) (cs : List Call)
    → IsTimed (run (new max_tx) cs).owner (run (new max_tx) cs).keyed_at
unfolding new
run-new-IsTimed max_tx cs = run-IsTimed (new max_tx) cs tt

step-keeps :
    (p : PttManager) (c : Call) (s : ℕ)
    → p.owner ≡ some s
    → releases c s ≡ false
    → (step p c).owner ≡ some s
unfolding step try_key unkey
step-keeps p (keys session_id has_ptt now) s o r = ground (arith, o)
step-keeps p (unkeys session_id) s o r = ground (arith, o, r)

run-keeps :
    (p : PttManager) (cs : List Call) (s : ℕ)
    → p.owner ≡ some s
    → releases_any cs s ≡ false
    → (run p cs).owner ≡ some s
run-keeps p [] s o r = o
run-keeps p (c ∷ cs) s o r =
    run-keeps (step p c) cs s (step-keeps p c s o (ground arith)) (ground arith)

granted-owner :
    (p : PttManager) (s now : ℕ)
    → (try_key s true now p).1 ≡ granted
    → (try_key s true now p).0.owner ≡ some s
unfolding try_key
granted-owner p s now g = ground (arith, g)

other-busy :
    (p : PttManager) (s other now : ℕ)
    → p.owner ≡ some s
    → (other == s) ≡ false
    → try_key other true now p ≡ (p, denied busy)
unfolding try_key
other-busy p s other now o n = ground (arith, o, n)

-- Once a session is granted the lease it owns it until it unkeys, whatever the others call: each
-- attempt of another session that may transmit is refused as busy, and changes nothing.
pub try_key-keeps :
    (p : PttManager) (s other now then' : ℕ) (cs : List Call)
    → (try_key s true now p).1 ≡ granted
    → releases_any cs s ≡ false
    → (other == s) ≡ false
    → let held = run (try_key s true now p).0 cs in
      (held.owner ≡ some s) × (try_key other true then' held ≡ (held, denied busy))
try_key-keeps p s other now then' cs g r n =
    let owned = run-keeps (try_key s true now p).0 cs s (granted-owner p s now g) r in
    (owned, other-busy (run (try_key s true now p).0 cs) s other then' owned n)

over_iff :
    (owner keyed_at : Option ℕ) (now max_tx s : ℕ)
    → ((if is_over keyed_at now max_tx then owner else none) ≡ some s)
      ↔ ((owner ≡ some s) × ((t : ℕ) × (keyed_at ≡ some t) × (max_tx ≤ now - t)))
over_iff owner none now max_tx s = (λ e. cc, λ h. cc)
over_iff owner (some t) now max_tx s = elim (Bool-cases (leb max_tx (now - t))) [
  | inl over ↦ rw over (λ e. (e, (t, refl, ground (arith, over))), λ h. h.0)
  | inr short ↦ rw short (λ e. cc, λ h. absurd (not-over t h.1 short))
]
  where
    not-over :
        (t : ℕ)
        → ((u : ℕ) × (some t ≡ some u) × (max_tx ≤ now - u))
        → leb max_tx (now - t) ≡ false
        → ⊥
    not-over t h short = ground (arith, h, short)

-- The expired owner is the session that owns the lease, exactly when its time on the air has
-- reached the ceiling.
pub expired_owner_iff :
    (now s : ℕ) (p : PttManager)
    → (expired_owner now p ≡ some s)
      ↔ ((p.owner ≡ some s) × ((t : ℕ) × (p.keyed_at ≡ some t) × (p.max_tx ≤ now - t)))
unfolding expired_owner
expired_owner_iff now s p = over_iff p.owner p.keyed_at now p.max_tx s
