-- ===== src/Radio/Session/Arbiter.antt =====
-- The sessions of dialect/mod.rs side by side: their requests, the replies they wait for and their
-- disconnections in any order.
use cathub.Prelude.{
  ℕ, ◌≡◌, sym, ap, ◌∙◌, false, not, Option, none, some, if◌then◌else◌, is_id, arith, ◌==◌, ==_iff,
  Bool-cases, inl, inr,
}
use cathub.Radio.Model.{StateMutation}
use cathub.Radio.Permissions.{CommandClass, allows_mutation}
use cathub.Radio.State.{StateHandle, is_redundant}
use cathub.Radio.Lease.{PttManager, new, try_key, unkey, is_other}
use cathub.Radio.Link.Transport.{Reply, answer, failure}
use cathub.Radio.Session.{
  Session, Begun, replies, submits, Concern, keying, unkeying, neither, concern, begin_modeled,
  finish_modeled, releases_on_disconnect, dispatch, key_result,
}

-- The lease, and what each session waits for.
pub record Hub : Type 0 where
  pub lease : PttManager
  pub waiting : ℕ → Option Concern

abbrev pub set_waiting : ℕ → Option Concern → (ℕ → Option Concern) → ℕ → Option Concern
set_waiting s c waiting t = if t == s then c else waiting t

abbrev pub awaited : Begun → Concern → Option Concern
awaited (replies _) c = none
awaited (submits priority op) c = some c

abbrev pub request : Session → StateMutation → CommandClass → ℕ → StateHandle → Hub → Hub
request c m class now h w =
    let (begun, lease) = begin_modeled c m class now h w.lease in
    record {
      lease = lease;
      waiting = set_waiting c.session_id (awaited begun (concern class m)) w.waiting;
    }

abbrev pub complete : ℕ → Concern → Reply → Hub → Hub
complete s c r w = record {
  lease = (finish_modeled s c r w.lease).1;
  waiting = set_waiting s none w.waiting;
}

abbrev pub disconnect : ℕ → Hub → Hub
disconnect s w = record w {
  waiting =
      set_waiting s (if releases_on_disconnect s w.lease then some unkeying else none) w.waiting;
}

pub data Step : Hub → Hub → Type 0 where
  requests :
      (w : Hub) (c : Session) (m : StateMutation) (class : CommandClass) (now : ℕ) (h : StateHandle)
      → w.waiting c.session_id ≡ none
      → Step w (request c m class now h w)
  completes :
      (w : Hub) (s : ℕ) (c : Concern) (r : Reply) → w.waiting s ≡ some c → Step w (complete s c r w)
  disconnects : (w : Hub) (s : ℕ) → w.waiting s ≡ none → Step w (disconnect s w)

pub data Reachable : Hub → Type 0 where
  starts : (max_tx : ℕ) → Reachable (record { lease = new max_tx; waiting = λ s. none })
  goes : (w v : Hub) → Reachable w → Step w v → Reachable v

-- Whoever waits for the radio to be keyed owns the lease.
abbrev IsLeased : PttManager → (ℕ → Option Concern) → Type 0
IsLeased p waiting = (s : ℕ) → waiting s ≡ some keying → p.owner ≡ some s

clear-IsLeased :
    (p : PttManager) (waiting : ℕ → Option Concern) (s : ℕ) (c : Option Concern)
    → IsLeased p waiting
    → (c ≡ some keying → p.owner ≡ some s)
    → IsLeased p (set_waiting s c waiting)
clear-IsLeased p waiting s c l k t e = elim (Bool-cases (t == s)) [
  | inl same ↦
      k (sym (ap (λ x. if x then c else waiting t) same) ∙ e) ∙ ap some (sym ((==_iff t s).0 same))
  | inr other ↦ l t (sym (ap (λ x. if x then c else waiting t) other) ∙ e)
]

-- Releasing the lease of a session that does not wait for keying.
unkey-IsLeased :
    (p : PttManager) (waiting : ℕ → Option Concern) (s : ℕ)
    → IsLeased p waiting
    → IsLeased (unkey s p) (set_waiting s none waiting)
unfolding unkey
unkey-IsLeased p waiting s l t e = elim (Bool-cases (t == s)) [
  | inl same ↦ cc (sym (ap (λ x. if x then none else waiting t) same) ∙ e)
  | inr other ↦
      let owned = l t (sym (ap (λ x. if x then none else waiting t) other) ∙ e) in
      rw (ap (λ o. is_id o s) owned, other) owned
]

-- What a request leaves, from the lease and what the session then waits for.
abbrev Leaves : ℕ → Concern → (ℕ → Option Concern) → Begun × PttManager → Type 0
Leaves s c waiting r = IsLeased r.1 (set_waiting s (awaited r.0 c) waiting)

grant-IsLeased :
    (p : PttManager) (waiting : ℕ → Option Concern) (s now : ℕ)
    → IsLeased p waiting
    → is_other p.owner s ≡ false
    → IsLeased
        (record p { owner = some s; keyed_at = some now })
        (set_waiting s (some keying) waiting)
grant-IsLeased p waiting s now l free t e = elim (Bool-cases (t == s)) [
  | inl same ↦ ap some (sym ((==_iff t s).0 same))
  | inr different ↦
      let owned = l t (sym (ap (λ x. if x then some keying else waiting t) different) ∙ e) in
      let taken : not (t == s) ≡ false = sym (ap (λ o. is_other o s) owned) ∙ free in
      ground (arith, taken, different)
]

refused-IsLeased :
    (p : PttManager) (waiting : ℕ → Option Concern) (s : ℕ)
    → IsLeased p waiting
    → IsLeased p (set_waiting s none waiting)
refused-IsLeased p waiting s l = clear-IsLeased p waiting s none l (λ e. cc e)

key-Leaves :
    (c : Session) (m : StateMutation) (now : ℕ) (p : PttManager) (waiting : ℕ → Option Concern)
    → IsLeased p waiting
    → Leaves c.session_id keying waiting (key_result (try_key c.session_id c.perms.ptt now p) m)
unfolding try_key
key-Leaves c m now p waiting l = elim (Bool-cases c.perms.ptt) [
  | inr no_ptt ↦ rw no_ptt (refused-IsLeased p waiting c.session_id l)
  | inl has_ptt ↦ elim (Bool-cases (is_other p.owner c.session_id)) [
    | inl taken ↦ rw (has_ptt, taken) (refused-IsLeased p waiting c.session_id l)
    | inr free ↦ rw (has_ptt, free) (grant-IsLeased p waiting c.session_id now l free)
  ]
]

dispatch-Leaves :
    (k : Concern) (c : Session) (m : StateMutation) (class : CommandClass) (now : ℕ)
    (p : PttManager) (waiting : ℕ → Option Concern)
    → IsLeased p waiting
    → Leaves c.session_id k waiting (dispatch k c m class now p)
dispatch-Leaves keying c m class now p waiting l = key-Leaves c m now p waiting l
dispatch-Leaves unkeying c m class now p waiting l =
    clear-IsLeased p waiting c.session_id (some unkeying) l (λ e. cc e)
dispatch-Leaves neither c m class now p waiting l =
    clear-IsLeased p waiting c.session_id (some neither) l (λ e. cc e)

begin_modeled-Leaves :
    (c : Session) (m : StateMutation) (class : CommandClass) (now : ℕ) (h : StateHandle)
    (p : PttManager) (waiting : ℕ → Option Concern)
    → IsLeased p waiting
    → Leaves c.session_id (concern class m) waiting (begin_modeled c m class now h p)
unfolding begin_modeled
begin_modeled-Leaves c m class now h p waiting l =
    elim (Bool-cases (allows_mutation c.perms class m)) [
      | inr forbidden ↦ rw forbidden (refused-IsLeased p waiting c.session_id l)
      | inl allowed ↦ elim (Bool-cases (is_redundant h m)) [
        | inl redundant ↦ rw (allowed, redundant) (refused-IsLeased p waiting c.session_id l)
        | inr needed ↦
            rw (allowed, needed) (dispatch-Leaves (concern class m) c m class now p waiting l)
      ]
    ]

finish-IsLeased :
    (s : ℕ) (c : Concern) (r : Reply) (p : PttManager) (waiting : ℕ → Option Concern)
    → IsLeased p waiting
    → IsLeased (finish_modeled s c r p).1 (set_waiting s none waiting)
unfolding finish_modeled
finish-IsLeased s keying (answer bytes) p waiting l = refused-IsLeased p waiting s l
finish-IsLeased s keying (failure e) p waiting l = unkey-IsLeased p waiting s l
finish-IsLeased s unkeying r p waiting l = unkey-IsLeased p waiting s l
finish-IsLeased s neither r p waiting l = refused-IsLeased p waiting s l

Step-IsLeased : (w v : Hub) → Step w v → IsLeased w.lease w.waiting → IsLeased v.lease v.waiting
Step-IsLeased _ _ (requests w c m class now h free) l =
    begin_modeled-Leaves c m class now h w.lease w.waiting l
Step-IsLeased _ _ (completes w s c r waits) l = finish-IsLeased s c r w.lease w.waiting l
Step-IsLeased _ _ (disconnects w s free) l =
    clear-IsLeased w.lease w.waiting s
      (if releases_on_disconnect s w.lease then some unkeying else none) l (λ e. ground (arith, e))

Reachable-IsLeased : (w : Hub) → Reachable w → IsLeased w.lease w.waiting
Reachable-IsLeased _ (starts max_tx) = λ s e. cc e
Reachable-IsLeased _ (goes w v before step) = Step-IsLeased w v step (Reachable-IsLeased w before)

-- Whatever the sessions ask for, in whatever order the replies come and sessions disconnect: a
-- session whose keying write is on its way to the radio owns the lease, so that there is one such
-- session at most.
pub Reachable-keying :
    (w : Hub) (s t : ℕ)
    → Reachable w
    → w.waiting s ≡ some keying
    → w.waiting t ≡ some keying
    → (w.lease.owner ≡ some s) × (s ≡ t)
Reachable-keying w s t r e f =
    let owned = Reachable-IsLeased w r s e in (owned, cc (sym owned ∙ Reachable-IsLeased w r t f))
