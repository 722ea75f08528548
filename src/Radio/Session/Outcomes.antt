-- ===== src/Radio/Session/Outcomes.antt =====
-- What becomes of a modeled write before it waits for the radio (dialect/mod.rs).
use cathub.Prelude.{
  ℕ, ◌≡◌, refl, Bool, true, false, not, ◌&&◌, ◌||◌, some, if◌then◌else◌, arith, Bool-cases, inl,
  inr,
}
use cathub.Radio.Model.{
  StateMutation, set_rx_vfo, set_vfo_freq, set_mode, set_data_mode, set_split, set_ptt, set_rit,
  set_xit,
}
use cathub.Radio.Permissions.{
  CommandClass, modeled_read, modeled_write, passthrough_read, ptt_write, config_write_class,
  auto_info_toggle, allows_mutation,
}
use cathub.Radio.State.{StateHandle, is_redundant}
use cathub.Radio.Lease.{PttManager, KeyResult, granted, busy, not_permitted, try_key, is_other}
use cathub.Radio.Link.Scheduler.{ptt, write, apply}
use cathub.Radio.Session.{
  outcome_ok, outcome_denied, outcome_busy, Session, Begun, replies, submits, concern,
  begin_modeled, dispatch, key_result,
}

abbrev pub is_ptt_write : CommandClass → Bool
is_ptt_write ptt_write = true
is_ptt_write class = false

-- A write that keys the transmitter, in the class for it.
abbrev pub keys : CommandClass → StateMutation → Bool
keys ptt_write (set_ptt on source) = on
keys class m = false

-- What becomes of a modeled write: refused without the permission, or without the one to key; skipped
-- where the state says that it changes nothing; refused while another session owns the lease; or
-- submitted as it is, in the class of keying at its priority. Only keying that is submitted moves the
-- lease, and to its session.
abbrev pub Begins :
    Session → StateMutation → CommandClass → StateHandle → PttManager → Begun × PttManager → Type 0
Begins c m class h p (replies outcome_denied, q) =
    ((allows_mutation c.perms class m && (c.perms.ptt || not (keys class m))) ≡ false) × (q ≡ p)
Begins c m class h p (replies outcome_ok, q) =
    (allows_mutation c.perms class m ≡ true) × (is_redundant h m ≡ true) × (q ≡ p)
Begins c m class h p (replies outcome_busy, q) =
    (keys class m ≡ true) × (is_other p.owner c.session_id ≡ true) × (q ≡ p)
Begins c m class h p (replies _, q) = ⊥
Begins c m class h p (submits priority op, q) =
    (allows_mutation c.perms class m ≡ true)
    × (is_redundant h m ≡ false)
    × (op ≡ apply m)
    × (priority ≡ (if is_ptt_write class then ptt else write))
    × (q.owner ≡ (if keys class m then some c.session_id else p.owner))
    × ((not (keys class m) || (c.perms.ptt && not (is_other p.owner c.session_id))) ≡ true)

dispatch-Begins :
    (c : Session) (m : StateMutation) (class : CommandClass) (now : ℕ) (h : StateHandle)
    (p : PttManager)
    → allows_mutation c.perms class m ≡ true
    → is_redundant h m ≡ false
    → Begins c m class h p (dispatch (concern class m) c m class now p)
unfolding try_key
dispatch-Begins c (set_ptt true source) ptt_write now h p allowed needed =
    go c.perms.ptt (is_other p.owner c.session_id) refl refl
  where
    go :
        (has_ptt taken : Bool)
        → c.perms.ptt ≡ has_ptt
        → is_other p.owner c.session_id ≡ taken
        → Begins c (set_ptt true source) ptt_write h p (
            key_result
              (if not has_ptt
                then (p, KeyResult.denied not_permitted)
                else if taken
                then (p, KeyResult.denied busy)
                else (record p { owner = some c.session_id; keyed_at = some now }, granted))
              (set_ptt true source))
    go false taken e f = (ground (arith, e), refl)
    go true true e f = (refl, f, refl)
    go true false e f = (allowed, needed, refl, refl, refl, ground (arith, e, f))
dispatch-Begins c (set_ptt false source) ptt_write now h p allowed needed =
    (allowed, needed, refl, refl, refl, refl)
dispatch-Begins c (set_rx_vfo v) ptt_write now h p allowed needed =
    (allowed, needed, refl, refl, refl, refl)
dispatch-Begins c (set_vfo_freq v hz) ptt_write now h p allowed needed =
    (allowed, needed, refl, refl, refl, refl)
dispatch-Begins c (set_mode v mode) ptt_write now h p allowed needed =
    (allowed, needed, refl, refl, refl, refl)
dispatch-Begins c (set_data_mode v on) ptt_write now h p allowed needed =
    (allowed, needed, refl, refl, refl, refl)
dispatch-Begins c (set_split on tx) ptt_write now h p allowed needed =
    (allowed, needed, refl, refl, refl, refl)
dispatch-Begins c (set_rit on hz) ptt_write now h p allowed needed =
    (allowed, needed, refl, refl, refl, refl)
dispatch-Begins c (set_xit on hz) ptt_write now h p allowed needed =
    (allowed, needed, refl, refl, refl, refl)
dispatch-Begins c m modeled_read now h p allowed needed = (allowed, needed, refl, refl, refl, refl)
dispatch-Begins c m modeled_write now h p allowed needed = (allowed, needed, refl, refl, refl, refl)
dispatch-Begins c m passthrough_read now h p allowed needed =
    (allowed, needed, refl, refl, refl, refl)
dispatch-Begins c m config_write_class now h p allowed needed =
    (allowed, needed, refl, refl, refl, refl)
dispatch-Begins c m auto_info_toggle now h p allowed needed =
    (allowed, needed, refl, refl, refl, refl)
dispatch-Begins c m CommandClass.denied now h p allowed needed =
    (allowed, needed, refl, refl, refl, refl)

-- Every modeled write is refused, skipped or submitted as `Begins` says.
pub begin_modeled-Begins :
    (c : Session) (m : StateMutation) (class : CommandClass) (now : ℕ) (h : StateHandle)
    (p : PttManager)
    → Begins c m class h p (begin_modeled c m class now h p)
unfolding begin_modeled
begin_modeled-Begins c m class now h p = elim (Bool-cases (allows_mutation c.perms class m)) [
  | inr forbidden ↦ rw forbidden (ground (arith, forbidden), refl)
  | inl allowed ↦ elim (Bool-cases (is_redundant h m)) [
    | inl redundant ↦ rw (allowed, redundant) (allowed, redundant, refl)
    | inr needed ↦ rw (allowed, needed) (dispatch-Begins c m class now h p allowed needed)
  ]
]
