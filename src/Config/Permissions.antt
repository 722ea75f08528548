-- ===== src/Config/Permissions.antt =====
-- The permissions of a checked WinKeyer endpoint (crates/cathub/src/config.rs with
-- crates/cathub/src/winkeyer/endpoint.rs).
use cathub.Prelude.{
  ◌≡◌, refl, ◌⊎◌, inl, inr, Bool-cases, Bool, true, false, not, ◌&&◌, ◌||◌, List, [], ◌∷◌, Option,
  none, some, ◌==◌, if◌then◌else◌, equal, is_empty, Bytes, arith,
}
use cathub.Prelude.Text.{text, trim}
use cathub.Keyer.Endpoint.{EndpointPermissions, grant, grant_all, from_tokens}
use cathub.Config.{
  Invalid, implied, is_permission, clashes, has, WinkeyerEndpointConfig, check_known, check_implied,
  validate_winkeyer_endpoint,
}

equal-≡ : (s t : Bytes) → equal s t ≡ true → s ≡ t
equal-≡ [] [] h = refl
equal-≡ (x ∷ xs) (y ∷ ys) h = ground (arith, h, equal-≡ xs ys)
equal-≡ [] (y ∷ ys) h = ground (arith, h)
equal-≡ (x ∷ xs) [] h = ground (arith, h)

-- The permissions `p` and those that the tokens name.
abbrev with_tokens : List Bytes → EndpointPermissions → EndpointPermissions
with_tokens tokens p = record {
  status = has tokens (text "status") || p.status;
  send = has tokens (text "send") || p.send;
  control = has tokens (text "control") || p.control;
  ptt = has tokens (text "ptt") || p.ptt;
  config_write = has tokens (text "config_write") || p.config_write;
}

known : (s t : Bytes) → (t ≡ s) ⊎ (equal t s ≡ false)
known s t = elim (Bool-cases (equal t s)) [
  | inl same ↦ inl (equal-≡ t s same)
  | inr other ↦ inr other
]

grant-named : (token : Bytes) (p : EndpointPermissions) → grant token p ≡ with_tokens (token ∷ []) p
unfolding grant
grant-named token p = elim (known (text "status") token) [
  | inl e ↦ rw e refl
  | inr not_status ↦ elim (known (text "send") token) [
    | inl e ↦ rw e refl
    | inr not_send ↦ elim (known (text "control") token) [
      | inl e ↦ rw e refl
      | inr not_control ↦ elim (known (text "ptt") token) [
        | inl e ↦ rw e refl
        | inr not_ptt ↦ elim (known (text "config_write") token) [
          | inl e ↦ rw e refl
          | inr other ↦ rw (not_status, not_send, not_control, not_ptt, other) refl
        ]
      ]
    ]
  ]
]

or_swap : (x y z : Bool) → x || ((y || false) || z) ≡ (y || x) || z
or_swap false false z = refl
or_swap false true z = refl
or_swap true false z = refl
or_swap true true z = refl

abbrev permitting : (status send control ptt config_write : Bool) → EndpointPermissions
permitting s n c p w = record { status = s; send = n; control = c; ptt = p; config_write = w }

permitting-same :
    {s1 s2 n1 n2 c1 c2 p1 p2 w1 w2 : Bool}
    → s1 ≡ s2
    → n1 ≡ n2
    → c1 ≡ c2
    → p1 ≡ p2
    → w1 ≡ w2
    → permitting s1 n1 c1 p1 w1 ≡ permitting s2 n2 c2 p2 w2
permitting-same s n c p w = rw (s, n, c, p, w) refl

grant_all-named :
    (tokens : List Bytes) (p : EndpointPermissions) → grant_all tokens p ≡ with_tokens tokens p
unfolding grant_all
grant_all-named [] p = refl
grant_all-named (token ∷ tokens) p =
    rw (grant_all-named tokens, grant-named)
      (permitting-same (swap (text "status") p.status) (swap (text "send") p.send)
        (swap (text "control") p.control) (swap (text "ptt") p.ptt)
        (swap (text "config_write") p.config_write))
  where
    swap :
        (name : Bytes) (field : Bool)
        → has tokens name || ((equal token name || false) || field)
          ≡ (equal token name || has tokens name) || field
    swap name field = or_swap (has tokens name) (equal token name) field

-- Sending comes with the status, keying with sending and control, and the keyer's memory with the
-- status and control.
pub IsClosed : EndpointPermissions → Type 0
IsClosed p =
    (p.send ≡ true → p.status ≡ true)
    × (p.ptt ≡ true → p.send && p.control ≡ true)
    × (p.config_write ≡ true → p.status && p.control ≡ true)

or_false : (x : Bool) → x || false ≡ x
or_false false = refl
or_false true = refl

-- A check that passes.
pub passed :
    (c : Bool) (e : Invalid) (next : Option Invalid)
    → (if c then some e else next) ≡ none
    → (c ≡ false) × (next ≡ none)
passed false e next h = (refl, h)
passed true e next h = ground (arith, h)

kept :
    (c : Bool) (e : Invalid) (next : Option Invalid)
    → (if c then next else some e) ≡ none
    → next ≡ none
kept true e next h = h
kept false e next h = ground (arith, h)

implied-closed :
    (name : Bytes) (s n c p w : Bool)
    → implied name s n c p w ≡ none
    → (n ≡ true → s ≡ true) × (p ≡ true → n && c ≡ true) × (w ≡ true → s && c ≡ true)
implied-closed name s n c p w h =
    let (h1, r1) = passed (n && not s) _ _ h in
    let (h2, r2) = passed (p && (not n || not c)) _ _ r1 in
    let (h3, r3) = passed (w && (not s || not c)) _ _ r2 in
    ((λ e. ground (arith, e, h1)), (λ e. ground (arith, e, h2)), (λ e. ground (arith, e, h3)))

from_tokens-named :
    (tokens : List Bytes)
    → from_tokens tokens
      ≡ permitting
          (has tokens (text "status"))
          (has tokens (text "send"))
          (has tokens (text "control"))
          (has tokens (text "ptt"))
          (has tokens (text "config_write"))
from_tokens-named tokens = rw (grant_all-named tokens) (
    permitting-same (or_false (has tokens (text "status"))) (or_false (has tokens (text "send")))
      (or_false (has tokens (text "control"))) (or_false (has tokens (text "ptt")))
      (or_false (has tokens (text "config_write"))))

check_implied-IsClosed :
    (name : Bytes) (perms : List Bytes)
    → check_implied name perms ≡ none
    → IsClosed (from_tokens perms)
unfolding check_implied IsClosed
check_implied-IsClosed name perms h = rw (from_tokens-named perms) (
    implied-closed name (has perms (text "status")) (has perms (text "send"))
      (has perms (text "control")) (has perms (text "ptt")) (has perms (text "config_write")) h)

check_known-next :
    (name : Bytes) (perms : List Bytes) (next : Option Invalid)
    → check_known name perms next ≡ none
    → next ≡ none
unfolding check_known
check_known-next name [] next h = h
check_known-next name (permission ∷ perms) next h =
    check_known-next name perms next (kept (is_permission permission) _ _ h)

pub validate_winkeyer_endpoint-IsClosed :
    (e : WinkeyerEndpointConfig)
    → validate_winkeyer_endpoint e ≡ none
    → IsClosed (from_tokens e.perms)
unfolding validate_winkeyer_endpoint
validate_winkeyer_endpoint-IsClosed e h =
    let (h1, r1) = passed (is_empty (trim e.transport)) _ _ h in
    let (h2, r2) = passed (not (e.baud == 1200)) _ _ r1 in
    let (h3, r3) = passed (clashes e.application_transport e.transport) _ _ r2 in
    check_implied-IsClosed e.name e.perms
      (check_known-next e.name e.perms (check_implied e.name e.perms) r3)
