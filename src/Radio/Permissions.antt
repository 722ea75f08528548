-- ===== src/Radio/Permissions.antt =====
-- permissions.rs: what an endpoint may do. A token is the bytes of its text.
use cathub.Prelude.{
  ◌≡◌, refl, Bool, true, false, ◌&&◌, ◌||◌, List, [], ◌∷◌, arith, if◌then◌else◌, equal, Bytes,
  Bool-cases, inl, inr, ap, ◌∙◌,
}
use cathub.Radio.Model.{StateMutation, set_vfo_freq}

pub data CommandClass : Type 0 where
  modeled_read modeled_write passthrough_read ptt_write config_write_class : CommandClass
  auto_info_toggle denied : CommandClass

pub record EndpointPermissions : Type 0 where
  pub read : Bool
  pub write : Bool
  pub frequency_write : Bool
  pub ptt : Bool
  pub config_write : Bool

abbrev pub no_permissions : EndpointPermissions
no_permissions = record {
  read = false;
  write = false;
  frequency_write = false;
  ptt = false;
  config_write = false;
}

abbrev pub read_token : Bytes
read_token = b'r' ∷ b'e' ∷ b'a' ∷ b'd' ∷ []

abbrev pub write_token : Bytes
write_token = b'w' ∷ b'r' ∷ b'i' ∷ b't' ∷ b'e' ∷ []

abbrev pub frequency_write_token : Bytes
frequency_write_token =
    b'f' ∷ b'r' ∷ b'e' ∷ b'q' ∷ b'u' ∷ b'e' ∷ b'n' ∷ b'c' ∷ b'y' ∷ b'_' ∷ write_token

abbrev pub ptt_token : Bytes
ptt_token = b'p' ∷ b't' ∷ b't' ∷ []

abbrev pub config_write_token : Bytes
config_write_token = b'c' ∷ b'o' ∷ b'n' ∷ b'f' ∷ b'i' ∷ b'g' ∷ b'_' ∷ write_token

unfoldable pub grant : Bytes → EndpointPermissions → EndpointPermissions
grant token p =
    if equal token read_token
    then record p { read = true }
    else if equal token write_token
    then record p { write = true }
    else if equal token frequency_write_token
    then record p { frequency_write = true }
    else if equal token ptt_token
    then record p { ptt = true }
    else if equal token config_write_token
    then record p { config_write = true }
    else p

unfoldable pub grant_all : List Bytes → EndpointPermissions → EndpointPermissions
grant_all [] p = p
grant_all (token ∷ tokens) p = grant_all tokens (grant token p)

unfoldable pub from_tokens : List Bytes → EndpointPermissions
from_tokens tokens = grant_all tokens no_permissions

unfoldable pub allows : EndpointPermissions → CommandClass → Bool
allows p modeled_read = p.read
allows p passthrough_read = p.read
allows p modeled_write = p.write
allows p ptt_write = p.ptt
allows p config_write_class = p.config_write
allows p auto_info_toggle = true
allows p denied = false

abbrev pub sets_frequency : StateMutation → Bool
sets_frequency (set_vfo_freq vfo hz) = true
sets_frequency _ = false

unfoldable pub allows_mutation : EndpointPermissions → CommandClass → StateMutation → Bool
unfolding allows
allows_mutation p modeled_write m = p.write || (p.frequency_write && sets_frequency m)
allows_mutation p class m = allows p class

-- The tokens of a list that name a permission.
abbrev pub names : List Bytes → Bytes → Bool
names [] token = false
names (t ∷ ts) token = equal t token || names ts token

abbrev pub Grants : EndpointPermissions → EndpointPermissions → List Bytes → Type 0
Grants before after tokens =
    (after.read ≡ (before.read || names tokens read_token))
    × (after.write ≡ (before.write || names tokens write_token))
    × (after.frequency_write ≡ (before.frequency_write || names tokens frequency_write_token))
    × (after.ptt ≡ (before.ptt || names tokens ptt_token))
    × (after.config_write ≡ (before.config_write || names tokens config_write_token))

equal_sound : (x y : Bytes) → equal x y ≡ true → x ≡ y
equal_sound [] [] e = refl
equal_sound [] (d ∷ ds) e = cc
equal_sound (c ∷ cs) [] e = cc
equal_sound (c ∷ cs) (d ∷ ds) e = ground (arith, equal_sound cs ds, e)

pub exclusive : (t x y : Bytes) → equal x y ≡ false → equal t x ≡ true → equal t y ≡ false
exclusive t x y n e = ap (λ z. equal z y) (equal_sound t x e) ∙ n

grant-Grants : (t : Bytes) (p : EndpointPermissions) → Grants p (grant t p) (t ∷ [])
unfolding grant
grant-Grants t p = elim (Bool-cases (equal t read_token)) [
  | inl e ↦
      rw
        (
          e,
          exclusive t read_token write_token refl e,
          exclusive t read_token frequency_write_token refl e,
          exclusive t read_token ptt_token refl e,
          exclusive t read_token config_write_token refl e,
        )
        (ground arith)
  | inr n_read ↦ elim (Bool-cases (equal t write_token)) [
    | inl e ↦
        rw
          (
            n_read,
            e,
            exclusive t write_token frequency_write_token refl e,
            exclusive t write_token ptt_token refl e,
            exclusive t write_token config_write_token refl e,
          )
          (ground arith)
    | inr n_write ↦ elim (Bool-cases (equal t frequency_write_token)) [
      | inl e ↦
          rw
            (
              n_read,
              n_write,
              e,
              exclusive t frequency_write_token ptt_token refl e,
              exclusive t frequency_write_token config_write_token refl e,
            )
            (ground arith)
      | inr n_frequency_write ↦ elim (Bool-cases (equal t ptt_token)) [
        | inl e ↦
            rw
              (
                n_read,
                n_write,
                n_frequency_write,
                e,
                exclusive t ptt_token config_write_token refl e,
              )
              (ground arith)
        | inr n_ptt ↦ elim (Bool-cases (equal t config_write_token)) [
          | inl e ↦ rw (n_read, n_write, n_frequency_write, n_ptt, e) (ground arith)
          | inr n_config_write ↦
              rw (n_read, n_write, n_frequency_write, n_ptt, n_config_write) (ground arith)
        ]
      ]
    ]
  ]
]

join : (x y z n rest : Bool) → y ≡ (x || (n || false)) → z ≡ (y || rest) → z ≡ (x || (n || rest))
join true y z n rest e f = ground (arith, e, f)
join false y z true rest e f = ground (arith, e, f)
join false y z false rest e f = ground (arith, e, f)

grant_all-Grants :
    (tokens : List Bytes) (p : EndpointPermissions) → Grants p (grant_all tokens p) tokens
unfolding grant_all
grant_all-Grants [] p = ground arith
grant_all-Grants (t ∷ ts) p =
    let (r, w, f, k, c) = grant-Grants t p in
    let (r', w', f', k', c') = grant_all-Grants ts (grant t p) in
    (
      join _ _ _ _ _ r r',
      join _ _ _ _ _ w w',
      join _ _ _ _ _ f f',
      join _ _ _ _ _ k k',
      join _ _ _ _ _ c c',
    )

-- An endpoint has exactly the permissions that its tokens name, in any order and however often;
-- a token that names none changes nothing.
pub from_tokens-Grants : (tokens : List Bytes) → Grants no_permissions (from_tokens tokens) tokens
unfolding from_tokens
from_tokens-Grants tokens = grant_all-Grants tokens no_permissions

-- An endpoint whose tokens do not include `write` may make a modeled write only if they include
-- `frequency_write` and the write sets a frequency.
pub allows_mutation-from_tokens :
    (tokens : List Bytes) (m : StateMutation)
    → names tokens write_token ≡ false
    → allows_mutation (from_tokens tokens) modeled_write m ≡ true
    → (names tokens frequency_write_token ≡ true) × (sets_frequency m ≡ true)
unfolding allows_mutation
allows_mutation-from_tokens tokens m n e =
    let (r, w, f, k, c) = from_tokens-Grants tokens in ground (arith, w, f, n, e)
