-- ===== src/Keyer/Endpoint/Spelled.antt =====
-- What a virtual keyer may stream: buffered commands in front, and printable text behind them.
use cathub.Prelude.{
  ℕ, zero, suc, ◌≡◌, refl, sym, ap, ◌∙◌, Bool, true, false, not, ◌&&◌, ◌||◌, [], ◌∷◌, ◌++◌, some,
  ◌==◌, ltb, if◌then◌else◌, length, Bytes, arith, and_both, and_true, Option, none, is_id,
  every_below, every_below_sound,
}
use cathub.Keyer.Protocol.{within, initial_command_len, refine_variable_length}
use cathub.Keyer.Protocol.Framing.{table_len}
use cathub.Keyer.Endpoint.{EndpointPermissions, is_buffered, buffered_allowed}

-- The operands of a buffered command.
abbrev pub operands : ℕ → ℕ
operands c = if c == 0x1b then 2 else if within 0x1e 0x1f c then 0 else 1

-- An opcode of theirs, and one that keys (PTT and key-down, 0x18 and 0x19) with ptt only.
abbrev pub allowed_first : EndpointPermissions → ℕ → Bool
allowed_first p c = within 0x18 0x1f c && (not (c == 0x18 || c == 0x19) || p.ptt)

-- Whole buffered commands, behind the operands that are left of the one begun, that are all allowed.
unfoldable pub spelled : EndpointPermissions → ℕ → Bytes → Bool
spelled p zero [] = true
spelled p (suc n) [] = false
spelled p (suc n) (b ∷ bs) = spelled p n bs
spelled p zero (c ∷ bs) = allowed_first p c && spelled p (operands c) bs

abbrev pub printable : Bytes → Bool
printable [] = true
printable (b ∷ bs) = ltb 0x1f b && printable bs

pub printable-append :
    (bytes : Bytes) (b : ℕ)
    → printable bytes ≡ true
    → ltb 0x1f b ≡ true
    → printable (bytes ++ b ∷ []) ≡ true
printable-append [] b h k = ground (arith, k)
printable-append (c ∷ cs) b h k = ground (arith, h, printable-append cs b, k)

pub spelled-append :
    (p : EndpointPermissions) (n : ℕ) (xs ys : Bytes)
    → spelled p n xs ≡ true
    → spelled p 0 ys ≡ true
    → spelled p n (xs ++ ys) ≡ true
unfolding spelled
spelled-append p zero [] ys h k = k
spelled-append p (suc n) [] ys h k = ground (arith, h)
spelled-append p (suc n) (x ∷ xs) ys h k = spelled-append p n xs ys h k
spelled-append p zero (c ∷ xs) ys h k =
    let (begun, rest) = and_both (allowed_first p c) (spelled p (operands c) xs) h in
    and_true (allowed_first p c) (spelled p (operands c) (xs ++ ys)) begun
      (spelled-append p (operands c) xs ys rest k)

spelled-operands : (p : EndpointPermissions) (bs : Bytes) → spelled p (length bs) bs ≡ true
unfolding spelled
spelled-operands p [] = refl
spelled-operands p (b ∷ bs) = spelled-operands p bs

buffered_table :
    every_below 32
      (λ c. not (within 0x18 0x1f c) || is_id (initial_command_len c) (suc (operands c)))
    ≡ true
unfolding every_below initial_command_len
buffered_table = refl

is_id-some : (o : Option ℕ) (n : ℕ) → is_id o n ≡ true → o ≡ some n
is_id-some none n h = cc h
is_id-some (some m) n h = ap some (ground (arith, h))

initial-buffered :
    (c : ℕ) → within 0x18 0x1f c ≡ true → initial_command_len c ≡ some (suc (operands c))
initial-buffered c h =
    let entry =
      every_below_sound 32
        (λ c. not (within 0x18 0x1f c) || is_id (initial_command_len c) (suc (operands c))) c
        buffered_table (ground (arith, h)) in
    is_id-some (initial_command_len c) (suc (operands c))
      (sym (ap (λ b. not b || is_id (initial_command_len c) (suc (operands c))) h) ∙ entry)

table_len-buffered :
    (c : ℕ) (cs : Bytes) → within 0x18 0x1f c ≡ true → table_len (c ∷ cs) ≡ some (suc (operands c))
unfolding refine_variable_length
table_len-buffered c [] h = initial-buffered c h
table_len-buffered c (d ∷ ds) h =
    let not_admin : (c == 0x00) ≡ false = ground (arith, h) in
    let not_pot : (c == 0x16) ≡ false = ground (arith, h) in
    rw (not_admin, not_pot) (initial-buffered c h)

-- A whole buffered command that is allowed.
pub spelled-command :
    (p : EndpointPermissions) (cmd : Bytes)
    → table_len cmd ≡ some (length cmd)
    → is_buffered cmd ≡ true
    → buffered_allowed cmd p ≡ true
    → spelled p 0 cmd ≡ true
unfolding spelled
spelled-command p [] t b h = refl
spelled-command p (c ∷ cs) t b h =
    let same : some (length (c ∷ cs)) ≡ some (suc (operands c)) =
      sym t ∙ table_len-buffered c cs b in
    let count : operands c ≡ length cs = ground (arith, same) in
    let rest : spelled p (operands c) cs ≡ true =
      ap (λ n. spelled p n cs) count ∙ spelled-operands p cs in
    ground (arith, b, h, rest)
