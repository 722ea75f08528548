-- ===== src/VirtualSerial/Wire.antt =====
-- Errors, little-endian integers and slices of protocol.rs.
use cathub.Prelude.{
  ℕ, zero, suc, ◌+◌, ◌*◌, ◌/◌, ◌%◌, ◌<◌, ◌≡◌, refl, ap, List, [], ◌∷◌, ◌++◌, Option, none, some,
  arith, length, drop, Bytes,
}

pub data ProtocolError : Type 0 where
  incomplete : ℕ → ℕ → ProtocolError
  bad_magic : ProtocolError
  unsupported_header : ℕ → ProtocolError
  unknown_message_kind : ℕ → ProtocolError
  frame_too_large : ℕ → ProtocolError
  trailing_bytes : ℕ → ProtocolError
  reserved_field_tag : ProtocolError
  field_too_large : ℕ → ℕ → ProtocolError
  duplicate_field : ℕ → ProtocolError
  malformed_fields : ProtocolError
  missing_field : ℕ → ProtocolError
  invalid_field_size : ℕ → ℕ → ProtocolError
  invalid_utf8_field : ℕ → ProtocolError

pub data Result {ℓ} (A : Type ℓ) : Type ℓ where
  ok : A → Result A
  err : ProtocolError → Result A

-- The `?` operator.
abbrev pub and_then {ℓ κ} : {A : Type ℓ} {B : Type κ} → Result A → (A → Result B) → Result B
and_then (ok a) f = f a
and_then (err e) f = err e

-- `to_le_bytes` of an integer of `n` bytes, and `from_le_bytes`.
abbrev pub to_le_bytes : ℕ → ℕ → Bytes
to_le_bytes zero v = []
to_le_bytes (suc n) v = v % 256 ∷ to_le_bytes n (v / 256)

abbrev pub from_le_bytes : Bytes → ℕ
from_le_bytes [] = 0
from_le_bytes (b ∷ bs) = b + 256 * from_le_bytes bs

abbrev pub cons_to {ℓ} : {A : Type ℓ} → A → Option (List A) → Option (List A)
cons_to a none = none
cons_to a (some rest) = some (a ∷ rest)

-- The first `n` elements, if there are as many.
abbrev pub take? {ℓ} : {A : Type ℓ} → ℕ → List A → Option (List A)
take? zero xs = some []
take? (suc n) [] = none
take? (suc n) (x ∷ xs) = cons_to x (take? n xs)

-- `input.get(offset..offset + n)`, for an offset inside the input or `n` above 0.
abbrev pub get_slice : Bytes → ℕ → ℕ → Option Bytes
get_slice input offset n = take? n (drop offset input)

abbrev pub read_slice : Option Bytes → Result ℕ
read_slice none = err malformed_fields
read_slice (some bytes) = ok (from_le_bytes bytes)

-- `read_u16`, `read_u32` and `read_u64`.
abbrev pub read_u16 : Bytes → ℕ → Result ℕ
read_u16 input offset = read_slice (get_slice input offset 2)

abbrev pub read_u32 : Bytes → ℕ → Result ℕ
read_u32 input offset = read_slice (get_slice input offset 4)

abbrev pub read_u64 : Bytes → ℕ → Result ℕ
read_u64 input offset = read_slice (get_slice input offset 8)

abbrev pub range : ℕ → ℕ
range zero = 1
range (suc n) = 256 * range n

pub from-to_le_bytes : (n v : ℕ) → v < range n → from_le_bytes (to_le_bytes n v) ≡ v
from-to_le_bytes zero v h = omega arith
from-to_le_bytes (suc n) v h = omega (arith, from-to_le_bytes n (v / 256) (omega arith))

pub length-to_le_bytes : (n v : ℕ) → length (to_le_bytes n v) ≡ n
length-to_le_bytes zero v = refl
length-to_le_bytes (suc n) v = ap suc (length-to_le_bytes n (v / 256))

pub take?-append {ℓ} : {A : Type ℓ} (xs ys : List A) → take? (length xs) (xs ++ ys) ≡ some xs
take?-append [] ys = refl
take?-append (x ∷ xs) ys = ap (cons_to x) (take?-append xs ys)

pub take?-short {ℓ} : {A : Type ℓ} (n : ℕ) (xs : List A) → length xs < n → take? n xs ≡ none
take?-short zero xs h = absurd (omega arith)
take?-short (suc n) [] h = refl
take?-short (suc n) (x ∷ xs) h = ap (cons_to x) (take?-short n xs (omega arith))
