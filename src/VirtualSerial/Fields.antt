-- ===== src/VirtualSerial/Fields.antt =====
-- The tag-length-value fields of protocol.rs, and what is written in them.
use cathub.Prelude.{
  ℕ, zero, suc, ◌+◌, ◌-◌, [], ◌∷◌, ◌++◌, Option, none, some, ◌==◌, ltb, if◌then◌else◌, length, drop,
  Bytes, ◌^◌,
}
use cathub.Prelude.Map.{Map, lookup, insert}
use cathub.VirtualSerial.Wire.{
  reserved_field_tag, field_too_large, duplicate_field, malformed_fields, missing_field,
  invalid_utf8_field, invalid_field_size, Result, ok, err, and_then, to_le_bytes, from_le_bytes,
  get_slice, read_u16, read_u32,
}

-- `Fields`: values by tag, in the order of the tags.
abbrev pub Fields : Type 0
Fields = Map Bytes

abbrev pub u32_max : ℕ
u32_max = 2 ^ 32 - 1

unfoldable pub insert_field : ℕ → Bytes → Fields → Result Fields
insert_field tag value fields =
    if tag == 0 then err reserved_field_tag else ok (insert tag value fields)

-- `insert_u16`, `insert_u32` and `insert_u64` are the cases 2, 4 and 8 of `width`.
unfoldable pub insert_number : ℕ → ℕ → ℕ → Fields → Result Fields
unfolding insert_field
insert_number width tag value fields = insert_field tag (to_le_bytes width value) fields

abbrev pub or_missing : ℕ → Option Bytes → Result Bytes
or_missing tag none = err (missing_field tag)
or_missing tag (some value) = ok value

abbrev pub require : ℕ → Fields → Result Bytes
require tag fields = or_missing tag (lookup tag fields)

-- `require_u16`, `require_u32` and `require_u64`.
unfoldable pub require_number : ℕ → ℕ → Fields → Result ℕ
require_number width tag fields = and_then (require tag fields) (λ value.
    if length value == width then ok (from_le_bytes value) else err (invalid_field_size tag width))

-- Text is its UTF-8 bytes; the check of the standard library that bytes are such is a parameter.
unfoldable pub insert_string : ℕ → Bytes → Fields → Result Fields
unfolding insert_field
insert_string tag utf8 fields = insert_field tag utf8 fields

abbrev pub text_or {ℓ} : {A : Type ℓ} → ℕ → Option A → Result A
text_or tag none = err (invalid_utf8_field tag)
text_or tag (some text) = ok text

unfoldable pub require_string {ℓ} : {A : Type ℓ} → (Bytes → Option A) → ℕ → Fields → Result A
require_string from_utf8 tag fields =
    and_then (require tag fields) (λ value. text_or tag (from_utf8 value))

abbrev pub len : Fields → ℕ
len fields = length fields

unfoldable pub encode_fields : Fields → Result Bytes
encode_fields [] = ok []
encode_fields ((tag, value) ∷ rest) =
    if ltb u32_max (length value)
    then err (field_too_large tag (length value))
    else and_then (encode_fields rest)
        (λ output. ok ((to_le_bytes 2 tag ++ to_le_bytes 4 (length value) ++ value) ++ output))

abbrev pub take_value : ℕ → ℕ → Bytes → Option Bytes → Result (ℕ × Bytes × Bytes)
take_value tag len input none = err malformed_fields
take_value tag len input (some value) = ok (tag, value, drop (6 + len) input)

-- One round of the loop of `decode`: the tag and value of a field, and the input behind it.
unfoldable pub next_field : Bytes → Result (ℕ × Bytes × Bytes)
next_field input =
    if ltb (length input) 6
    then err malformed_fields
    else and_then (read_u16 input 0) (λ tag.
      if tag == 0
      then err reserved_field_tag
      else and_then (read_u32 input 2) (λ len. take_value tag len input (get_slice input 6 len)))

-- The loop on fuel, `none` when it runs out: a round consumes at least 6 bytes, and `decode_fields`
-- gives the length of the input.
unfoldable pub decode_loop : ℕ → Bytes → Fields → Option (Result Fields)
decode_loop fuel [] fields = some (ok fields)
decode_loop zero (b ∷ bs) fields = none
decode_loop (suc fuel) (b ∷ bs) fields = elim (next_field (b ∷ bs)) [
  | err e ↦ some (err e)
  | ok (tag, value, rest) ↦ elim (lookup tag fields) [
    | some old ↦ some (err (duplicate_field tag))
    | none ↦ decode_loop fuel rest (insert tag value fields)
  ]
]

-- The result of a loop that ends; one that does not would be an error.
abbrev pub loop_result : Option (Result Fields) → Result Fields
loop_result none = err malformed_fields
loop_result (some result) = result

unfoldable pub decode_fields : Bytes → Result Fields
unfolding decode_loop
decode_fields input = loop_result (decode_loop (length input) input [])
