-- ===== src/VirtualSerial/Payloads.antt =====
-- What is written in the fields of protocol.rs is read back.
use cathub.Prelude.{
  ℕ, zero, suc, ◌+◌, ◌≤◌, ◌<◌, ◌≡◌, refl, sym, ap, subst, ◌∙◌, Bool, true, false, [], ◌∷◌, ◌++◌,
  Option, none, some, arith, ◌==◌, ltb, if◌then◌else◌, length, length-append, drop-append,
  length-drop, Option-cases, ◌⊎◌, inl, inr, Bytes, append_assoc, append-nil, All,
}
use cathub.Prelude.Map.{lookup, insert, Above, IsSorted, lookup-insert}
use cathub.VirtualSerial.Wire.{
  ProtocolError, duplicate_field, Result, ok, err, and_then, to_le_bytes, from_le_bytes, get_slice,
  read_u16, read_u32, from-to_le_bytes, length-to_le_bytes, take?-append, range,
}
use cathub.VirtualSerial.Fields.{
  Fields, u32_max, insert_field, insert_number, require_number, encode_fields, next_field,
  take_value, decode_loop, loop_result, decode_fields,
}

-- A field that the wire can carry.
abbrev pub IsField : ℕ × Bytes → Type 0
IsField (tag, value) = (0 < tag) × (tag < 65536) × (length value ≤ u32_max)

-- The wire form of a field and of all.
abbrev pub field_bytes : ℕ → Bytes → Bytes
field_bytes tag value = to_le_bytes 2 tag ++ to_le_bytes 4 (length value) ++ value

abbrev pub fields_bytes : Fields → Bytes
fields_bytes [] = []
fields_bytes ((tag, value) ∷ rest) = field_bytes tag value ++ fields_bytes rest

pub encode_fields-ok : (m : Fields) → All IsField m → encode_fields m ≡ ok (fields_bytes m)
unfolding encode_fields
encode_fields-ok [] h = refl
encode_fields-ok ((tag, value) ∷ rest) h = ground (arith, encode_fields-ok rest h.1)

next_field-at :
    (a b c d e f tag : ℕ) (value rest : Bytes)
    → from_le_bytes (a ∷ b ∷ []) ≡ tag
    → from_le_bytes (c ∷ d ∷ e ∷ f ∷ []) ≡ length value
    → 0 < tag
    → next_field (a ∷ b ∷ c ∷ d ∷ e ∷ f ∷ value ++ rest) ≡ ok (tag, value, rest)
unfolding next_field
next_field-at a b c d e f tag value rest t l pos =
    ground (arith, t, l, take?-append value rest, drop-append value rest)

next_field-bytes :
    (tag : ℕ) (value rest : Bytes)
    → IsField (tag, value)
    → next_field (field_bytes tag value ++ rest) ≡ ok (tag, value, rest)
next_field-bytes tag value rest h =
    next_field-at _ _ _ _ _ _ tag value rest (from-to_le_bytes 2 tag (omega arith))
      (from-to_le_bytes 4 (length value) (omega arith)) h.0

Above-end :
    (lo key : ℕ) (value : Bytes) (m rest : Fields)
    → Above lo (m ++ (key, value) ∷ rest)
    → (insert key value m ≡ m ++ (key, value) ∷ []) × (lookup key m ≡ none) × (lo < key)
unfolding insert lookup
Above-end lo key value [] rest h = (refl, refl, h.0)
Above-end lo key value ((k, v) ∷ m) rest h = ground (arith, Above-end k key value m rest h.1)

-- A number that fits the width of its field is read back from it, whatever the other fields are.
pub insert_number-require_number :
    (width tag value : ℕ) (m : Fields)
    → 0 < tag
    → value < range width
    → and_then (insert_number width tag value m) (require_number width tag) ≡ ok value
unfolding insert_number insert_field require_number
insert_number-require_number width tag value m pos h = ground (
  arith,
  lookup-insert tag tag (to_le_bytes width value) m,
  length-to_le_bytes width value,
  from-to_le_bytes width value h,
)

end-IsSorted :
    (key : ℕ) (value : Bytes) (m rest : Fields)
    → IsSorted (m ++ (key, value) ∷ rest)
    → (insert key value m ≡ m ++ (key, value) ∷ []) × (lookup key m ≡ none)
unfolding insert lookup
end-IsSorted key value [] rest h = (refl, refl)
end-IsSorted key value ((k, v) ∷ m) rest h = ground (arith, Above-end k key value m rest h)

loop-next :
    (fuel tag : ℕ) (value rest : Bytes) (b : ℕ) (bs : Bytes) (done : Fields)
    → next_field (b ∷ bs) ≡ ok (tag, value, rest)
    → lookup tag done ≡ none
    → decode_loop (suc fuel) (b ∷ bs) done ≡ decode_loop fuel rest (insert tag value done)
unfolding decode_loop
loop-next fuel tag value rest b bs done e l = rw (decode_loop, e, l) refl

decode_loop-bytes :
    (fuel : ℕ) (m done : Fields)
    → length (fields_bytes m) ≤ fuel
    → All IsField m
    → IsSorted (done ++ m)
    → decode_loop fuel (fields_bytes m) done ≡ some (ok (done ++ m))
unfolding decode_loop
decode_loop-bytes fuel [] done le h s = ap (λ m. some (ok m)) (sym (append-nil done))
decode_loop-bytes zero ((tag, value) ∷ rest) done le h s = absurd (omega arith)
decode_loop-bytes (suc fuel) ((tag, value) ∷ rest) done le h s =
    let (put, fresh) = end-IsSorted tag value done rest s in
    let joined = append_assoc done ((tag, value) ∷ []) rest in
    loop-next fuel tag value (fields_bytes rest) _ _ done
      (next_field-bytes tag value (fields_bytes rest) h.0) fresh
    ∙ ap (decode_loop fuel (fields_bytes rest)) put
    ∙ decode_loop-bytes fuel rest (done ++ (tag, value) ∷ [])
        (omega (arith, length-append value (fields_bytes rest))) h.1 (subst IsSorted (sym joined) s)
    ∙ ap (λ fields. some (ok fields)) joined

pub decode_fields-bytes :
    (m : Fields) → All IsField m → IsSorted m → decode_fields (fields_bytes m) ≡ ok m
unfolding decode_fields
decode_fields-bytes m h s =
    ap loop_result (decode_loop-bytes (length (fields_bytes m)) m [] (omega arith) h s)

-- Fields in tag order that the wire can carry are encoded, and decode to themselves.
pub encode_fields-decode_fields :
    (m : Fields) → All IsField m → IsSorted m → and_then (encode_fields m) decode_fields ≡ ok m
encode_fields-decode_fields m h s = rw (encode_fields-ok m h) (decode_fields-bytes m h s)

-- A round leaves less input than it found.
abbrev IsShorter : ℕ → Result (ℕ × Bytes × Bytes) → Type 0
IsShorter n (ok (tag, value, rest)) = length rest ≤ n
IsShorter n (err e) = Unit {0}

and_then-IsShorter {ℓ} :
    {A : Type ℓ} (n : ℕ) (r : Result A) (f : A → Result (ℕ × Bytes × Bytes))
    → ((a : A) → IsShorter n (f a))
    → IsShorter n (and_then r f)
and_then-IsShorter n (ok a) f h = h a
and_then-IsShorter n (err e) f h = tt

if-IsShorter :
    (n : ℕ) (test : Bool) (x y : Result (ℕ × Bytes × Bytes))
    → IsShorter n x
    → IsShorter n y
    → IsShorter n (if test then x else y)
if-IsShorter n true x y h k = h
if-IsShorter n false x y h k = k

take_value-IsShorter :
    (tag len b : ℕ) (bs : Bytes) (o : Option Bytes)
    → IsShorter (length bs) (take_value tag len (b ∷ bs) o)
take_value-IsShorter tag len b bs none = tt
take_value-IsShorter tag len b bs (some value) = omega (arith, length-drop (6 + len) (b ∷ bs))

next_field-IsShorter : (b : ℕ) (bs : Bytes) → IsShorter (length bs) (next_field (b ∷ bs))
unfolding next_field
next_field-IsShorter b bs = if-IsShorter (length bs) (ltb (length (b ∷ bs)) 6) _ _ tt (
    and_then-IsShorter (length bs) (read_u16 (b ∷ bs) 0) _ (λ tag.
      if-IsShorter (length bs) (tag == 0) _ _ tt (
        and_then-IsShorter (length bs) (read_u32 (b ∷ bs) 2) _
          (λ len. take_value-IsShorter tag len b bs (get_slice (b ∷ bs) 6 len)))))

Result-cases {ℓ} :
    {A : Type ℓ} (r : Result A) → ((e : ProtocolError) × (r ≡ err e)) ⊎ ((a : A) × (r ≡ ok a))
Result-cases (ok a) = inr (a, refl)
Result-cases (err e) = inl (e, refl)

loop-agree :
    (m n : ℕ) (input : Bytes) (done : Fields)
    → length input ≤ m
    → length input ≤ n
    → decode_loop m input done ≡ decode_loop n input done
unfolding decode_loop
loop-agree m n [] done h k = refl
loop-agree zero n (b ∷ bs) done h k = absurd (omega arith)
loop-agree (suc m) zero (b ∷ bs) done h k = absurd (omega arith)
loop-agree (suc m) (suc n) (b ∷ bs) done h k = elim (Result-cases (next_field (b ∷ bs))) [
  | inl (e, failed) ↦ rw (decode_loop, failed) refl
  | inr ((tag, value, rest), found) ↦ elim (Option-cases (lookup tag done)) [
    | inl fresh ↦
        let shorter = subst (IsShorter (length bs)) found (next_field-IsShorter b bs) in
        loop-next m tag value rest b bs done found fresh
        ∙ loop-agree m n rest (insert tag value done) (omega (arith, shorter))
            (omega (arith, shorter))
        ∙ sym (loop-next n tag value rest b bs done found fresh)
    | inr (old, twice) ↦ rw (decode_loop, found, twice) refl
  ]
]

loop-ends :
    (fuel : ℕ) (input : Bytes) (done : Fields)
    → length input ≤ fuel
    → (result : Result Fields) × (decode_loop fuel input done ≡ some result)
unfolding decode_loop
loop-ends fuel [] done h = (ok done, refl)
loop-ends zero (b ∷ bs) done h = absurd (omega arith)
loop-ends (suc fuel) (b ∷ bs) done h = elim (Result-cases (next_field (b ∷ bs))) [
  | inl (e, failed) ↦ (err e, rw (decode_loop, failed) refl)
  | inr ((tag, value, rest), found) ↦ elim (Option-cases (lookup tag done)) [
    | inl fresh ↦
        let shorter = subst (IsShorter (length bs)) found (next_field-IsShorter b bs) in
        let (result, e) = loop-ends fuel rest (insert tag value done) (omega (arith, shorter)) in
        (result, loop-next fuel tag value rest b bs done found fresh ∙ e)
    | inr (old, twice) ↦ (err (duplicate_field tag), rw (decode_loop, found, twice) refl)
  ]
]

-- The loop of `decode` ends on every input, within as many rounds as the input has bytes, and with the
-- result that `decode_fields` has: running out of fuel, which the model tells from every result, never
-- happens.
pub decode_fields-enough :
    (fuel : ℕ) (input : Bytes)
    → length input ≤ fuel
    → decode_loop fuel input [] ≡ some (decode_fields input)
unfolding decode_fields
decode_fields-enough fuel input h =
    let (result, e) = loop-ends (length input) input [] (omega arith) in
    loop-agree fuel (length input) input [] h (omega arith)
    ∙ e
    ∙ ap (λ o. some (loop_result o)) (sym e)
