-- ===== src/VirtualSerial/Frame.antt =====
-- Frames of protocol.rs and their wire form: a header of 40 bytes, then the fields.
use cathub.Prelude.{
  ℕ, ◌+◌, ◌-◌, ◌*◌, ◌≤◌, ◌<◌, ◌≡◌, refl, ◌∙◌, Bool, true, false, not, [], ◌∷◌, ◌++◌, Option, none,
  some, arith, ◌==◌, ltb, if◌then◌else◌, length, drop, Bytes, ◌^◌, All, equal,
}
use cathub.Prelude.Map.{IsSorted}
use cathub.VirtualSerial.Wire.{
  incomplete, bad_magic, unsupported_header, frame_too_large, trailing_bytes, Result, ok, err,
  and_then, to_le_bytes, from_le_bytes, get_slice, read_u16, read_u32, read_u64, from-to_le_bytes,
}
use cathub.VirtualSerial.Version.{ProtocolVersion, MessageKind, code, try_from, try_from-code}
use cathub.VirtualSerial.Fields.{Fields, encode_fields, decode_fields, u32_max}
use cathub.VirtualSerial.Payloads.{IsField, fields_bytes, encode_fields-ok, decode_fields-bytes}

abbrev pub magic : Bytes
magic = b'C' ∷ b'H' ∷ b'V' ∷ b'S' ∷ []

abbrev pub header_len : ℕ
header_len = 40

abbrev pub absolute_max_frame_len : ℕ
absolute_max_frame_len = 1024 * 1024

abbrev pub current_version : ProtocolVersion
current_version = record { major = 1; minor = 0 }

pub record Frame : Type 0 where
  pub version : ProtocolVersion
  pub kind : MessageKind
  pub flags : ℕ
  pub endpoint_id : ℕ
  pub request_id : ℕ
  pub fields : Fields

unfoldable pub new_frame : MessageKind → ℕ → ℕ → Frame
new_frame kind endpoint_id request_id = record {
  version = current_version;
  kind = kind;
  flags = 0;
  endpoint_id = endpoint_id;
  request_id = request_id;
  fields = [];
}

abbrev pub header : Frame → ℕ → Bytes
header f payload_len =
    magic
    ++ to_le_bytes 2 header_len
    ++ to_le_bytes 2 (code f.kind)
    ++ to_le_bytes 2 f.version.major
    ++ to_le_bytes 2 f.version.minor
    ++ to_le_bytes 4 f.flags
    ++ to_le_bytes 4 payload_len
    ++ to_le_bytes 8 f.endpoint_id
    ++ to_le_bytes 8 f.request_id
    ++ to_le_bytes 4 0

unfoldable pub encode : Frame → Result Bytes
encode f = and_then (encode_fields f.fields) (λ payload.
    if ltb absolute_max_frame_len (header_len + length payload)
    then err (frame_too_large (header_len + length payload))
    else if ltb u32_max (length payload)
    then err (frame_too_large (length payload))
    else ok (header f (length payload) ++ payload))

-- `input.get(0..4) != Some(MAGIC)`.
abbrev pub has_magic : Option Bytes → Bool
has_magic none = false
has_magic (some bytes) = equal bytes magic

-- The rest of `decode` once the fields before the length are read: its checks of the length.
unfoldable pub decode_payload : Bytes → MessageKind → ProtocolVersion → ℕ → ℕ → Result Frame
decode_payload input kind version flags payload_len =
    let total = header_len + payload_len in
    if ltb absolute_max_frame_len total
    then err (frame_too_large total)
    else if ltb (length input) total
    then err (incomplete total (length input))
    else if not (length input == total)
    then err (trailing_bytes (length input - total))
    else and_then (read_u64 input 20) (λ endpoint_id. and_then (read_u64 input 28) (λ request_id.
      and_then (decode_fields (drop header_len input)) (λ fields. ok (record {
        version = version;
        kind = kind;
        flags = flags;
        endpoint_id = endpoint_id;
        request_id = request_id;
        fields = fields;
      }))))

unfoldable pub decode : Bytes → Result Frame
unfolding decode_payload
decode input =
    if ltb (length input) header_len
    then err (incomplete header_len (length input))
    else if not (has_magic (get_slice input 0 4))
    then err bad_magic
    else and_then (read_u16 input 4) (λ len.
      if not (len == header_len)
      then err (unsupported_header len)
      else and_then (read_u16 input 6) (λ number. and_then (try_from number) (λ kind.
        and_then (read_u16 input 8) (λ major. and_then (read_u16 input 10) (λ minor.
          and_then (read_u32 input 12) (λ flags. and_then (read_u32 input 16) (λ payload_len.
            decode_payload input kind (record { major = major; minor = minor }) flags
              payload_len)))))))

-- A frame whose numbers have the width of their fields, and whose wire form has the length that the
-- protocol allows.
pub record IsFrame (f : Frame) : Type 0 where
  pub version_fits : (f.version.major < 2 ^ 16) × (f.version.minor < 2 ^ 16)
  pub flags_fit : f.flags < 2 ^ 32
  pub ids_fit : (f.endpoint_id < 2 ^ 64) × (f.request_id < 2 ^ 64)
  pub fields_fit : All IsField f.fields
  pub sorted : IsSorted f.fields
  pub short : header_len + length (fields_bytes f.fields) ≤ absolute_max_frame_len

abbrev pub wire : Frame → Bytes
wire f = header f (length (fields_bytes f.fields)) ++ fields_bytes f.fields

pub encode-wire : (f : Frame) → IsFrame f → encode f ≡ ok (wire f)
unfolding encode
encode-wire f v = rw (encode_fields-ok f.fields v.fields_fit) (ground (arith, v.short))

code-fits : (kind : MessageKind) → try_from (code kind) ≡ ok kind → code kind < 256 * 256
unfolding try_from
code-fits kind e = ground arith

pub if_false {ℓ} : {A : Type ℓ} (test : Bool) (x y : A) → test ≡ false → (if test then x else y) ≡ y
if_false test x y e = rw e refl

pub if_true {ℓ} : {A : Type ℓ} (test : Bool) (x y : A) → test ≡ true → (if test then x else y) ≡ x
if_true test x y e = rw e refl

-- What `decode` does with a header of the right magic and length.
decode-header :
    (k0 k1 a0 a1 i0 i1 f0 f1 f2 f3 p0 p1 p2 p3 : ℕ) (tail : Bytes)
    → 20 ≤ length tail
    → let input =
        67 ∷ 72 ∷ 86 ∷ 83 ∷ 40 ∷ 0 ∷ k0 ∷ k1 ∷ a0 ∷ a1 ∷ i0 ∷ i1 ∷ f0 ∷ f1 ∷ f2 ∷ f3 ∷ p0 ∷ p1 ∷ p2
        ∷ p3 ∷ tail in
      decode input
      ≡ and_then (try_from (from_le_bytes (k0 ∷ k1 ∷ []))) (λ kind.
        decode_payload input kind
          (record { major = from_le_bytes (a0 ∷ a1 ∷ []); minor = from_le_bytes (i0 ∷ i1 ∷ []) })
          (from_le_bytes (f0 ∷ f1 ∷ f2 ∷ f3 ∷ []))
          (from_le_bytes (p0 ∷ p1 ∷ p2 ∷ p3 ∷ [])))
unfolding decode
decode-header k0 k1 a0 a1 i0 i1 f0 f1 f2 f3 p0 p1 p2 p3 tail h =
    let input =
      67 ∷ 72 ∷ 86 ∷ 83 ∷ 40 ∷ 0 ∷ k0 ∷ k1 ∷ a0 ∷ a1 ∷ i0 ∷ i1 ∷ f0 ∷ f1 ∷ f2 ∷ f3 ∷ p0 ∷ p1 ∷ p2
      ∷ p3 ∷ tail in
    if_false (ltb (length input) header_len) _ _ (ground (arith, h))

module _ (f : Frame) (v : IsFrame f) where
  fields-wire :
      (endpoint_id request_id : ℕ)
      → endpoint_id ≡ f.endpoint_id
      → request_id ≡ f.request_id
      → and_then (decode_fields (fields_bytes f.fields)) (λ fields. ok (record {
        version = f.version;
        kind = f.kind;
        flags = f.flags;
        endpoint_id = endpoint_id;
        request_id = request_id;
        fields = fields;
      }))
        ≡ ok f
  fields-wire endpoint_id request_id e r =
      rw (decode_fields-bytes f.fields v.fields_fit v.sorted, e, r) refl

  payload-wire :
      decode_payload (wire f) f.kind f.version f.flags (length (fields_bytes f.fields)) ≡ ok f
  unfolding decode_payload
  payload-wire =
      if_false (ltb absolute_max_frame_len (header_len + length (fields_bytes f.fields))) _ _
        (ground (arith, v.short))
      ∙ if_false (ltb (length (wire f)) (header_len + length (fields_bytes f.fields))) _ _
          (ground arith)
      ∙ if_false (not (length (wire f) == header_len + length (fields_bytes f.fields))) _ _
          (ground arith)
      ∙ fields-wire _ _ (from-to_le_bytes 8 f.endpoint_id v.ids_fit.0)
          (from-to_le_bytes 8 f.request_id v.ids_fit.1)

  header-wire :
      (number major minor flags len : ℕ)
      → number ≡ code f.kind
      → major ≡ f.version.major
      → minor ≡ f.version.minor
      → flags ≡ f.flags
      → len ≡ length (fields_bytes f.fields)
      → and_then
          (try_from number)
          (λ kind. decode_payload (wire f) kind (record { major = major; minor = minor }) flags len)
        ≡ ok f
  header-wire number major minor flags len n a i l p =
      rw (n, a, i, l, p, try_from-code f.kind) payload-wire

  pub decode-wire : decode (wire f) ≡ ok f
  decode-wire =
      decode-header _ _ _ _ _ _ _ _ _ _ _ _ _ _ _ (omega arith)
      ∙ header-wire _ _ _ _ _
          (from-to_le_bytes 2 (code f.kind) (code-fits f.kind (try_from-code f.kind)))
          (from-to_le_bytes 2 f.version.major v.version_fits.0)
          (from-to_le_bytes 2 f.version.minor v.version_fits.1)
          (from-to_le_bytes 4 f.flags v.flags_fit)
          (from-to_le_bytes 4 (length (fields_bytes f.fields)) (omega (arith, v.short)))

-- A frame whose numbers have the width of their fields and whose wire form is not too long is
-- encoded, and decodes to itself.
pub encode-decode : (f : Frame) → IsFrame f → (encode f ≡ ok (wire f)) × (decode (wire f) ≡ ok f)
encode-decode f v = (encode-wire f v, decode-wire f v)
