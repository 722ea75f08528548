-- ===== src/VirtualSerial/Tests.antt =====
-- Instances of the theorems on the frames of protocol.rs.
use cathub.Prelude.{some, ℕ, ◌≡◌, [], ◌∷◌, ◌++◌, arith, take, All}
use cathub.Prelude.Map.{IsSorted}
use cathub.VirtualSerial.Wire.{ok}
use cathub.VirtualSerial.Version.{
  ProtocolVersion, negotiate, IsAgreed, negotiate-IsAgreed, hello, data_bytes,
}
use cathub.VirtualSerial.Fields.{Fields, decode_fields, decode_loop}
use cathub.VirtualSerial.Payloads.{IsField, decode_fields-enough}
use cathub.VirtualSerial.Frame.{Frame, encode, decode, IsFrame, wire, encode-decode}
use cathub.VirtualSerial.Streams.{poll, wire_all, poll-wire_all}

abbrev data_fields : Fields
data_fields = (1, 7 ∷ 0 ∷ []) ∷ (2, b'C' ∷ b'Q' ∷ []) ∷ []

abbrev data_frame : Frame
data_frame = record {
  version = record { major = 1; minor = 0 };
  kind = data_bytes;
  flags = 4;
  endpoint_id = 9;
  request_id = 300;
  fields = data_fields;
}

abbrev hello_frame : Frame
hello_frame = record {
  version = record { major = 1; minor = 0 };
  kind = hello;
  flags = 0;
  endpoint_id = 0;
  request_id = 1;
  fields = [];
}

data_fields-IsField : All IsField data_fields
data_fields-IsField = omega arith

data_fields-IsSorted : IsSorted data_fields
data_fields-IsSorted = (omega arith, tt)

data_frame-IsFrame : IsFrame data_frame
data_frame-IsFrame = record {
  version_fits = omega arith;
  flags_fit = omega arith;
  ids_fit = omega arith;
  fields_fit = data_fields-IsField;
  sorted = data_fields-IsSorted;
  short = omega arith;
}

hello_frame-IsFrame : IsFrame hello_frame
hello_frame-IsFrame = record {
  version_fits = omega arith;
  flags_fit = omega arith;
  ids_fit = omega arith;
  fields_fit = tt;
  sorted = tt;
  short = omega arith;
}

abbrev version : ℕ → ProtocolVersion
version minor = record { major = 1; minor = minor }

negotiate-IsAgreed_example :
    IsAgreed
      (negotiate (version 0) (version 3) (version 1) (version 2))
      (version 0)
      (version 3)
      (version 1)
      (version 2)
negotiate-IsAgreed_example = negotiate-IsAgreed (version 0) (version 3) (version 1) (version 2)

decode_fields-enough_example :
    decode_loop 20 (3 ∷ 0 ∷ 1 ∷ 0 ∷ 0 ∷ 0 ∷ 8 ∷ []) []
    ≡ some (decode_fields (3 ∷ 0 ∷ 1 ∷ 0 ∷ 0 ∷ 0 ∷ 8 ∷ []))
decode_fields-enough_example =
    decode_fields-enough 20 (3 ∷ 0 ∷ 1 ∷ 0 ∷ 0 ∷ 0 ∷ 8 ∷ []) (omega arith)

encode-decode_example :
    (encode data_frame ≡ ok (wire data_frame)) × (decode (wire data_frame) ≡ ok data_frame)
encode-decode_example = encode-decode data_frame data_frame-IsFrame

poll-wire_all_example :
    poll 3 (wire_all (hello_frame ∷ data_frame ∷ []) ++ take 10 (wire data_frame))
    ≡ (take 10 (wire data_frame), hello_frame ∷ data_frame ∷ [])
poll-wire_all_example =
    poll-wire_all (hello_frame ∷ data_frame ∷ []) data_frame 10
      (hello_frame-IsFrame, (data_frame-IsFrame, tt)) data_frame-IsFrame (omega arith)
