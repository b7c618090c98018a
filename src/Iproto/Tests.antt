-- ===== src/Iproto/Tests.antt =====
-- Headers, errors and fields on small inputs.
use tntpp.Common.{◌≡◌, ◌≢◌, ◌↔◌, ◌⊎◌, some, [], ◌∷◌, ◌++◌, arith, length, leb, if◌then◌else◌}
use tntpp.Msgpack.Small.{small, Small, small-ReadsBack}
use tntpp.Iproto.Errors.Code.{error_code, no_such_space}
use tntpp.Iproto.Errors.Cast.{int_to_tarantool_error, int_to_tarantool_error_lem}
use tntpp.Iproto.Errors.Message.{message, message-ne-unknown}
use tntpp.Iproto.Types.{
  select, unknown, request_number, int_to_req_type, int_to_req_type_lem, limit, field_number,
  int_to_field_type, int_to_field_type_iff,
}
use tntpp.Iproto.Header.{MessageHeader, convert, pack_header}
use tntpp.Iproto.RoundTrip.{convert-pack_header}

abbrev in_stream : MessageHeader
in_stream = record { request_type = 1; sync = 42; schema_version = 80; stream_id = some 7 }

convert-pack_header_example :
    (o : Small) × (small.unpack (pack_header small in_stream ++ 0x90 ∷ [])
      ≡ some (o, length (pack_header small in_stream)))
    × (convert small o ≡ some (record in_stream { schema_version = 0 }))
convert-pack_header_example =
    convert-pack_header small small-ReadsBack in_stream (0x90 ∷ []) (omega arith)

int_to_tarantool_error_lem_example :
    (int_to_tarantool_error (error_code no_such_space) ≡ no_such_space)
    × (error_code (int_to_tarantool_error 300) ≡ (if leb 300 280 then 300 else 0))
int_to_tarantool_error_lem_example = int_to_tarantool_error_lem no_such_space 300

message-ne-unknown_example : message 36 ≢ "Unknown"
message-ne-unknown_example = message-ne-unknown 36 (omega arith) (omega arith)

int_to_field_type_iff_example : (int_to_field_type 0x12 ≡ some limit) ↔ (0x12 ≡ field_number limit)
int_to_field_type_iff_example = int_to_field_type_iff 0x12 limit

int_to_req_type_lem_example :
    (int_to_req_type (request_number select) ≡ select)
    × ((request_number (int_to_req_type 6) ≡ 6) ⊎ (int_to_req_type 6 ≡ unknown))
int_to_req_type_lem_example = int_to_req_type_lem select 6
