-- ===== src/Iproto/Header.antt =====
-- include/tarantool_connector/detail/iproto_typedefs.h: `MessageHeader`, its errors, and its
-- msgpack adaptors `convert` and `pack`.
use tntpp.Common.{ℕ, ◌-◌, Bool, Option, none, some, List, [], ◌∷◌, ◌++◌, if◌then◌else◌, ◌>>=◌}
use tntpp.Errc.{ErrorCode, tarantool}
use tntpp.Msgpack.{Msgpack}
use tntpp.Iproto.Types.{
  RequestType, unknown, request_number, is_error_req_type, FieldType, type_error_begin,
  field_number, int_to_field_type,
}
use tntpp.Iproto.Errors.Cast.{int_to_tarantool_error}

pub record MessageHeader : Type 0 where
  pub request_type : ℕ
  pub sync : ℕ
  pub schema_version : ℕ
  pub stream_id : Option ℕ

unfoldable pub default_header : MessageHeader
unfolding request_number
default_header = record {
  request_type = request_number unknown;
  sync = 0;
  schema_version = 0;
  stream_id = none;
}

unfoldable pub set_request_type : MessageHeader → RequestType → MessageHeader
set_request_type h t = record h { request_type = request_number t }

unfoldable pub is_error : MessageHeader → Bool
is_error h = is_error_req_type h.request_type

-- `none` is the empty error code. The subtraction does not wrap: it follows the test.
unfoldable pub get_error_code : MessageHeader → Option ErrorCode
unfolding is_error request_number
get_error_code h =
    if is_error h
    then some
        (tarantool (int_to_tarantool_error (h.request_type - request_number type_error_begin)))
    else none

module _ (c : Msgpack) where
  open c use {Object, pack_uint, pack_map, as_map, as_uint, to_uint}

  -- One field of the map; `none` is a thrown `type_error`. (The case of the stream id falls through
  -- to the default case, which does nothing.)
  unfoldable pub convert_field : MessageHeader → FieldType → Object → Option MessageHeader
  convert_field v FieldType.request_type o = to_uint o >>= λ n. some (record v { request_type = n })
  convert_field v FieldType.sync o = to_uint o >>= λ n. some (record v { sync = n })
  convert_field v FieldType.schema_version o =
      to_uint o >>= λ n. some (record v { schema_version = n })
  convert_field v FieldType.stream_id o = to_uint o >>= λ n. some (record v { stream_id = some n })
  convert_field v _ o = some v

  unfoldable pub convert_fields : MessageHeader → List (Object × Object) → Option MessageHeader
  convert_fields v [] = some v
  convert_fields v ((k, o) ∷ kvs) = do
    n ← as_uint k
    f ← int_to_field_type n
    v' ← convert_field v f o
    convert_fields v' kvs

  -- `object->convert()` to a new header.
  unfoldable pub convert : Object → Option MessageHeader
  unfolding convert_fields default_header
  convert o = do kvs ← as_map o; convert_fields default_header kvs

  -- What `pack` appends to the stream.
  unfoldable pub pack_header : MessageHeader → List ℕ
  pack_header v = elim v.stream_id [
    | none ↦
        pack_map 2
        ++ (pack_uint (field_number FieldType.sync)
            ++ (pack_uint v.sync
                ++ (pack_uint (field_number FieldType.request_type) ++ pack_uint v.request_type)))
    | some s ↦
        pack_map 3
        ++ (pack_uint (field_number FieldType.sync)
            ++ (pack_uint v.sync
                ++ (pack_uint (field_number FieldType.request_type)
                    ++ (pack_uint v.request_type
                        ++ (pack_uint (field_number FieldType.stream_id) ++ pack_uint s)))))
  ]
