-- ===== src/Response/Tests.antt =====
-- Responses on small inputs.
use tntpp.Common.{ℕ, List, ◌++◌, ◌+◌, ◌≡◌, refl, none, some, [], ◌∷◌, arith}
use tntpp.Errc.{tarantool}
use tntpp.Msgpack.Small.{num, table, small, num_of}
use tntpp.Iproto.Types.{is_error_req_type, request_number, int_to_field_type, field_number}
use tntpp.Iproto.Errors.Code.{error_code, no_such_user}
use tntpp.Iproto.Header.{
  MessageHeader, is_error, convert, convert_fields, convert_field, default_header,
}
use tntpp.Response.{throws_system, get_error_string, as_value, as_value_ec}
use tntpp.Transport.Tape.{tape, tape-IsStream}
use tntpp.Buffer.{MutableBuffer, new_buffer, new_shared}
use tntpp.Buffer.Transfer.{new_buffer-IsValid}
use tntpp.Request.Frame.{frame}
use tntpp.Framing.{Framing, receive_message}
use tntpp.Framing.Ready.{IsReady}
use tntpp.Response.Received.{Returns, receive_message-Returns}
use tntpp.Response.Entries.{get_error_string_lem, as_value_ec-error}

abbrev answer : MessageHeader
answer = record { request_type = 0; sync = 1; schema_version = 3; stream_id = none }

abbrev refusal : MessageHeader
refusal = record answer { request_type = 0x8001 }

get_error_string_lem_example :
    get_error_string small refusal (0x82 ∷ 7 ∷ 1 ∷ 0x31 ∷ 65 ∷ []) ≡ some (65 ∷ [])
unfolding is_error is_error_req_type request_number
get_error_string_lem_example =
    get_error_string_lem small refusal (0x82 ∷ 7 ∷ 1 ∷ 0x31 ∷ 65 ∷ [])
      (table ((7, 1) ∷ (0x31, 65) ∷ [])) (num 0x31) (num 65) 5 ((num 7, num 1) ∷ []) [] refl refl
      refl ((7, refl, λ e. omega arith), tt) refl

abbrev four : MutableBuffer
unfolding new_buffer new_shared
four = new_buffer 4

four-IsReady : IsReady four
unfolding four
four-IsReady = record {
  valid = new_buffer-IsValid 4 (omega arith);
  positive = omega arith;
  default_le = omega arith;
  size_le = omega arith;
}

-- The header {request type: 0, sync: 5} and the body {7: 1, data: 9}.
abbrev top : List ℕ
top = 0x82 ∷ 0 ∷ 0 ∷ 1 ∷ 5 ∷ []

abbrev value : List ℕ
value = 0x82 ∷ 7 ∷ 1 ∷ 0x30 ∷ 9 ∷ []

abbrev wire : Framing tape
wire = record { next_layer = frame (top ++ value) ++ 3 ∷ []; buffer = four }

receive_message-Returns_example :
    Returns tape tape-IsStream small num_of none
      (some (none, some 9))
      (3 ∷ [])
      (receive_message tape small wire)
unfolding four is_error is_error_req_type request_number convert convert_fields convert_field
    default_header int_to_field_type field_number
receive_message-Returns_example =
    receive_message-Returns tape tape-IsStream small num_of wire none
      (record { request_type = 0; sync = 5; schema_version = 0; stream_id = none }) top value
      (3 ∷ []) (table ((0, 0) ∷ (1, 5) ∷ [])) (table ((7, 1) ∷ (0x30, 9) ∷ [])) (num 0x30) (num 9) 5
      ((num 7, num 1) ∷ []) [] four-IsReady refl (omega arith) refl refl refl (omega arith) refl
      refl ((7, refl, λ e. omega arith), tt) refl

as_value_ec-error_example :
    (as_value_ec small num_of none
        (record answer { request_type = 0x8000 + error_code no_such_user })
        (1 ∷ [])
      ≡ some (some (tarantool no_such_user), none))
    × (as_value small num_of
          (record answer { request_type = 0x8000 + error_code no_such_user })
          (1 ∷ [])
        ≡ throws_system (some (tarantool no_such_user)))
as_value_ec-error_example = as_value_ec-error small num_of none answer no_such_user (1 ∷ [])
