-- ===== src/Connector/Requests.antt =====
-- include/tarantool_connector/tarantool_connector.hpp: the requests that a connector makes itself.
-- The data of a request is the list of its bytes. An argument of a type of the caller's comes as
-- the bytes that msgpack appends for it.
pub mod Bytes
pub mod Received
pub mod Pipeline
mod Tests
use tntpp.Common.{ℕ, List}
use tntpp.Msgpack.{Msgpack}
use tntpp.Request.{RequestPacker, new_packer, pack, pack_map_entry, finalize}
use tntpp.Iproto.Types.{
  RequestType, FieldType, field_number, ping, auth, function_name, tuple, username, expr,
}
use tntpp.Iproto.Types
use tntpp.Iproto.Header.{MessageHeader, default_header, set_request_type, pack_header}
use tntpp.Connector.{Internal, generate_id, send_request}

-- The header of a request with an id.
abbrev pub request_header : ℕ → RequestType → MessageHeader
request_header id t = set_request_type (record default_header { sync = id }) t

module _ (c : Msgpack) where
  open c use {pack_uint, pack_map, pack_string}

  -- A new packer with the header.
  abbrev pub start_request : ℕ → RequestType → RequestPacker
  start_request id t = pack new_packer (pack_header c (request_header id t))

  abbrev pub pack_field : RequestPacker → FieldType → List ℕ → RequestPacker
  pack_field p f value = pack_map_entry p (pack_uint (field_number f)) value

  -- `PingRequest` is packed as an empty map.
  unfoldable pub ping_data : ℕ → List ℕ
  ping_data id = (finalize (pack (start_request id ping) (pack_map 0))).stream

  unfoldable pub call_data : ℕ → List ℕ → List ℕ → List ℕ
  call_data id function args =
      let p = pack (start_request id Types.call) (pack_map 2) in
      let p1 = pack_field p function_name (pack_string function) in
      (finalize (pack_field p1 tuple args)).stream

  unfoldable pub eval_data : ℕ → List ℕ → List ℕ → List ℕ
  eval_data id expression args =
      let p = pack (start_request id Types.eval) (pack_map 2) in
      let p1 = pack_field p expr (pack_string expression) in
      (finalize (pack_field p1 tuple args)).stream

  -- The request of `async_auth`; `scramble` is the pair of the method and the scrambled password.
  unfoldable pub auth_data : ℕ → List ℕ → List ℕ → List ℕ
  auth_data id user scramble =
      let p = pack (start_request id auth) (pack_map 2) in
      let p1 = pack_field p username (pack_string user) in
      (finalize (pack_field p1 tuple scramble)).stream

  -- The operations: an id, the bytes, and the request; `h` is the caller's handler.
  unfoldable pub send_ping : Internal (List ℕ) → ℕ → Internal (List ℕ)
  unfolding ping_data
  send_ping s h = let (id, s') = generate_id s in send_request s' id (ping_data id) h

  unfoldable pub send_call : Internal (List ℕ) → List ℕ → List ℕ → ℕ → Internal (List ℕ)
  unfolding call_data
  send_call s function args h =
      let (id, s') = generate_id s in send_request s' id (call_data id function args) h

  unfoldable pub send_eval : Internal (List ℕ) → List ℕ → List ℕ → ℕ → Internal (List ℕ)
  unfolding eval_data
  send_eval s expression args h =
      let (id, s') = generate_id s in send_request s' id (eval_data id expression args) h
