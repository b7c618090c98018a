-- ===== src/Connector/Establish/Tests.antt =====
-- Connecting on small histories.
use tntpp.Common.{
  ℕ, ◌+◌, ◌≡◌, ◌≢◌, refl, none, some, List, [], ◌∷◌, ◌++◌, arith, replicate, drop, false,
}
use tntpp.Errc.{ok, tarantool}
use tntpp.Buffer.{default_frozen}
use tntpp.Framing
use tntpp.Framing.{IprotoFrame}
use tntpp.Iproto.Errors.Cast.{int_to_tarantool_error}
use tntpp.Queue.{new_queue}
use tntpp.Connection.{Connection, new_connection}
use tntpp.Config.{Credentials, Config, default_config}
use tntpp.Framing.{new_framing}
use tntpp.Framing.Bytes.{AreBytes}
use tntpp.Connection.Connect.{new_link, connect}
use tntpp.Connection.Connect.Line.{Line, wire, wire-IsStream, dial, dial-IsNetwork}
use tntpp.Connector.Establish.Open.{Opens, open_connector, open_connector-Opens}
use tntpp.Msgpack.Small.{small, small-ReadsBack}
use tntpp.Crypto.{count_padding, replace_padding, xor_bytes}
use tntpp.Crypto.Small.{small_sha1, small_sha1-IsSha1, plain}
use tntpp.Logger.{info, debug, is_handled}
use tntpp.Response.{get_error_string}
use tntpp.Iproto.Types.{int_to_field_type, is_error_req_type, request_number, field_number}
use tntpp.Iproto.Header.{is_error, pack_header, set_request_type, default_header}
use tntpp.Connector.{destroy}
use tntpp.Connector.Asks.{answers}
use tntpp.Connector.Establish.{establish, refuses}
use tntpp.Connector.Establish.Verdict.{answered, establish-answered}

abbrev conn : Connection ℕ
unfolding new_connection new_queue
conn = new_connection 32

abbrev response : ℕ → ℕ → IprotoFrame
unfolding default_frozen
response n id = record {
  header = record { request_type = n; sync = id; schema_version = 3; stream_id = none };
  body = default_frozen;
}

-- The body {7: 1, Error_24: 65}.
abbrev told : IprotoFrame → List ℕ
told f = 0x82 ∷ 7 ∷ 1 ∷ 0x31 ∷ 65 ∷ []

four_ne_zero : ◌≢◌ {A = ℕ} 4 0
four_ne_zero e = absurd (omega arith)

-- A response to another request, and then error 47, that the credentials do not match, with a text
-- that is logged.
establish-answered_example :
    establish small
      (some info)
      told
      conn
      (ok tt)
      (some (λ id. id + 100))
      9
      (answers (response 0 4) ∷ answers (response 0x802f 0) ∷ [])
    ≡ refuses
        (tarantool (int_to_tarantool_error 47))
        (some (destroy (answered conn 100 9 (response 0x802f 0))))
unfolding conn response is_error is_error_req_type is_handled get_error_string int_to_field_type
    request_number
establish-answered_example =
    establish-answered small (some info) told conn (λ id. id + 100) 9 (response 0 4 ∷ [])
      (response 0x802f 0) (four_ne_zero, tt) refl

abbrev guest : Credentials
guest = record { username = 103 ∷ []; password = 112 ∷ 119 ∷ [] }

-- A server with a salt of 63 bytes and a newline.
abbrev greeting : List ℕ
greeting = replicate 63 86 ++ 10 ∷ (replicate 63 7 ++ 10 ∷ [])

greeting-AreBytes : AreBytes greeting
greeting-AreBytes = ground arith

abbrev server : Line
server = record { is_open = false; bytes = greeting; are_bytes = greeting-AreBytes }

abbrev config : Config
unfolding default_config
config = record default_config { credentials = some guest; logger = some 1 }

open_connector-Opens_example :
    Opens wire wire-IsStream dial dial-IsNetwork small_sha1 plain small_sha1-IsSha1 small
      small-ReadsBack
      (λ l. debug)
      told
      config
      guest
      (drop 64 greeting)
      9
      (response 0x802f 0)
      (open_connector wire dial small_sha1 plain small
        (λ l. debug)
        told
        config
        server
        (ok (5 ∷ 0 ∷ []))
        9
        (answers (response 0 4) ∷ answers (response 0x802f 0) ∷ []))
unfolding config count_padding replace_padding xor_bytes pack_header set_request_type default_header
    request_number field_number connect new_link new_framing Framing.clear response
open_connector-Opens_example =
    open_connector-Opens wire wire-IsStream dial dial-IsNetwork small_sha1 plain small_sha1-IsSha1
      small small-ReadsBack (λ l. debug) told config guest server 5 (0 ∷ []) (drop 64 greeting) [] 9
      (response 0 4 ∷ []) (response 0x802f 0) (omega arith) (omega arith) refl (omega arith) refl
      refl refl refl (omega arith) (omega arith) (four_ne_zero, tt) refl
