-- ===== src/Connector/Requests/Received.antt =====
-- include/tarantool_connector/tarantool_connector.hpp and detail/tntpp_iproto_framing.h: a request
-- of the connector, received by the framing at the other end.
use tntpp.Common.{ℕ, ◌^◌, ◌<◌, ◌≡◌, ap, ◌∙◌, List, ◌++◌, length}
use tntpp.Errc.{Result}
use tntpp.Transport.{Transport, IsStream}
use tntpp.Msgpack.{Msgpack, ReadsBack}
use tntpp.Framing.{Framing, IprotoFrame, receive_message}
use tntpp.Framing.Ready.{IsReady}
use tntpp.Framing.Transfer.{stream}
use tntpp.Framing.Says.{Says, receive_message-Says}
use tntpp.Request.Frame.{entries}
use tntpp.Iproto.Types.{RequestType}
use tntpp.Iproto.Header.{pack_header}
use tntpp.Connector.Requests.{request_header}
use tntpp.Connector.Requests.Bytes.{
  body, Command, command_type, command_data, command_entries, command_data-IsRequest,
}

module _ (t : Transport) (laws : IsStream t) (c : Msgpack) where
  -- The map behind the header of a request.
  abbrev pub map_of : List (List ℕ × List ℕ) → List ℕ
  map_of es = c.pack_map (length es) ++ entries es

  -- `receive_message` completes with the request's header and map and leaves what follows it, or a
  -- read failed although the bytes that it asked for were still to come.
  abbrev pub Delivers :
      ℕ → RequestType → List (List ℕ × List ℕ) → List ℕ → Result IprotoFrame × Framing t → Type 0
  Delivers id rt es rest x = Says t laws c (request_header id rt) (map_of es) rest x

  -- If the data of a command of the connector arrive at a framing, however the network cuts them
  -- up, `receive_message` completes with the header of the command's type and id, and as body the
  -- map of its entries, and leaves what follows; or a read failed although the bytes that it
  -- asked for were still to come. No assertion fails, for a request
  -- of less than 2^32 bytes with a packed map that is not empty.
  pub command_data-Delivers :
      (codec : ReadsBack c) (fr : Framing t) (op : Command) (id : ℕ) (rest : List ℕ)
      → IsReady fr.buffer
      → stream t laws fr ≡ command_data c op id ++ rest
      → id < 2 ^ 64
      → length (body c id (command_type op) (command_entries c op)) < 2 ^ 32
      → 0 < length (map_of (command_entries c op))
      → Delivers id (command_type op) (command_entries c op) rest (receive_message t c fr)
  command_data-Delivers codec fr op id rest d e fits lt more =
      let (q, o, u, k) = command_data-IsRequest c codec op id fits lt in
      receive_message-Says t laws c fr (pack_header c (request_header id (command_type op)))
        (map_of (command_entries c op)) rest o (request_header id (command_type op)) d
        (e ∙ ap (λ bs. bs ++ rest) q) u k lt more
