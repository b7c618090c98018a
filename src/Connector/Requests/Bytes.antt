-- ===== src/Connector/Requests/Bytes.antt =====
-- include/tarantool_connector/tarantool_connector.hpp: the bytes of the requests.
use tntpp.Common.{
  ℕ, ◌^◌, ◌<◌, ◌≡◌, ◌∙◌, List, [], ◌∷◌, ◌++◌, arith, append-nil, append_assoc, length, some,
}
use tntpp.Msgpack.{Msgpack, ReadsBack}
use tntpp.Request.{RequestPacker, new_packer, pack, pack_map_entry, finalize}
use tntpp.Request.Frame.{
  frame, entries, Holds, pack_entries, new_packer-Holds, pack-Holds, pack_map_entry-Holds,
  finalize-frame,
}
use tntpp.Iproto.Types.{
  RequestType, FieldType, field_number, request_number, ping, auth, function_name, tuple, username,
  expr,
}
use tntpp.Iproto.Types
use tntpp.Iproto.Header.{default_header, set_request_type, pack_header, convert}
use tntpp.Iproto.RoundTrip.{convert-pack_header}
use tntpp.Connector.Requests.{
  request_header, start_request, ping_data, call_data, eval_data, auth_data,
}

-- More entries stand behind the body that a packer holds.
pub pack_entries-Holds :
    (p : RequestPacker) (b : List ℕ) (es : List (List ℕ × List ℕ))
    → Holds p b
    → Holds (pack_entries p es) (b ++ entries es)
unfolding pack_entries
pack_entries-Holds p b [] h = rw append-nil h
pack_entries-Holds p b ((k, v) ∷ es) h =
    pack_entries-Holds (pack_map_entry p k v) ((b ++ k) ++ v) es (pack_map_entry-Holds p b k v h)
    ∙ simp append_assoc

request_number_lt : (t : RequestType) → request_number t < 2 ^ 64
unfolding request_number
request_number_lt Types.ok = omega arith
request_number_lt _ = omega arith

-- The commands of a connector that send a request, with what the caller gives.
pub data Command : Type 0 where
  pings : Command
  calls evals authenticates : List ℕ → List ℕ → Command

abbrev pub command_type : Command → RequestType
command_type pings = ping
command_type (calls function args) = Types.call
command_type (evals expression args) = Types.eval
command_type (authenticates user scramble) = auth

module _ (c : Msgpack) where
  open c use {pack_uint, pack_map, pack_string, unpack, Object}

  -- An entry of a request's map.
  abbrev pub field : FieldType → List ℕ → List ℕ × List ℕ
  field f value = (pack_uint (field_number f), value)

  -- A string under a field, and then a value under the tuple.
  abbrev pub two_entries : FieldType → List ℕ → List ℕ → List (List ℕ × List ℕ)
  two_entries f name value = field f (pack_string name) ∷ field tuple value ∷ []

  -- A command's data, type and entries.
  abbrev pub command_data : Command → ℕ → List ℕ
  command_data pings id = ping_data c id
  command_data (calls function args) id = call_data c id function args
  command_data (evals expression args) id = eval_data c id expression args
  command_data (authenticates user scramble) id = auth_data c id user scramble

  abbrev pub command_entries : Command → List (List ℕ × List ℕ)
  command_entries pings = []
  command_entries (calls function args) = two_entries function_name function args
  command_entries (evals expression args) = two_entries expr expression args
  command_entries (authenticates user scramble) = two_entries username user scramble

  -- A request's body: the header and a map of the entries.
  abbrev pub body : ℕ → RequestType → List (List ℕ × List ℕ) → List ℕ
  body id t es = pack_header c (request_header id t) ++ (pack_map (length es) ++ entries es)

  -- The data are one frame with the header of the type and id, which msgpack reads back from the
  -- frame's body, and a map that has the entries and declares their number.
  abbrev pub IsRequest : List ℕ → ℕ → RequestType → List (List ℕ × List ℕ) → Type 0
  IsRequest bytes id t es =
      (bytes ≡ frame (body id t es))
      × (o : Object) × (unpack (body id t es)
          ≡ some (o, length (pack_header c (request_header id t))))
      × (convert c o ≡ some (request_header id t))

  pub start_request-Holds :
      (id : ℕ) (t : RequestType)
      → Holds (start_request c id t) (pack_header c (request_header id t))
  start_request-Holds id t =
      pack-Holds new_packer [] (pack_header c (request_header id t)) new_packer-Holds

  finalize-body :
      (id : ℕ) (t : RequestType) (es : List (List ℕ × List ℕ))
      → length (body id t es) < 2 ^ 32
      → (finalize (pack_entries (pack (start_request c id t) (pack_map (length es))) es)).stream
        ≡ frame (body id t es)
  finalize-body id t es lt =
      let h = pack_header c (request_header id t) in
      let m = pack_map (length es) in
      let held =
        pack_entries-Holds _ (h ++ m) es
          (pack-Holds (start_request c id t) h m (start_request-Holds id t)) in
      finalize-frame _ (body id t es) (held ∙ simp append_assoc) lt

  module _ (laws : ReadsBack c) where
    -- A packer with a header, a map's length and that many entries is finalized to a request.
    pub finalize-IsRequest :
        (id : ℕ) (t : RequestType) (es : List (List ℕ × List ℕ))
        → id < 2 ^ 64
        → length (body id t es) < 2 ^ 32
        → IsRequest
            (finalize (pack_entries (pack (start_request c id t) (pack_map (length es))) es)).stream
            id
            t
            es
    unfolding set_request_type default_header
    finalize-IsRequest id t es fits lt =
        let (o, u, k) =
          convert-pack_header c laws (request_header id t) (pack_map (length es) ++ entries es)
            (omega arith, fits, (omega arith, request_number_lt t, tt)) in
        (finalize-body id t es lt, o, u, k)

    ping_data-IsRequest :
        (id : ℕ)
        → id < 2 ^ 64
        → length (body id ping []) < 2 ^ 32
        → IsRequest (ping_data c id) id ping []
    unfolding ping_data pack_entries
    ping_data-IsRequest id fits lt = finalize-IsRequest id ping [] fits lt

    call_data-IsRequest :
        (id : ℕ) (function args : List ℕ)
        → id < 2 ^ 64
        → length (body id Types.call (two_entries function_name function args)) < 2 ^ 32
        → IsRequest
            (call_data c id function args)
            id
            Types.call
            (two_entries function_name function args)
    unfolding call_data pack_entries
    call_data-IsRequest id function args fits lt =
        finalize-IsRequest id Types.call (two_entries function_name function args) fits lt

    eval_data-IsRequest :
        (id : ℕ) (expression args : List ℕ)
        → id < 2 ^ 64
        → length (body id Types.eval (two_entries expr expression args)) < 2 ^ 32
        → IsRequest
            (eval_data c id expression args)
            id
            Types.eval
            (two_entries expr expression args)
    unfolding eval_data pack_entries
    eval_data-IsRequest id expression args fits lt =
        finalize-IsRequest id Types.eval (two_entries expr expression args) fits lt

    pub auth_data-IsRequest :
        (id : ℕ) (user scramble : List ℕ)
        → id < 2 ^ 64
        → length (body id auth (two_entries username user scramble)) < 2 ^ 32
        → IsRequest (auth_data c id user scramble) id auth (two_entries username user scramble)
    unfolding auth_data pack_entries
    auth_data-IsRequest id user scramble fits lt =
        finalize-IsRequest id auth (two_entries username user scramble) fits lt

    -- The data of each command of the connector are a request with its id, of its type, whose map
    -- declares and has its entries: none for a ping, the function's name and the arguments for a
    -- call, the expression and the arguments for an eval, the user's name and the pair with the
    -- scrambled password for an authentication; if the request has less than 2^32 bytes.
    pub command_data-IsRequest :
        (op : Command) (id : ℕ)
        → id < 2 ^ 64
        → length (body id (command_type op) (command_entries op)) < 2 ^ 32
        → IsRequest (command_data op id) id (command_type op) (command_entries op)
    command_data-IsRequest pings id fits lt = ping_data-IsRequest id fits lt
    command_data-IsRequest (calls function args) id fits lt =
        call_data-IsRequest id function args fits lt
    command_data-IsRequest (evals expression args) id fits lt =
        eval_data-IsRequest id expression args fits lt
    command_data-IsRequest (authenticates user scramble) id fits lt =
        auth_data-IsRequest id user scramble fits lt
