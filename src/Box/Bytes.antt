-- ===== src/Box/Bytes.antt =====
-- include/tarantool_connector/box/tntpp_box.h: what the data operations send.
use tntpp.Common.{ℕ, ◌^◌, ◌<◌, ◌≡◌, refl, List, [], ◌∷◌, length, some, Option}
use tntpp.Msgpack.{Msgpack, ReadsBack}
use tntpp.Request.Frame.{pack_entries}
use tntpp.Iproto.Types.{RequestType, insert, replace, delete, space_id, key, tuple}
use tntpp.Connector.{Internal, generate_id, send_request}
use tntpp.Connector.Requests.Bytes.{field, body, IsRequest, finalize-IsRequest}
use tntpp.Box.{number, send_insert, send_replace, send_remove}

module _ (c : Msgpack) where
  open c use {pack_uint, pack_map, pack_string, pack_bool}

  -- The request of a type and with these entries is sent under the connector's next id.
  abbrev pub Sends :
      Internal (List ℕ)
      → RequestType
      → List (List ℕ × List ℕ)
      → ℕ
      → Option (Internal (List ℕ))
      → Type 0
  Sends s t es h r =
      let (id, s') = generate_id s in
      (bytes : List ℕ) × IsRequest c bytes id t es × (r ≡ some (send_request s' id bytes h))

  -- A tuple or a key for a space.
  abbrev pub in_space : List ℕ × List ℕ → ℕ → List (List ℕ × List ℕ)
  in_space e n = e ∷ field c space_id (pack_uint n) ∷ []

  module _ (laws : ReadsBack c) where
    -- If the next id is below 2^64 and the request below 2^32 bytes, `insert` and `replace` of a
    -- tuple and `remove` of a key, for a space given by its number, each send one request of their
    -- type whose map has the two entries that it declares, the tuple or key and the space.
    pub send_to_space-Sends :
        (s : Internal (List ℕ)) (n h : ℕ) (value : List ℕ)
        → s.request_id < 2 ^ 64
        → length (body c s.request_id insert (in_space (field c tuple value) n)) < 2 ^ 32
        → length (body c s.request_id replace (in_space (field c tuple value) n)) < 2 ^ 32
        → length (body c s.request_id delete (in_space (field c key value) n)) < 2 ^ 32
        → Sends s insert (in_space (field c tuple value) n) h (send_insert c s (number n) value h)
          × Sends s replace
              (in_space (field c tuple value) n)
              h
              (send_replace c s (number n) value h)
          × Sends s delete (in_space (field c key value) n) h (send_remove c s (number n) value h)
    unfolding send_insert send_replace send_remove generate_id pack_entries
    send_to_space-Sends s n h value fits i r d =
        let id = s.request_id in
        let e = in_space (field c tuple value) n in
        let k = in_space (field c key value) n in
        (
          (_, finalize-IsRequest c laws id insert e fits i, refl),
          (_, finalize-IsRequest c laws id replace e fits r, refl),
          (_, finalize-IsRequest c laws id delete k fits d, refl),
        )
