-- ===== src/Connector/Establish/Login.antt =====
-- include/tarantool_connector/tarantool_connector.hpp and detail/tntpp_crypto.h: the request of
-- `async_auth` as the server sees it.
use tntpp.Common.{ℕ, ◌^◌, ◌<◌, ◌≤◌, ◌≡◌, refl, some, List, ◌++◌, length}
use tntpp.Msgpack.{Msgpack, ReadsBack}
use tntpp.Iproto.Types.{auth, username}
use tntpp.Crypto.{Sha1, Base64, IsSha1, count_padding, replace_padding}
use tntpp.Crypto.Accepted.{
  stored, Accepts, reply_to, reply_to-Accepts, scramble_password_lem, decoded_salt-padded,
}
use tntpp.Config.{Credentials}
use tntpp.Connector.Requests.{auth_data}
use tntpp.Connector.Requests.Bytes.{IsRequest, body, two_entries, auth_data-IsRequest}
use tntpp.Connector.Establish.{auth_pair, auth_request}

module _ (d : Sha1) (b : Base64) (digest : IsSha1 d) (c : Msgpack) (laws : ReadsBack c) where
  -- For a salt that decodes to `m`, of at least 20 bytes, and its padding, the request of
  -- `async_auth` is made, and for each id of 64 bits it is a frame of type Auth with the name of the
  -- user and, under the tuple, the method and a reply that the server accepts for `m`, if the
  -- password and the frame have less than 2^32 bytes.
  pub auth_request-Accepts :
      (credentials : Credentials) (salt m pad : List ℕ) (id : ℕ)
      → length credentials.password < 2 ^ 32
      → b.decode (replace_padding (b.trim salt)) ≡ some (m ++ pad)
      → length pad ≡ count_padding (b.trim salt)
      → 20 ≤ length m
      → id < 2 ^ 64
      → let reply = reply_to d b digest credentials.password m in
        let fields = two_entries c username credentials.username (auth_pair c reply) in
        length (body c id auth fields) < 2 ^ 32
        → (request : ℕ → List ℕ) × (auth_request d b c credentials salt ≡ some request)
          × IsRequest c (request id) id auth fields
          × Accepts d b digest (stored d b digest credentials.password) m reply
  unfolding auth_request
  auth_request-Accepts credentials salt m pad id short e l enough fits lt =
      let reply = reply_to d b digest credentials.password m in
      (
        λ i. auth_data c i credentials.username (auth_pair c reply),
        rw
            (scramble_password_lem d b digest credentials.password salt m short
              (decoded_salt-padded b salt m pad e l) enough)
            refl,
        auth_data-IsRequest c laws id credentials.username (auth_pair c reply) fits lt,
        reply_to-Accepts d b digest credentials.password m,
      )
