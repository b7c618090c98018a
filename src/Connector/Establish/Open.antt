-- ===== src/Connector/Establish/Open.antt =====
-- include/tarantool_connector/tarantool_connector.hpp and connection.h: `Connector::connect` from a
-- configuration and a new socket.
use tntpp.Common.{
  ℕ, ◌^◌, ◌<◌, ◌≤◌, ◌≡◌, refl, ap, false, Option, none, some, List, [], ◌∷◌, ◌++◌, map, arith,
  length, if◌then◌else◌, ◌>>=◌,
}
use tntpp.Errc.{Result, ok, fail, abort}
use tntpp.Transport.{Transport, IsStream}
use tntpp.Msgpack.{Msgpack, ReadsBack}
use tntpp.Buffer.{contents}
use tntpp.Framing.{IprotoFrame, new_framing}
use tntpp.Framing.Ready.{IsReady, new_buffer-IsReady}
use tntpp.Iproto.Types.{auth, username}
use tntpp.Logger.{LogLevel}
use tntpp.Crypto.{Sha1, Base64, IsSha1, count_padding, replace_padding}
use tntpp.Crypto.Accepted.{stored, Accepts, reply_to}
use tntpp.Config.{Config, Credentials}
use tntpp.Connection.{new_connection}
use tntpp.Connection.Connect.{Network, IsNetwork, Link, Exit, completes, throws, new_link, connect}
use tntpp.Connection.Connect.Attempts.{Greeted, Tried, connect-Tried}
use tntpp.Connection.Connect.Keeps.{Settles, connect-Settles}
use tntpp.Connector.Asks.{Ask, answers}
use tntpp.Connector.Requests.Bytes.{IsRequest, body, two_entries}
use tntpp.Connector.Establish.{Established, auth_pair, auth_request, establish, terminates}
use tntpp.Connector.Establish.Login.{auth_request-Accepts}
use tntpp.Connector.Establish.Verdict.{Others, unreadable, judged, answered, establish-answered}

-- The level of the logger of a connection, if there is one; `levels` gives the `max_log_level` of a
-- logger.
abbrev pub logger_level : (ℕ → LogLevel) → Config → Option LogLevel
logger_level levels cfg = elim cfg.logger [ none ↦ none | some l ↦ some (levels l) ]

-- `shown` gives the bytes of the body of a frame.
module _ (t : Transport) (w : Network t) (d : Sha1) (b : Base64) (c : Msgpack)
    (levels : ℕ → LogLevel) (shown : IprotoFrame → List ℕ) where
  -- The request of `async_auth`, none without credentials. Outside that, `none` is an exception.
  unfoldable pub auth_of : Option Credentials → List ℕ → Option (Option (ℕ → List ℕ))
  auth_of none salt = some none
  auth_of (some k) salt = auth_request d b c k salt >>= λ request. some (some request)

  -- What follows the `connect` of the connection; `none` is an exception, which leaves this function
  -- too.
  unfoldable pub establish_on :
      Config → Result Exit × Link t → ℕ → List (Ask (List ℕ)) → Option (Established (List ℕ))
  unfolding auth_of
  establish_on cfg (ok (throws e), l) self es = none
  establish_on cfg (ok completes, l) self es = do
    request ← auth_of cfg.credentials l.salt
    some (
        establish c (logger_level levels cfg) shown (new_connection cfg.send_queue_capacity) (ok tt)
          request self es)
  establish_on cfg (fail e, l) self es = some (
      establish c (logger_level levels cfg) shown (new_connection cfg.send_queue_capacity) (fail e)
        none self es)
  establish_on cfg (abort, l) self es = some (
      establish c (logger_level levels cfg) shown (new_connection cfg.send_queue_capacity) abort
        none self es)

  -- With the answer of the resolver, the number of the handler of `async_auth`, and what happens on
  -- the strand up to its call.
  unfoldable pub open_connector :
      Config
      → t.Socket
      → Result (List w.Address)
      → ℕ
      → List (Ask (List ℕ))
      → Option (Established (List ℕ)) × Link t
  unfolding establish_on
  open_connector cfg s found self es =
      let x = connect t w found (new_link t cfg s) in (establish_on cfg x self es, x.1)

module _ (t : Transport) (laws : IsStream t) (w : Network t) (net : IsNetwork t w) (d : Sha1)
    (b : Base64) (digest : IsSha1 d) (c : Msgpack) (codec : ReadsBack c) (levels : ℕ → LogLevel)
    (shown : IprotoFrame → List ℕ) where
  -- The fields of the request.
  abbrev pub auth_fields : Credentials → List ℕ → List (List ℕ × List ℕ)
  auth_fields k m =
      two_entries c username k.username (auth_pair c (reply_to d b digest k.password m))

  -- What `connect` gives when the request was answered.
  abbrev pub verdict : Config → List ℕ → ℕ → IprotoFrame → Established (List ℕ)
  verdict cfg request self f =
      if unreadable c (logger_level levels cfg) shown f
      then terminates
      else judged (answered (new_connection cfg.send_queue_capacity) request self f) f

  -- The connection is ready, the request is one that the server accepts, and its answer decides.
  unfoldable pub Opens :
      Config
      → Credentials
      → List ℕ
      → ℕ
      → IprotoFrame
      → Option (Established (List ℕ)) × Link t
      → Type 0
  Opens cfg k m self f (x, l) =
      IsReady l.stream.buffer
      × (contents l.stream.buffer ≡ [])
      × Greeted t laws w net l.stream.next_layer l.salt
      × ((request : List ℕ) × IsRequest c request 0 auth (auth_fields k m)
          × Accepts d b digest (stored d b digest k.password) m (reply_to d b digest k.password m)
          × (x ≡ some (verdict cfg request self f)))

  new_link-IsReady :
      (cfg : Config) (s : t.Socket)
      → 0 < cfg.receive_buffer_size
      → cfg.receive_buffer_size ≤ 2 ^ 32
      → IsReady (new_link t cfg s).stream.buffer
  unfolding new_link new_framing
  new_link-IsReady cfg s p h = new_buffer-IsReady cfg.receive_buffer_size p h

  new_link-next_layer : (cfg : Config) (s : t.Socket) → (new_link t cfg s).stream.next_layer ≡ s
  unfolding new_link new_framing
  new_link-next_layer cfg s = refl

  establish_on-Opens :
      (cfg : Config) (k : Credentials) (l0 : Link t) (x : Result Exit × Link t) (m pad : List ℕ)
      (self : ℕ) (fs : List IprotoFrame) (f : IprotoFrame)
      → Settles t l0.stream.buffer x
      → Tried t laws w net x
      → x.0 ≡ ok completes
      → cfg.credentials ≡ some k
      → length k.password < 2 ^ 32
      → b.decode (replace_padding (b.trim x.1.salt)) ≡ some (m ++ pad)
      → length pad ≡ count_padding (b.trim x.1.salt)
      → 20 ≤ length m
      → length (body c 0 auth (auth_fields k m)) < 2 ^ 32
      → Others fs
      → f.header.sync ≡ 0
      → Opens cfg k m self f
          (establish_on t w d b c levels shown cfg x self (map answers fs ++ answers f ∷ []), x.1)
  unfolding establish_on auth_of Opens
  establish_on-Opens cfg k l0 (ok (throws y), l) m pad self fs f s v q kq short dec p enough fits
        others zero =
      absurd (ground arith)
  establish_on-Opens cfg k l0 (ok completes, l) m pad self fs f (r, kept, e) (u, e', g, o) q kq
        short dec p enough fits others zero =
      let (request, made, is_request, accepted) =
        auth_request-Accepts d b digest c codec k l.salt m pad 0 short dec p enough (omega arith)
          fits in
      (
        r,
        e,
        g,
        (
          request 0,
          is_request,
          accepted,
          rw (kq, establish_on, auth_of, made)
              (ap some (
                establish-answered c (logger_level levels cfg) shown
                  (new_connection cfg.send_queue_capacity) request self fs f others zero)),
        ),
      )
  establish_on-Opens cfg k l0 (fail e, l) m pad self fs f s v q kq short dec p enough fits others
        zero =
      absurd (ground arith)
  establish_on-Opens cfg k l0 (abort, l) m pad self fs f s v q kq short dec p enough fits others
        zero =
      absurd (ground arith)

  -- Let a connector be opened with a receive buffer between 1 and 2^32 bytes, credentials with a
  -- password of less than 2^32 bytes, a closed socket and at least one address; let connecting
  -- succeed, and the salt of the greeting, without blanks at its ends, decode to `m`, of at least 20
  -- bytes, and its padding; let the request have less than 2^32 bytes. Then the framing starts
  -- ready, with nothing buffered, right behind a greeting of which the salt is the second half. The
  -- request that is sent is a frame of type Auth with the name of the user and a reply that the
  -- server accepts for `m`. If no message before it answers that request, the first answer decides.
  -- If it is an error, the logger takes `Info`, and `get_error_string` cannot read the text off its
  -- body, the program is terminated. Otherwise an error with a number from 1 to 280 refuses the
  -- connection with that error, any other response hands over a connector that is connected, with no
  -- request under way.
  pub open_connector-Opens :
      (cfg : Config) (k : Credentials) (s : t.Socket) (a : w.Address) (more : List w.Address)
      (m pad : List ℕ) (self : ℕ) (fs : List IprotoFrame) (f : IprotoFrame)
      → 0 < cfg.receive_buffer_size
      → cfg.receive_buffer_size ≤ 2 ^ 32
      → cfg.credentials ≡ some k
      → length k.password < 2 ^ 32
      → w.is_open s ≡ false
      → let x = connect t w (ok (a ∷ more)) (new_link t cfg s) in
        x.0 ≡ ok completes
        → b.decode (replace_padding (b.trim x.1.salt)) ≡ some (m ++ pad)
        → length pad ≡ count_padding (b.trim x.1.salt)
        → 20 ≤ length m
        → length (body c 0 auth (auth_fields k m)) < 2 ^ 32
        → Others fs
        → f.header.sync ≡ 0
        → Opens cfg k m self f (
            open_connector t w d b c levels shown cfg s
              (ok (a ∷ more))
              self
              (map answers fs ++ answers f ∷ []))
  unfolding open_connector new_link new_framing
  open_connector-Opens cfg k s a more m pad self fs f lo hi kq short closed q dec p enough fits
        others zero =
      let l = new_link t cfg s in
      let r = new_link-IsReady cfg s lo hi in
      establish_on-Opens cfg k l (connect t w (ok (a ∷ more)) l) m pad self fs f
        (connect-Settles t w (ok (a ∷ more)) l r)
        (connect-Tried t laws w net a more l
          (record { valid = r.valid; bounded = omega (arith, r.default_le) }) closed)
        q kq short dec p enough fits others zero
