-- ===== src/Connector/Establish.antt =====
-- include/tarantool_connector/tarantool_connector.hpp: `Connector::connect` and the answer to the
-- request of `async_auth`.

pub mod Verdict
pub mod Login
pub mod Open
mod Tests
use tntpp.Common.{
  ℕ, Bool, true, false, not, Option, none, some, List, [], ◌∷◌, ◌++◌, ◌==◌, if◌then◌else◌, ◌>>=◌,
}
use tntpp.Errc.{ErrorCode, Result, ok, fail, abort, tarantool}
use tntpp.Iproto.Errors.Code.{error_code}
use tntpp.Iproto.Header.{is_error}
use tntpp.Logger.{LogLevel, info, is_handled}
use tntpp.Response.{get_error_code, get_error_string}
use tntpp.Framing.{IprotoFrame}
use tntpp.Msgpack.{Msgpack}
use tntpp.Crypto.{Sha1, Base64, scramble_password}
use tntpp.Config.{Credentials}
use tntpp.Connection.{Connection}
use tntpp.Connector.{Internal, Completion, new_internal, destroy}
use tntpp.Connector.Asks.{Ask, serve_all}
use tntpp.Connector.Loop.{Auth, done, waiting, async_auth}
use tntpp.Connector.Requests.{auth_data}

-- "chap-sha1".
abbrev pub chap_sha1 : List ℕ
chap_sha1 = 99 ∷ 104 ∷ 97 ∷ 112 ∷ 45 ∷ 115 ∷ 104 ∷ 97 ∷ 49 ∷ []

-- The pair of the method and the scrambled password, packed.
abbrev pub auth_pair : Msgpack → List ℕ → List ℕ
auth_pair c reply = c.pack_array 2 ++ (c.pack_string chap_sha1 ++ c.pack_string reply)

-- What `async_auth` does before it takes an id: the request as a function of the id. The password in
-- the configuration, which scrambling may overwrite, is not used again here.
unfoldable pub auth_request : Sha1 → Base64 → Msgpack → Credentials → List ℕ → Option (ℕ → List ℕ)
auth_request d b c credentials salt = do
  (reply, password) ← scramble_password d b credentials.password salt
  some (λ id. auth_data c id credentials.username (auth_pair c reply))

-- An `error_code` as a condition: its value is not 0.
unfoldable pub is_failure : ErrorCode → Bool
unfolding error_code
is_failure (tarantool e) = not (error_code e == 0)
is_failure _ = true

-- How `connect` ends: the connector goes to the caller, or an error code and no connector, the one
-- that there may have been being destroyed; or it waits for the answer to the request of
-- `async_auth`, or an assertion fails, or the program is terminated by an exception in a `noexcept`
-- function.
pub data Established (Data : Type 0) : Type 0 where
  hands_over : Internal Data → Established Data
  refuses : ErrorCode → Option (Internal Data) → Established Data
  pending : Internal Data → Established Data
  aborts terminates : Established Data

-- The outcome with which the handler of a caller was called first.
unfoldable pub outcome_of : ℕ → List Completion → Option (Result IprotoFrame)
outcome_of h [] = none
outcome_of h (x ∷ xs) = if x.caller == h then some x.outcome else outcome_of h xs

-- The codec, the `max_log_level` of the logger, if there is one, and the bytes that the shared buffer
-- shows for the body of a frame.
module _ (c : Msgpack) (level : Option LogLevel) (shown : IprotoFrame → List ℕ) where
  -- What `TNTPP_LOG` evaluates of an error response, if the logger takes `Info`: its text. `none` is
  -- an exception in `get_error_string`, which is `noexcept`.
  unfoldable pub log_refusal : IprotoFrame → Option (Unit {0})
  unfolding is_handled
  log_refusal f = elim (is_handled level info) [
    | true ↦ get_error_string c f.header (shown f) >>= λ s. some tt
    | false ↦ some tt
  ]

  -- The error code with which `async_auth` completes when its request was answered; `none` ends the
  -- program.
  unfoldable pub auth_error : IprotoFrame → Option (Option ErrorCode)
  unfolding get_error_code log_refusal
  auth_error f =
      if is_error f.header
      then (log_refusal f >>= λ x. some (get_error_code f.header))
      else some none

module _ {Data : Type 0} where
  unfoldable pub finish_connect : Internal Data → Option ErrorCode → Established Data
  unfolding is_failure
  finish_connect s none = hands_over s
  finish_connect s (some e) = if is_failure e then refuses e (some (destroy s)) else hands_over s

  unfoldable pub on_checked : Internal Data → Option (Option ErrorCode) → Established Data
  unfolding finish_connect
  on_checked s none = terminates
  on_checked s (some e) = finish_connect s e

module _ {Data : Type 0} (c : Msgpack) (level : Option LogLevel)
    (shown : IprotoFrame → List ℕ) where
  -- The wait for the answer goes on until the handler is called.
  unfoldable pub on_answer : Internal Data → Option (Result IprotoFrame) → Established Data
  unfolding on_checked auth_error
  on_answer s none = pending s
  on_answer s (some (ok f)) = on_checked s (auth_error c level shown f)
  on_answer s (some (fail e)) = finish_connect s (some e)
  on_answer s (some abort) = aborts

  unfoldable pub after_start : ℕ → List (Ask Data) → Internal Data × Auth → Established Data
  unfolding on_answer outcome_of
  after_start self es (s, done e) = finish_connect s e
  after_start self es (s, waiting) =
      let s' = serve_all s es in on_answer s' (outcome_of self s'.completions)

  -- `connect` on a new connection: how connecting it ended, the request of `async_auth` (none without
  -- credentials) with the number of its handler, and what happens on the strand up to the call of
  -- that handler. An exception while the request is made, `none` of `auth_request`, leaves `connect`
  -- by itself and is no outcome here.
  unfoldable pub establish :
      Connection Data
      → Result (Unit {0})
      → Option (ℕ → Data)
      → ℕ
      → List (Ask Data)
      → Established Data
  unfolding after_start
  establish conn (fail e) request self es = refuses e none
  establish conn abort request self es = aborts
  establish conn (ok x) request self es =
      after_start self es (async_auth (new_internal conn) request self)
