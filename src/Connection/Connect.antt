-- ===== src/Connection/Connect.antt =====
-- include/tarantool_connector/connection.h and detail/tntpp_iproto_framing.h: connecting to a host,
-- and the greeting of the server. The resolver's answer and the socket are arguments.
pub mod Attempts
pub mod Keeps
pub mod Line
mod Tests
use tntpp.Common.{
  ℕ, Bool, true, false, ◌&&◌, ◌==◌, Option, none, some, List, [], ◌∷◌, if◌then◌else◌, get_or, drop,
  ◌≡◌,
}
use tntpp.Errc.{ErrorCode, Result, ok, fail, abort, not_connected, bad_message}
use tntpp.Coroutine.{Co}
use tntpp.Transport.{Transport, Read, received, failed}
use tntpp.Config.{Config}
use tntpp.Framing.{Framing, new_framing}
use tntpp.Framing

-- What the client uses of a socket beside reading: addresses, whether it is open, `close`, and
-- `async_connect` with the error code of its completion. `configure` is `set_option` with the option
-- `no_delay` and then, if the logger takes `Info`, `remote_endpoint`, with the error code that one of
-- them throws.
pub record Network (t : Transport) : Type 1 where
  pub Address : Type 0
  pub is_open : t.Socket → Bool
  pub close : t.Socket → t.Socket
  pub async_connect : t.Socket → Address → Option ErrorCode × t.Socket
  pub configure : t.Socket → Option ErrorCode × t.Socket

-- What Asio documents: `close` closes; `async_connect` opens a socket, and does not close it again
-- if it fails; reading and options leave it open.
pub record IsNetwork (t : Transport) (w : Network t) : Type 0 where
  pub close-closed : (s : t.Socket) → w.is_open (w.close s) ≡ false
  pub connect-open : (s : t.Socket) (a : w.Address) → w.is_open (w.async_connect s a).1 ≡ true
  pub configure-open : (s : t.Socket) → w.is_open (w.configure s).1 ≡ w.is_open s
  pub read-open :
      (s : t.Socket) (size least : ℕ) → w.is_open (t.async_read s size least).1 ≡ w.is_open s

-- How `connect` ends without an error code: it completes, or an exception with a code leaves it.
pub data Exit : Type 0 where
  completes : Exit
  throws : ErrorCode → Exit

module _ (t : Transport) where
  open t use {Socket, async_read}

  -- The 128 bytes must have a newline at the end of each half; the salt is the second half.
  unfoldable pub on_hello : Read × Socket → Result (List ℕ) × Socket
  on_hello (failed e bs, s) = (fail e, s)
  on_hello (received bs, s) = (
    if get_or bs 63 0 == 10 && get_or bs 127 0 == 10 then ok (drop 64 bs) else fail bad_message,
    s,
  )

  unfoldable pub read_tarantool_hello : Co Socket (List ℕ)
  unfolding on_hello
  read_tarantool_hello s = on_hello (async_read s 128 128)

  -- The part of `Connection` that connecting changes: `m_stream` and `m_salt`.
  pub record Link : Type 0 where
    pub stream : Framing t
    pub salt : List ℕ

  -- The constructor of `Connection`, with a new socket.
  unfoldable pub new_link : Config → Socket → Link
  new_link cfg s = record { stream = new_framing t s cfg.receive_buffer_size; salt = [] }

  -- `m_salt` gets the value of the completion, which is empty with an error code.
  unfoldable pub keep_hello : Link → Result (List ℕ) × Socket → Result Exit × Link
  keep_hello l (ok salt, s) = (
    ok completes,
    record { stream = Framing.clear t (record l.stream { next_layer = s }); salt = salt },
  )
  keep_hello l (fail e, s) =
      (fail e, record { stream = record l.stream { next_layer = s }; salt = [] })
  keep_hello l (abort, s) =
      (abort, record { stream = record l.stream { next_layer = s }; salt = l.salt })

  -- The attempt goes on to the greeting if the socket could be configured.
  unfoldable pub on_configured : Link → Option ErrorCode × Socket → Result Exit × Link
  unfolding keep_hello read_tarantool_hello
  on_configured l (some e, s) =
      (ok (throws e), record l { stream = record l.stream { next_layer = s } })
  on_configured l (none, s) = keep_hello l (read_tarantool_hello s)

  module _ (w : Network t) where
    open w use {Address, is_open, close, async_connect, configure}

    -- The attempt goes on if the connection is there.
    unfoldable pub on_connect : Link → Option ErrorCode × Socket → Result Exit × Link
    unfolding on_configured
    on_connect l (some e, s) = (fail e, record l { stream = record l.stream { next_layer = s } })
    on_connect l (none, s) = on_configured l (configure s)

    -- `m_stream.clear()` and `socket.close()`.
    abbrev pub restarted : Link → Link
    restarted l =
        let fr = Framing.clear t l.stream in
        record l { stream = record fr { next_layer = close fr.next_layer } }

    -- The body of the loop over the addresses: left, or the error code to go on with.
    unfoldable pub try_address : Address → Co Link Exit
    unfolding on_connect
    try_address a l = on_connect (restarted l) (async_connect (restarted l).stream.next_layer a)

    -- What follows an attempt: the next addresses if it ended with an error code.
    unfoldable pub or_else : Result Exit × Link → Result Exit × Link → Result Exit × Link
    or_else (ok x, l) rest = (ok x, l)
    or_else (fail e, l) rest = rest
    or_else (abort, l) rest = (abort, l)

    unfoldable pub try_all : List Address → Co Link Exit
    unfolding try_address or_else
    try_all [] l = (fail not_connected, l)
    try_all (a ∷ more) l = let x = try_address a l in let rest = try_all more x.1 in or_else x rest

    -- The loop, if the resolver gave addresses.
    unfoldable pub on_resolved : Result (List Address) → Co Link Exit
    unfolding try_all
    on_resolved (ok found) l = try_all found l
    on_resolved (fail e) l = (fail e, l)
    on_resolved abort l = (abort, l)

    -- `connect`, with the resolver's answer.
    unfoldable pub connect : Result (List Address) → Co Link Exit
    unfolding on_resolved
    connect addresses l =
        if is_open l.stream.next_layer then (abort, l) else on_resolved addresses l
