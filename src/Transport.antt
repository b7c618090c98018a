-- ===== src/Transport.antt =====
-- The byte stream under the connection: Boost.Asio's `async_read` on a socket, a parameter.
pub mod Tape
use tntpp.Common.{ℕ, ◌≤◌, ◌<◌, ◌≡◌, ◌≢◌, List, ◌++◌, length}
use tntpp.Errc.{ErrorCode}

-- How a read operation completes: the bytes that it put into the buffer, and the error that
-- stopped it, if any.
pub data Read : Type 0 where
  received : List ℕ → Read
  failed : ErrorCode → List ℕ → Read

pub record Transport : Type 1 where
  pub Socket : Type 0
  -- `async_read` into a buffer of a size until at least so many bytes are there.
  pub async_read : Socket → ℕ → ℕ → Read × Socket

-- What Asio documents: a read without an error transfers at least the bytes asked for and no more
-- than fit, the next ones that the peer sends, in order.
pub record IsStream (t : Transport) : Type 0 where
  pub pending : t.Socket → List ℕ
  pub read_pending :
      (s s' : t.Socket) (size least : ℕ) (bs : List ℕ)
      → t.async_read s size least ≡ (received bs, s')
      → pending s ≡ bs ++ pending s'
  pub read_bounds :
      (s s' : t.Socket) (size least : ℕ) (bs : List ℕ)
      → least ≤ size
      → t.async_read s size least ≡ (received bs, s')
      → (least ≤ length bs) × (length bs ≤ size)
  pub fail_bounds :
      (s s' : t.Socket) (size least : ℕ) (bs : List ℕ) (e : ErrorCode)
      → least ≤ size
      → t.async_read s size least ≡ (failed e bs, s')
      → length bs ≤ size

-- A connection that is not interrupted: a read does not fail while the bytes that it asks for are
-- still to come.
pub record IsUnbroken (t : Transport) (laws : IsStream t) : Type 0 where
  pub unbroken :
      (s s' : t.Socket) (size least : ℕ) (bs : List ℕ) (e : ErrorCode)
      → least ≤ length (laws.pending s)
      → t.async_read s size least ≢ (failed e bs, s')
