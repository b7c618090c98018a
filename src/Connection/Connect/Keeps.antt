-- ===== src/Connection/Connect/Keeps.antt =====
-- include/tarantool_connector/connection.h: what `connect` leaves of the receive buffer.
use tntpp.Common.{ℕ, ◌≡◌, Option, none, some, List, [], ◌∷◌, Bool-cases, inl, inr}
use tntpp.Errc.{ErrorCode, Result, ok, fail, abort}
use tntpp.Transport.{Transport}
use tntpp.Framing.{Framing}
use tntpp.Framing
use tntpp.Framing.Ready.{IsReady, clear-IsReady}
use tntpp.Buffer.{MutableBuffer, contents}
use tntpp.Buffer.State.{Keeps, Keeps-refl, Keeps-trans}
use tntpp.Buffer.Transfer.{contents-clear, clear-Keeps}
use tntpp.Connection.Connect.{
  Network, Link, Exit, completes, throws, read_tarantool_hello, keep_hello, on_configured,
  on_connect, restarted, try_address, or_else, try_all, on_resolved, connect,
}

module _ (t : Transport) where
  -- The buffer is well formed and written bytes have stayed; if `connect` completes nothing is in it.
  abbrev pub Settles : MutableBuffer → Result Exit × Link t → Type 0
  Settles m (ok completes, l) =
      IsReady l.stream.buffer × Keeps m l.stream.buffer × (contents l.stream.buffer ≡ [])
  Settles m (ok (throws e), l) = IsReady l.stream.buffer × Keeps m l.stream.buffer
  Settles m (fail e, l) = IsReady l.stream.buffer × Keeps m l.stream.buffer
  Settles m (abort, l) = IsReady l.stream.buffer × Keeps m l.stream.buffer

  Settles-trans :
      (m m' : MutableBuffer) (x : Result Exit × Link t) → Keeps m m' → Settles m' x → Settles m x
  Settles-trans m m' (ok (throws e), l) k (d, k') = (d, Keeps-trans m m' l.stream.buffer k k')
  Settles-trans m m' (ok completes, l) k (d, k', e) = (d, Keeps-trans m m' l.stream.buffer k k', e)
  Settles-trans m m' (fail e, l) k (d, k') = (d, Keeps-trans m m' l.stream.buffer k k')
  Settles-trans m m' (abort, l) k (d, k') = (d, Keeps-trans m m' l.stream.buffer k k')

  keep_hello-Settles :
      (l : Link t) (r : Result (List ℕ) × t.Socket)
      → IsReady l.stream.buffer
      → Settles l.stream.buffer (keep_hello t l r)
  unfolding keep_hello Framing.clear
  keep_hello-Settles l (ok salt, s) d = (
    clear-IsReady l.stream.buffer d,
    clear-Keeps l.stream.buffer d.valid,
    contents-clear l.stream.buffer d.valid,
  )
  keep_hello-Settles l (fail e, s) d = (d, Keeps-refl l.stream.buffer)
  keep_hello-Settles l (abort, s) d = (d, Keeps-refl l.stream.buffer)

  on_configured-Settles :
      (l : Link t) (x : Option ErrorCode × t.Socket)
      → IsReady l.stream.buffer
      → Settles l.stream.buffer (on_configured t l x)
  unfolding on_configured
  on_configured-Settles l (none, s) d = keep_hello-Settles l (read_tarantool_hello t s) d
  on_configured-Settles l (some e, s) d = (d, Keeps-refl l.stream.buffer)

  module _ (w : Network t) where
    on_connect-Settles :
        (l : Link t) (x : Option ErrorCode × t.Socket)
        → IsReady l.stream.buffer
        → Settles l.stream.buffer (on_connect t w l x)
    unfolding on_connect
    on_connect-Settles l (none, s) d = on_configured-Settles l (w.configure s) d
    on_connect-Settles l (some e, s) d = (d, Keeps-refl l.stream.buffer)

    try_address-Settles :
        (a : w.Address) (l : Link t)
        → IsReady l.stream.buffer
        → Settles l.stream.buffer (try_address t w a l)
    unfolding try_address Framing.clear
    try_address-Settles a l d =
        let l' = restarted t w l in
        Settles-trans l.stream.buffer l'.stream.buffer (try_address t w a l)
          (clear-Keeps l.stream.buffer d.valid)
          (on_connect-Settles l' (w.async_connect l'.stream.next_layer a)
            (clear-IsReady l.stream.buffer d))

    or_else-Settles :
        (m : MutableBuffer) (x rest : Result Exit × Link t)
        → Settles m x
        → (IsReady x.1.stream.buffer → Settles x.1.stream.buffer rest)
        → Settles m (or_else t w x rest)
    unfolding or_else
    or_else-Settles m (ok y, l) rest h k = h
    or_else-Settles m (fail e, l) rest (d, h) k = Settles-trans m l.stream.buffer rest h (k d)
    or_else-Settles m (abort, l) rest h k = h

    try_all-Settles :
        (found : List w.Address) (l : Link t)
        → IsReady l.stream.buffer
        → Settles l.stream.buffer (try_all t w found l)
    unfolding try_all
    try_all-Settles [] l d = (d, Keeps-refl l.stream.buffer)
    try_all-Settles (a ∷ more) l d =
        or_else-Settles l.stream.buffer (try_address t w a l) _ (try_address-Settles a l d)
          (λ d'. try_all-Settles more (try_address t w a l).1 d')

    on_resolved-Settles :
        (found : Result (List w.Address)) (l : Link t)
        → IsReady l.stream.buffer
        → Settles l.stream.buffer (on_resolved t w found l)
    unfolding on_resolved
    on_resolved-Settles (ok found) l d = try_all-Settles found l d
    on_resolved-Settles (fail e) l d = (d, Keeps-refl l.stream.buffer)
    on_resolved-Settles abort l d = (d, Keeps-refl l.stream.buffer)

    pub connect-Settles :
        (found : Result (List w.Address)) (l : Link t)
        → IsReady l.stream.buffer
        → Settles l.stream.buffer (connect t w found l)
    unfolding connect
    connect-Settles found l d = elim (Bool-cases (w.is_open l.stream.next_layer)) [
      | inl e ↦ rw (e, connect) (d, Keeps-refl l.stream.buffer)
      | inr e ↦ rw (e, connect) (on_resolved-Settles found l d)
    ]
