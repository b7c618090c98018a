-- ===== src/Connection/Connect/Attempts.antt =====
-- include/tarantool_connector/connection.h: how `connect` ends, and in what state it leaves the socket.
use tntpp.Common.{
  ℕ, ◌^◌, ◌<◌, ◌≡◌, refl, ◌∙◌, true, false, ◌&&◌, ◌==◌, drop, ◌++◌, Option, none, some, List, [],
  ◌∷◌, get_or, length, arith, inl, inr, Bool-cases,
}
use tntpp.Errc.{ErrorCode, Result, ok, fail, abort}
use tntpp.Transport.{Transport, IsStream, Read, received, failed}
use tntpp.Framing.{Framing}
use tntpp.Framing
use tntpp.Buffer.{MutableBuffer, contents}
use tntpp.Buffer
use tntpp.Buffer.State.{IsValid}
use tntpp.Buffer.Transfer.{clear-IsValid, contents-clear, default_length-clear}
use tntpp.Connection.Connect.{
  Network, IsNetwork, Link, on_hello, Exit, completes, throws, read_tarantool_hello, keep_hello,
  on_configured, on_connect, restarted, try_address, or_else, try_all, on_resolved, connect,
}

-- A buffer whose default length is a `size_t`.
pub record IsUsable (m : MutableBuffer) : Type 0 where
  pub valid : IsValid m
  pub bounded : m.default_length < 2 ^ 64

clear-IsUsable : (m : MutableBuffer) → IsUsable m → IsUsable (Buffer.clear m)
clear-IsUsable m u = record {
  valid = clear-IsValid m u.valid u.bounded;
  bounded = omega (arith, u.bounded, default_length-clear m);
}

module _ (t : Transport) (laws : IsStream t) (w : Network t) (net : IsNetwork t w) where
  -- The socket was read off a greeting: 128 bytes with a newline at the end of each half, of which
  -- the salt is the second half.
  abbrev pub Greeted : t.Socket → List ℕ → Type 0
  Greeted s salt =
      (before : t.Socket) × (greeting : List ℕ) × (laws.pending before ≡ greeting ++ laws.pending s)
      × (length greeting ≡ 128)
      × (get_or greeting 63 0 ≡ 10)
      × (get_or greeting 127 0 ≡ 10)
      × (salt ≡ drop 64 greeting)

  -- With success the socket is open, the buffer is empty and the salt comes from a greeting. With an error
  -- or an exception the socket is open all the same.
  abbrev pub Tried : Result Exit × Link t → Type 0
  Tried (ok completes, l) =
      IsUsable l.stream.buffer
      × (contents l.stream.buffer ≡ [])
      × Greeted l.stream.next_layer l.salt
      × (w.is_open l.stream.next_layer ≡ true)
  Tried (ok (throws e), l) = IsUsable l.stream.buffer × (w.is_open l.stream.next_layer ≡ true)
  Tried (fail e, l) = IsUsable l.stream.buffer × (w.is_open l.stream.next_layer ≡ true)
  Tried (abort, l) = ⊥

  -- A greeting is read.
  abbrev pub Greets : t.Socket → Result (List ℕ) × t.Socket → Type 0
  Greets s (ok salt, s') = Greeted s' salt × (w.is_open s' ≡ w.is_open s)
  Greets s (fail e, s') = w.is_open s' ≡ w.is_open s
  Greets s (abort, s') = ⊥

  on_hello-Greets :
      (s : t.Socket) (x : Read) (s' : t.Socket)
      → t.async_read s 128 128 ≡ (x, s')
      → w.is_open s' ≡ w.is_open s
      → Greets s (on_hello t (x, s'))
  unfolding on_hello
  on_hello-Greets s (failed e bs) s' q o = o
  on_hello-Greets s (received bs) s' q o =
      let (lo, hi) = laws.read_bounds s s' 128 128 bs (omega arith) q in
      elim (Bool-cases (get_or bs 63 0 == 10 && get_or bs 127 0 == 10)) [
        | inl e ↦
            rw (e, on_hello)
              (
                (
                  s,
                  bs,
                  laws.read_pending s s' 128 128 bs q,
                  omega arith,
                  ground arith,
                  ground arith,
                  refl,
                ),
                o,
              )
        | inr e ↦ rw (e, on_hello) o
      ]

  read_tarantool_hello-Greets : (s : t.Socket) → Greets s (read_tarantool_hello t s)
  unfolding read_tarantool_hello
  read_tarantool_hello-Greets s =
      on_hello-Greets s (t.async_read s 128 128).0 (t.async_read s 128 128).1 refl
        (net.read-open s 128 128)

  keep_hello-Tried :
      (l : Link t) (s : t.Socket) (r : Result (List ℕ) × t.Socket)
      → IsUsable l.stream.buffer
      → w.is_open s ≡ true
      → Greets s r
      → Tried (keep_hello t l r)
  unfolding keep_hello Framing.clear
  keep_hello-Tried l s (ok salt, s') u o (k, e) =
      (clear-IsUsable l.stream.buffer u, contents-clear l.stream.buffer u.valid, k, e ∙ o)
  keep_hello-Tried l s (fail k, s') u o e = (u, e ∙ o)
  keep_hello-Tried l s (abort, s') u o h = h

  on_configured-Tried :
      (l : Link t) (x : Option ErrorCode × t.Socket)
      → IsUsable l.stream.buffer
      → w.is_open x.1 ≡ true
      → Tried (on_configured t l x)
  unfolding on_configured
  on_configured-Tried l (none, s) u o =
      keep_hello-Tried l s (read_tarantool_hello t s) u o (read_tarantool_hello-Greets s)
  on_configured-Tried l (some e, s) u o = (u, o)

  on_connect-Tried :
      (l : Link t) (x : Option ErrorCode × t.Socket)
      → IsUsable l.stream.buffer
      → w.is_open x.1 ≡ true
      → Tried (on_connect t w l x)
  unfolding on_connect
  on_connect-Tried l (none, s) u o =
      on_configured-Tried l (w.configure s) u (net.configure-open s ∙ o)
  on_connect-Tried l (some e, s) u o = (u, o)

  try_address-Tried :
      (a : w.Address) (l : Link t) → IsUsable l.stream.buffer → Tried (try_address t w a l)
  unfolding try_address Framing.clear
  try_address-Tried a l u =
      on_connect-Tried (restarted t w l) (w.async_connect (restarted t w l).stream.next_layer a)
        (clear-IsUsable l.stream.buffer u) (net.connect-open (restarted t w l).stream.next_layer a)

  or_else-Tried :
      (x rest : Result Exit × Link t)
      → Tried x
      → (IsUsable x.1.stream.buffer → w.is_open x.1.stream.next_layer ≡ true → Tried rest)
      → Tried (or_else t w x rest)
  unfolding or_else
  or_else-Tried (ok y, l) rest h k = h
  or_else-Tried (fail e, l) rest (u, o) k = k u o
  or_else-Tried (abort, l) rest h k = h

  try_all-Tried :
      (a : w.Address) (more : List w.Address) (l : Link t)
      → IsUsable l.stream.buffer
      → Tried (try_all t w (a ∷ more) l)
  unfolding try_all
  try_all-Tried a [] l u =
      or_else-Tried (try_address t w a l) _ (try_address-Tried a l u) (λ v o. (v, o))
  try_all-Tried a (b ∷ more) l u =
      or_else-Tried (try_address t w a l) _ (try_address-Tried a l u)
        (λ v o. try_all-Tried b more (try_address t w a l).1 v)

  -- If the socket is closed and the resolver gives an address, no assertion of `connect` fails. If
  -- it succeeds the socket is open, nothing is in the receive buffer, and the salt is the second half
  -- of a greeting, 128 bytes with a newline at the end of each half, right behind which the socket
  -- goes on; if all attempts fail, or an exception of `set_option` or `remote_endpoint` leaves
  -- `connect`, the socket is left open.
  pub connect-Tried :
      (a : w.Address) (more : List w.Address) (l : Link t)
      → IsUsable l.stream.buffer
      → w.is_open l.stream.next_layer ≡ false
      → Tried (connect t w (ok (a ∷ more)) l)
  unfolding connect on_resolved
  connect-Tried a more l u o = rw (o, connect) (try_all-Tried a more l u)

  abort-of_Tried :
      (x : Result Exit × Link t) (e : ErrorCode) (found : Result (List w.Address))
      → Tried x
      → x.0 ≡ fail e
      → (connect t w found x.1).0 ≡ abort
  unfolding connect
  abort-of_Tried (ok y, l) e found h q = cc
  abort-of_Tried (fail k, l) e found (u, o) q = rw (o, connect) refl
  abort-of_Tried (abort, l) e found h q = absurd h

  -- If `connect` fails on a closed socket after the resolver gave an address, the next `connect`
  -- fails its assertion that the socket is closed, whatever the resolver answers then.
  pub connect_again :
      (a : w.Address) (more : List w.Address) (found : Result (List w.Address)) (l : Link t)
      (e : ErrorCode)
      → IsUsable l.stream.buffer
      → w.is_open l.stream.next_layer ≡ false
      → (connect t w (ok (a ∷ more)) l).0 ≡ fail e
      → (connect t w found (connect t w (ok (a ∷ more)) l).1).0 ≡ abort
  connect_again a more found l e u o q =
      abort-of_Tried (connect t w (ok (a ∷ more)) l) e found (connect-Tried a more l u o) q
