-- ===== src/Connection/Session.antt =====
-- include/tarantool_connector/connection.h and detail/tntpp_iproto_framing.h: a connection through
-- the connects and receives of the receive loop.

mod Tests
use tntpp.Common.{
  ℕ, zero, suc, ◌≡◌, sym, ◌∙◌, subst, inl, inr, Option, none, some, List, [], ◌∷◌, ◌++◌,
}
use tntpp.Errc.{ErrorCode, Result, ok, fail, abort}
use tntpp.Transport.{Transport, IsStream}
use tntpp.Msgpack.{Msgpack}
use tntpp.Buffer.{MutableBuffer, FrozenBuffer, contents, frozen_bytes}
use tntpp.Buffer.State.{Keeps, Keeps-refl, Keeps-trans, IsFrozen, frozen_bytes-Keeps}
use tntpp.Framing.{Framing, IprotoFrame, receive_message}
use tntpp.Framing.Ready.{IsReady}
use tntpp.Framing.Transfer.{stream}
use tntpp.Framing.Bytes.{AreBytes, AreBytes-append}
use tntpp.Framing.Survives.{Survives, receive_message-Survives}
use tntpp.Framing.Keeps.{KeepsIn}
use tntpp.Framing.Frozen.{ShowsBody, receive_message-KeepsIn, receive_message-ShowsBody}
use tntpp.Connection.Connect.{Network, Link, Exit, completes, throws, connect}
use tntpp.Connection.Connect.Keeps.{Settles, connect-Settles}

-- Bodies of frames, each with the bytes that it showed when the frame was handed out.
abbrev pub Handed : Type 0
Handed = List (FrozenBuffer × List ℕ)

-- They show these bytes.
abbrev pub Shown : MutableBuffer → Handed → Type 0
Shown m [] = Unit
Shown m ((f, bs) ∷ hs) = IsFrozen m f × (frozen_bytes m f ≡ bs) × Shown m hs

Shown-Keeps : (m m' : MutableBuffer) (hs : Handed) → Keeps m m' → Shown m hs → Shown m' hs
Shown-Keeps m m' [] k s = tt
Shown-Keeps m m' ((f, bs) ∷ hs) k (i, e, s) =
    let (i', e') = frozen_bytes-Keeps m m' f k i in (i', e' ∙ e, Shown-Keeps m m' hs k s)

Shown-append : (m : MutableBuffer) (hs ks : Handed) → Shown m hs → Shown m ks → Shown m (hs ++ ks)
Shown-append m [] ks s z = z
Shown-append m ((f, bs) ∷ hs) ks (i, e, s) z = (i, e, Shown-append m hs ks s z)

module _ (t : Transport) (c : Msgpack) where
  -- What is handed out, before what follows a frame.
  abbrev pub hand_out : Result IprotoFrame × Framing t → Framing t × Handed → Framing t × Handed
  hand_out (ok f, s) (fr, hs) = (fr, (f.body, frozen_bytes s.buffer f.body) ∷ hs)
  hand_out (fail e, s) rest = (s, [])
  hand_out (abort, s) rest = (s, [])

  -- Messages are received, at most so many, until a `receive_message` does not give a frame.
  unfoldable pub receive_while : ℕ → Framing t → Framing t × Handed
  receive_while zero fr = (fr, [])
  receive_while (suc n) fr =
      let x = receive_message t c fr in let rest = receive_while n x.1 in hand_out x rest

  module _ (w : Network t) where
    -- `stop`, as the reset after the last message calls it.
    abbrev pub hang_up : Link t → Framing t → Link t
    hang_up l fr = record l { stream = record fr { next_layer = w.close fr.next_layer } }

    -- What follows `connect`, if it completes or throws: either way the loop resets.
    abbrev pub hung_up : Result Exit × Link t → Framing t × Handed → Link t × Handed
    hung_up (ok completes, l) (fr, hs) = (hang_up l fr, hs)
    hung_up (ok (throws e), l) received = (hang_up l l.stream, [])
    hung_up (fail e, l) received = (l, [])
    hung_up (abort, l) received = (l, [])

    -- The loop connects, with an answer of the resolver, and receives if that succeeds.
    unfoldable pub connected_once : Link t → Result (List w.Address) × ℕ → Link t × Handed
    unfolding receive_while
    connected_once l (found, n) =
        let x = connect t w found l in
        let received = receive_while n x.1.stream in hung_up x received

    unfoldable pub session : Link t → List (Result (List w.Address) × ℕ) → Link t × Handed
    unfolding connected_once
    session l [] = (l, [])
    session l (x ∷ xs) =
        let (l', hs) = connected_once l x in let (l'', ks) = session l' xs in (l'', hs ++ ks)

module _ (t : Transport) (laws : IsStream t) (c : Msgpack) where
  -- The buffer is well formed, written bytes have stayed, and what was handed out is shown.
  abbrev pub Stays : MutableBuffer → MutableBuffer → Handed → Type 0
  Stays m m' hs = IsReady m' × Keeps m m' × Shown m' hs

  -- After a frame the rest of the stream consists of bytes.
  rest-AreBytes :
      (whole : List ℕ) (f : IprotoFrame) (s : Framing t)
      → AreBytes whole
      → Survives t laws c whole (ok f, s)
      → AreBytes (stream t laws s)
  rest-AreBytes whole f s h (d, (before, msg, e, x)) =
      let b = AreBytes-append before (msg ++ stream t laws s) (subst AreBytes e h) in
      (AreBytes-append msg (stream t laws s) b.1).1

  receive_while-Stays :
      (n : ℕ) (fr : Framing t)
      → IsReady fr.buffer
      → AreBytes (stream t laws fr)
      → let (fr', hs) = receive_while t c n fr in Stays fr.buffer fr'.buffer hs
  unfolding receive_while
  receive_while-Stays zero fr d h = (d, Keeps-refl fr.buffer, tt)
  receive_while-Stays (suc n) fr d h =
      go (λ s d' h'. receive_while-Stays n s d' h') (receive_message t c fr)
        (receive_message-Survives t laws c fr d h) (receive_message-KeepsIn t laws c fr d h)
        (receive_message-ShowsBody t laws c fr d h)
    where
      go :
          ((s : Framing t)
            → IsReady s.buffer
            → AreBytes (stream t laws s)
            → let (s', hs) = receive_while t c n s in Stays s.buffer s'.buffer hs)
          → (x : Result IprotoFrame × Framing t) → Survives t laws c (stream t laws fr) x
          → KeepsIn t laws fr.buffer x
          → ShowsBody t laws c x.1.buffer x.0
          → let (fr', hs) = hand_out t c x (receive_while t c n x.1) in
            Stays fr.buffer fr'.buffer hs
      go later (ok f, s) v (d', k) i =
          let (d'', k', shown) = later s d' (rest-AreBytes (stream t laws fr) f s h v) in
          let m = (receive_while t c n s).0.buffer in
          let (i', e) = frozen_bytes-Keeps s.buffer m f.body k' i in
          (d'', Keeps-trans fr.buffer s.buffer m k k', (i', e, shown))
      go later (fail e, s) v (d', k) i = (d', k, tt)
      go later (abort, s) v (d', k) i = (d', k, tt)

  module _ (w : Network t) where
    -- If `connect` succeeds, nothing is in the buffer and all that comes is what the peer sends.
    hung_up-Stays :
        (n : ℕ) (m : MutableBuffer) (x : Result Exit × Link t)
        → ((s : t.Socket) → AreBytes (laws.pending s))
        → Settles t m x
        → let (l, hs) = hung_up t c w x (receive_while t c n x.1.stream) in
          Stays m l.stream.buffer hs
    hung_up-Stays n m (ok (throws e), l) b (d, k) = (d, k, tt)
    hung_up-Stays n m (ok completes, l) b (d, k, e) =
        let whole : AreBytes (stream t laws l.stream) =
          subst (λ bs. AreBytes (bs ++ laws.pending l.stream.next_layer)) (sym e)
            (b l.stream.next_layer) in
        let (d', k', shown) = receive_while-Stays n l.stream d whole in
        (d', Keeps-trans m l.stream.buffer (receive_while t c n l.stream).0.buffer k k', shown)
    hung_up-Stays n m (fail e, l) b (d, k) = (d, k, tt)
    hung_up-Stays n m (abort, l) b (d, k) = (d, k, tt)

    connected_once-Stays :
        (l : Link t) (x : Result (List w.Address) × ℕ)
        → ((s : t.Socket) → AreBytes (laws.pending s))
        → IsReady l.stream.buffer
        → let (l', hs) = connected_once t c w l x in Stays l.stream.buffer l'.stream.buffer hs
    unfolding connected_once
    connected_once-Stays l (found, n) b d =
        hung_up-Stays n l.stream.buffer (connect t w found l) b (connect-Settles t w found l d)

    -- From a well-formed buffer, in any sequence of connections, each made with any answer of the resolver and used for any
    -- number of receives until one does not give a frame, let the peers send bytes. Then the buffer
    -- stays well formed, and the body of every frame that was handed out shows at the end the bytes
    -- that it showed when it was handed out, whatever was received and cleared, and whichever
    -- connects failed, in between.
    pub session-Stays :
        (l : Link t) (xs : List (Result (List w.Address) × ℕ))
        → ((s : t.Socket) → AreBytes (laws.pending s))
        → IsReady l.stream.buffer
        → let (l', hs) = session t c w l xs in Stays l.stream.buffer l'.stream.buffer hs
    unfolding session
    session-Stays l [] b d = (d, Keeps-refl l.stream.buffer, tt)
    session-Stays l (x ∷ xs) b d =
        let (l1, hs) = connected_once t c w l x in
        let (d1, k1, s1) = connected_once-Stays l x b d in
        let (l2, ks) = session t c w l1 xs in
        let (d2, k2, s2) = session-Stays l1 xs b d1 in
        let m2 = l2.stream.buffer in
        (
          d2,
          Keeps-trans l.stream.buffer l1.stream.buffer m2 k1 k2,
          Shown-append m2 hs ks (Shown-Keeps l1.stream.buffer m2 hs k2 s1) s2,
        )
