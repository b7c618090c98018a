-- ===== src/Framing/Survives.antt =====
-- include/tarantool_connector/detail/tntpp_iproto_framing.h: `receive_message` on a stream that need
-- not hold a message.
use tntpp.Common.{ℕ, ◌^◌, ◌<◌, ◌≡◌, ◌⊎◌, inl, inr, List, ◌++◌, ap, ◌∙◌, arith}
use tntpp.Coroutine.{continue}
use tntpp.Errc.{Result, ok, fail, abort, message_size}
use tntpp.Transport.{Transport, IsStream}
use tntpp.Msgpack.{Msgpack}
use tntpp.Buffer.{FrozenBuffer, frozen_bytes}
use tntpp.Framing.{
  Framing, IprotoFrame, transfer_exactly, read_message_length, parse_object, parse_message,
  receive_message,
}
use tntpp.Framing.Ready.{IsReady}
use tntpp.Framing.Transfer.{
  stream, ReadFails, FailsAt-ReadFails, Transferred, transfer_exactly-Transferred,
}
use tntpp.Framing.Message.{expected, Matches, parse_object-Matches}
use tntpp.Iproto.Header.{MessageHeader}
use tntpp.Framing.Bytes.{AreBytes, IsRest}
use tntpp.Framing.Bounds.{Ends, IsLength, read_message_length-Ends}

module _ (t : Transport) (laws : IsStream t) (c : Msgpack) where
  -- A message that says this stands in the bytes `whole`, right before what is left.
  abbrev pub Said : List ℕ → Framing t → Result (MessageHeader × List ℕ) → Type 0
  Said whole s r =
      (before msg : List ℕ) × (whole ≡ before ++ (msg ++ stream t laws s)) × (expected c msg ≡ r)

  -- How `receive_message` ends: with what a message says, with `message_size`, or with the error of
  -- a read.
  abbrev pub Survives : List ℕ → Result IprotoFrame × Framing t → Type 0
  Survives whole (ok f, s) =
      IsReady s.buffer × Said whole s (ok (f.header, frozen_bytes s.buffer f.body))
  Survives whole (fail e, s) =
      IsReady s.buffer × ((e ≡ message_size) ⊎ ReadFails t laws e ⊎ Said whole s (fail e))
  Survives whole (abort, s) = Said whole s abort

  said-Survives :
      (whole before msg : List ℕ) (s : Framing t) (r : Result IprotoFrame)
      → IsReady s.buffer
      → whole ≡ before ++ (msg ++ stream t laws s)
      → Matches c s.buffer r (expected c msg)
      → Survives whole (r, s)
  said-Survives whole before msg s (ok f) d e m = (d, (before, msg, e, m))
  said-Survives whole before msg s (fail k) d e m = (d, inr (inr (before, msg, e, m)))
  said-Survives whole before msg s abort d e m = (before, msg, e, m)

  parse_message-Survives :
      (whole : List ℕ) (s : Framing t) (n : ℕ)
      → IsReady s.buffer
      → n < 2 ^ 32
      → IsRest whole (stream t laws s)
      → Survives whole (continue (transfer_exactly t n s) (parse_message t c))
  unfolding parse_message
  parse_message-Survives whole s n d lt (_, before, h) =
      go (transfer_exactly t n s) (transfer_exactly-Transferred t laws s n d (omega arith))
    where
      go :
          (r : Result FrozenBuffer × Framing t)
          → Transferred t laws s n r
          → Survives whole (continue r (parse_message t c))
      go (ok f, s') (d', i, q, k, z) =
          let bs = frozen_bytes s'.buffer f in
          said-Survives whole before bs s' (parse_object c f (c.unpack bs)) d'
            (h ∙ ap (λ l. before ++ l) q)
            (parse_object-Matches c s'.buffer f (c.unpack bs) (omega (arith, k, z)))
      go (fail e, s') (d', x, y) = (d', inr (inl (FailsAt-ReadFails t laws s n e y)))
      go (abort, s') x = absurd x

  -- On any stream of bytes `receive_message` completes with a frame that shows the header and the
  -- body that a message in the stream says, or with the error that such a message calls for, what
  -- follows the message being left; or with `message_size`, or with the error of a read that failed.
  -- The buffer stays well formed. An assertion fails only if such a message calls for it.
  pub receive_message-Survives :
      (fr : Framing t)
      → IsReady fr.buffer
      → AreBytes (stream t laws fr)
      → Survives (stream t laws fr) (receive_message t c fr)
  unfolding receive_message
  receive_message-Survives fr d h =
      go (read_message_length t fr) (read_message_length-Ends t laws fr d h)
    where
      go :
          (r : Result ℕ × Framing t)
          → Ends t laws (stream t laws fr) (IsLength t laws (stream t laws fr)) r
          → Survives
              (stream t laws fr)
              (continue r (λ n. (λ s. continue (transfer_exactly t n s) (parse_message t c))))
      go (ok n, s) (d', p, h') = parse_message-Survives (stream t laws fr) s n d' p h'
      go (fail e, s) (d', inl x) = (d', inl x)
      go (fail e, s) (d', inr x) = (d', inr (inl x))
      go (abort, s) x = absurd x
