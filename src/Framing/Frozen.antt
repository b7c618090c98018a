-- ===== src/Framing/Frozen.antt =====
-- include/tarantool_connector/detail/tntpp_iproto_framing.h: the frozen buffers of the messages
-- that were received, while the framing goes on.
use tntpp.Common.{
  Option, none, some, ltb, Option-cases, ℕ, ◌-◌, ◌^◌, ◌<◌, inl, inr, List, arith, Bool-cases,
}
use tntpp.Errc.{Result, ok, fail, abort}
use tntpp.Coroutine.{continue}
use tntpp.Transport.{Transport, IsStream}
use tntpp.Msgpack.{Msgpack}
use tntpp.Buffer.{slice_frozen, MutableBuffer, FrozenBuffer, frozen_bytes}
use tntpp.Buffer.State.{Keeps-refl, Keeps-trans, IsFrozen}
use tntpp.Buffer.Transfer.{tail_of, frozen_bytes-slice_frozen}
use tntpp.Iproto.Header.{MessageHeader, convert}
use tntpp.Framing.{
  make_frame, parse_object, Framing, IprotoFrame, transfer_exactly, read_message_length,
  parse_message, receive_message,
}
use tntpp.Framing.Ready.{IsReady}
use tntpp.Framing.Transfer.{stream, Transferred, transfer_exactly-Transferred}
use tntpp.Framing.Keeps.{
  KeepsIn, IsKeeping, bind-IsKeeping, transfer_exactly-IsKeeping, read_message_length-IsKeeping,
}
use tntpp.Framing.Bytes.{AreBytes}
use tntpp.Framing.Bounds.{Ends, IsLength, read_message_length-Ends}

module _ (t : Transport) (laws : IsStream t) (c : Msgpack) where
  parse_message-IsKeeping : (f : FrozenBuffer) → IsKeeping t laws (parse_message t c f)
  unfolding parse_message
  parse_message-IsKeeping f = record { keeps = λ fr d. (d, Keeps-refl fr.buffer) }

  -- The bytes of the message, of which there are less than 2^32.
  message-KeepsIn :
      (whole : List ℕ) (m : MutableBuffer) (x : Result ℕ × Framing t)
      → Ends t laws whole (IsLength t laws whole) x
      → KeepsIn t laws m x
      → KeepsIn t laws m
          (continue x (λ n. (λ s. continue (transfer_exactly t n s) (parse_message t c))))
  message-KeepsIn whole m (ok n, s) (_, lt, _) (d, k) =
      let (d', k') =
        (bind-IsKeeping t laws (transfer_exactly-IsKeeping t laws n (omega arith))
            parse_message-IsKeeping).keeps
          s d in
      (
        d',
        Keeps-trans m s.buffer (continue (transfer_exactly t n s) (parse_message t c)).1.buffer k
            k',
      )
  message-KeepsIn whole m (fail e, s) h k = k
  message-KeepsIn whole m (abort, s) h k = absurd h

  pub receive_message-KeepsIn :
      (fr : Framing t)
      → IsReady fr.buffer
      → AreBytes (stream t laws fr)
      → KeepsIn t laws fr.buffer (receive_message t c fr)
  unfolding receive_message
  receive_message-KeepsIn fr d h =
      message-KeepsIn (stream t laws fr) fr.buffer (read_message_length t fr)
        (read_message_length-Ends t laws fr d h) ((read_message_length-IsKeeping t laws).keeps fr d)

  -- The body of the frame, if any, shows written bytes.
  abbrev pub ShowsBody : MutableBuffer → Result IprotoFrame → Type 0
  ShowsBody m (ok f) = IsFrozen m f.body
  ShowsBody m (fail e) = Unit
  ShowsBody m abort = Unit

  tail_of-IsFrozen :
      (m : MutableBuffer) (f : FrozenBuffer) (k : ℕ)
      → IsFrozen m f
      → k < f.size
      → IsFrozen m (tail_of f k)
  tail_of-IsFrozen m f k i lt = go f.buf i
    where
      go :
          (b : Option ℕ)
          → IsFrozen m (record f { buf = b })
          → IsFrozen m (tail_of (record f { buf = b }) k)
      go none i = tt
      go (some a) i = ground (arith, i)

  make_frame-ShowsBody :
      (m : MutableBuffer) (f : FrozenBuffer) (h : MessageHeader) (k : ℕ)
      → IsFrozen m f
      → ShowsBody m (make_frame h (slice_frozen f k (2 ^ 64 - 1)))
  unfolding make_frame
  make_frame-ShowsBody m f h k i =
      let (s, _) = frozen_bytes-slice_frozen m f k in
      elim (Bool-cases (ltb k f.size)) [
        | inl e ↦ rw (s, e, make_frame) (tail_of-IsFrozen m f k i (ground arith))
        | inr e ↦ rw (s, e, make_frame) tt
      ]

  parse_object-ShowsBody :
      (m : MutableBuffer) (f : FrozenBuffer) (r : Option (c.Object × ℕ))
      → IsFrozen m f
      → ShowsBody m (parse_object c f r)
  unfolding parse_object
  parse_object-ShowsBody m f none i = tt
  parse_object-ShowsBody m f (some (o, k)) i = elim (Option-cases (convert c o)) [
    | inl e ↦ rw (e, parse_object) tt
    | inr (h, e) ↦ rw (e, parse_object) (make_frame-ShowsBody m f h k i)
  ]

  parse_message-ShowsBody :
      (n : ℕ) (s : Framing t) (r : Result FrozenBuffer × Framing t)
      → Transferred t laws s n r
      → let (x, s') = continue r (parse_message t c) in ShowsBody s'.buffer x
  unfolding parse_message
  parse_message-ShowsBody n s (ok f, s') h =
      parse_object-ShowsBody s'.buffer f (c.unpack (frozen_bytes s'.buffer f)) h.1
  parse_message-ShowsBody n s (fail e, s') h = tt
  parse_message-ShowsBody n s (abort, s') h = tt

  message-ShowsBody :
      (whole : List ℕ) (x : Result ℕ × Framing t)
      → Ends t laws whole (IsLength t laws whole) x
      → let (r, s) =
          continue x (λ n. (λ s. continue (transfer_exactly t n s) (parse_message t c))) in
        ShowsBody s.buffer r
  message-ShowsBody whole (ok n, s) (d, lt, _) =
      parse_message-ShowsBody n s (transfer_exactly t n s)
        (transfer_exactly-Transferred t laws s n d (omega arith))
  message-ShowsBody whole (fail e, s) h = tt
  message-ShowsBody whole (abort, s) h = tt

  pub receive_message-ShowsBody :
      (fr : Framing t)
      → IsReady fr.buffer
      → AreBytes (stream t laws fr)
      → let (r, s) = receive_message t c fr in ShowsBody s.buffer r
  unfolding receive_message
  receive_message-ShowsBody fr d h =
      message-ShowsBody (stream t laws fr) (read_message_length t fr)
        (read_message_length-Ends t laws fr d h)
