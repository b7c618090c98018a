-- ===== src/Framing/Message.antt =====
-- include/tarantool_connector/detail/tntpp_iproto_framing.h: `receive_message`, one message of the
-- stream.
use tntpp.Common.{
  ℕ, ◌-◌, ◌^◌, ◌<◌, ◌≡◌, refl, sym, ap, subst, ◌∙◌, ◌⊎◌, inl, inr, Option, none, some, List, ◌++◌,
  arith, ltb, if◌then◌else◌, Bool-cases, Option-cases, length, drop, be_value-be32,
  append-injective,
}
use tntpp.Coroutine.{continue}
use tntpp.Errc.{Result, ok, fail, abort, illegal_byte_sequence, state_not_recoverable}
use tntpp.Transport.{Transport, IsStream}
use tntpp.Msgpack.{Msgpack}
use tntpp.Iproto.Header.{MessageHeader, convert}
use tntpp.Request.Frame.{frame}
use tntpp.Buffer.{MutableBuffer, FrozenBuffer, frozen_bytes, slice_frozen}
use tntpp.Buffer.Transfer.{frozen_bytes-slice_frozen}
use tntpp.Framing.{
  Framing, IprotoFrame, transfer_exactly, read_message_length, make_frame, parse_object,
  parse_message, receive_message,
}
use tntpp.Framing.Ready.{IsReady}
use tntpp.Framing.Transfer.{
  stream, ReadBreaks, FailsAt-ReadBreaks, Transferred, transfer_exactly-Transferred,
}
use tntpp.Framing.Length.{msgpack_uint, Completes, Leaves, read_message_length-Completes}

uint-frame :
    (msg rest : List ℕ)
    → length msg < 2 ^ 32
    → msgpack_uint (frame msg ++ rest) ≡ some (length msg, msg ++ rest)
unfolding msgpack_uint
uint-frame msg rest lt = ground (arith, be_value-be32 (length msg) lt)

module _ (c : Msgpack) where
  open c use {Object, unpack}

  -- What a message says: its header and the bytes behind it, or why it is refused. A message of
  -- nothing but a header is a failed assertion.
  abbrev pub header_and_body : List ℕ → Option (Object × ℕ) → Result (MessageHeader × List ℕ)
  header_and_body msg none = fail state_not_recoverable
  header_and_body msg (some (o, k)) = elim (convert c o) [
    | none ↦ fail illegal_byte_sequence
    | some h ↦ if ltb k (length msg) then ok (h, drop k msg) else abort
  ]

  abbrev pub expected : List ℕ → Result (MessageHeader × List ℕ)
  expected msg = header_and_body msg (unpack msg)

  -- A frame against what was expected.
  abbrev pub Matches : MutableBuffer → Result IprotoFrame → Result (MessageHeader × List ℕ) → Type 0
  Matches m (ok f) r = r ≡ ok (f.header, frozen_bytes m f.body)
  Matches m (fail e) r = r ≡ fail e
  Matches m abort r = r ≡ abort

  make_frame-Matches :
      (m : MutableBuffer) (f : FrozenBuffer) (h : MessageHeader) (k : ℕ)
      → Matches m
          (make_frame h (slice_frozen f k (2 ^ 64 - 1)))
          (if ltb k f.size then ok (h, drop k (frozen_bytes m f)) else abort)
  unfolding make_frame
  make_frame-Matches m f h k =
      let (s, b) = frozen_bytes-slice_frozen m f k in
      elim (Bool-cases (ltb k f.size)) [
        | inl e ↦ rw (s, e, make_frame) (ap (λ l. ok (h, l)) (sym b))
        | inr e ↦ rw (s, e, make_frame) refl
      ]

  pub parse_object-Matches :
      (m : MutableBuffer) (f : FrozenBuffer) (r : Option (Object × ℕ))
      → length (frozen_bytes m f) ≡ f.size
      → Matches m (parse_object c f r) (header_and_body (frozen_bytes m f) r)
  unfolding parse_object
  parse_object-Matches m f none l = refl
  parse_object-Matches m f (some (o, k)) l = elim (Option-cases (convert c o)) [
    | inl e ↦ rw (e, parse_object, header_and_body) refl
    | inr (h, e) ↦ rw (e, parse_object, header_and_body, l) (make_frame-Matches m f h k)
  ]

module _ (t : Transport) (laws : IsStream t) (c : Msgpack) where
  -- How `receive_message` ends on a stream that starts with the frame of a message.
  abbrev pub Receives : List ℕ → List ℕ → Result IprotoFrame × Framing t → Type 0
  Receives msg rest (ok f, s) =
      IsReady s.buffer
      × (expected c msg ≡ ok (f.header, frozen_bytes s.buffer f.body))
      × (stream t laws s ≡ rest)
  Receives msg rest (fail e, s) =
      IsReady s.buffer
      × (((expected c msg ≡ fail e) × (stream t laws s ≡ rest)) ⊎ ReadBreaks t laws e)
  Receives msg rest (abort, s) = expected c msg ≡ abort

  matched :
      (msg rest : List ℕ) (s : Framing t) (r : Result IprotoFrame)
      → IsReady s.buffer
      → stream t laws s ≡ rest
      → Matches c s.buffer r (expected c msg)
      → Receives msg rest (r, s)
  matched msg rest s (ok f) d e m = (d, m, e)
  matched msg rest s (fail k) d e m = (d, inl (m, e))
  matched msg rest s abort d e m = m

  parse_message-Receives :
      (msg rest : List ℕ) (s : Framing t)
      → IsReady s.buffer
      → stream t laws s ≡ msg ++ rest
      → length msg < 2 ^ 32
      → Receives msg rest (continue (transfer_exactly t (length msg) s) (parse_message t c))
  unfolding parse_message
  parse_message-Receives msg rest s d e lt =
      go (transfer_exactly t (length msg) s)
        (transfer_exactly-Transferred t laws s (length msg) d (omega arith))
    where
      go :
          (r : Result FrozenBuffer × Framing t)
          → Transferred t laws s (length msg) r
          → Receives msg rest (continue r (parse_message t c))
      go (ok f, s') (d', i, q, k, z) =
          let (p, w) = append-injective (frozen_bytes s'.buffer f) msg _ rest (sym q ∙ e) k in
          matched msg rest s' (parse_object c f (c.unpack (frozen_bytes s'.buffer f))) d' w (
            subst
              (λ b.
                Matches c s'.buffer (parse_object c f (c.unpack (frozen_bytes s'.buffer f)))
                  (header_and_body c b (c.unpack b)))
              p
              (parse_object-Matches c s'.buffer f (c.unpack (frozen_bytes s'.buffer f))
                (k ∙ sym z)))
      go (fail k, s') (d', x, y) =
          (d', inr (FailsAt-ReadBreaks t laws s msg rest (length msg) k d e refl y))
      go (abort, s') h = absurd h

  -- On a stream that starts with the frame of a message of less than 2^32 bytes, however the
  -- network cuts it up, `receive_message` completes with the header and the body that the message
  -- says and leaves what follows the frame; or with the error that the message calls for, what
  -- follows the frame being left; or with the error of a read that failed although the bytes that it
  -- asked for were still to come. An assertion fails only
  -- for a message that ends with its header.
  pub receive_message-Receives :
      (fr : Framing t) (msg rest : List ℕ)
      → IsReady fr.buffer
      → stream t laws fr ≡ frame msg ++ rest
      → length msg < 2 ^ 32
      → Receives msg rest (receive_message t c fr)
  unfolding receive_message
  receive_message-Receives fr msg rest d e lt = go (read_message_length t fr) (
      read_message_length-Completes t laws fr 0xce (length msg) _ (msg ++ rest) d e
        (λ h. absurd (omega arith)) (uint-frame msg rest lt) lt)
    where
      go :
          (r : Result ℕ × Framing t)
          → Completes t laws (Leaves t laws (length msg) (msg ++ rest)) r
          → Receives msg rest
              (continue r (λ n. (λ s. continue (transfer_exactly t n s) (parse_message t c))))
      go (ok n, s) (d', (p, q)) = rw p (parse_message-Receives msg rest s d' q lt)
      go (fail k, s) (d', x) = (d', inr x)
      go (abort, s) h = absurd h
