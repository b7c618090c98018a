-- ===== src/Framing/Says.antt =====
-- include/tarantool_connector/detail/tntpp_iproto_framing.h: `receive_message` on a message of a
-- header and a body.
use tntpp.Common.{
  ℕ, ◌^◌, ◌<◌, ◌≡◌, sym, ◌∙◌, inl, inr, List, ◌++◌, arith, length, length-append, drop-length, some,
}
use tntpp.Errc.{Result, ok, fail, abort}
use tntpp.Transport.{Transport, IsStream}
use tntpp.Msgpack.{Msgpack}
use tntpp.Buffer.{frozen_bytes}
use tntpp.Framing.{Framing, IprotoFrame, receive_message}
use tntpp.Framing.Ready.{IsReady}
use tntpp.Framing.Transfer.{stream, ReadBreaks}
use tntpp.Framing.Message.{header_and_body, expected, Receives, receive_message-Receives}
use tntpp.Request.Frame.{frame}
use tntpp.Iproto.Header.{MessageHeader, convert}

ok_pair :
    (h h' : MessageHeader) (b b' : List ℕ)
    → ◌≡◌ {A = Result (MessageHeader × List ℕ)} (ok (h, b)) (ok (h', b'))
    → (h ≡ h') × (b ≡ b')
ok_pair h h' b b' e = ground arith

module _ (t : Transport) (laws : IsStream t) (c : Msgpack) where
  -- `receive_message` completes with a header and a body and leaves what follows the message, or a
  -- read failed although the bytes that it asked for were still to come.
  abbrev pub Says : MessageHeader → List ℕ → List ℕ → Result IprotoFrame × Framing t → Type 0
  Says header m rest (ok f, s) =
      IsReady s.buffer
      × (f.header ≡ header)
      × (frozen_bytes s.buffer f.body ≡ m)
      × (stream t laws s ≡ rest)
  Says header m rest (fail e, s) = IsReady s.buffer × ReadBreaks t laws e
  Says header m rest (abort, s) = ⊥

  -- A message that unpacks to a header's object and goes on behind it.
  expected-append :
      (h m : List ℕ) (o : c.Object) (header : MessageHeader)
      → c.unpack (h ++ m) ≡ some (o, length h)
      → convert c o ≡ some header
      → 0 < length m
      → expected c (h ++ m) ≡ ok (header, m)
  expected-append h m o header u k lt =
      rw (u, header_and_body, k) (ground (arith, length-append h m, drop-length h m))

  pub receive_message-Says :
      (fr : Framing t) (h m rest : List ℕ) (o : c.Object) (header : MessageHeader)
      → IsReady fr.buffer
      → stream t laws fr ≡ frame (h ++ m) ++ rest
      → c.unpack (h ++ m) ≡ some (o, length h)
      → convert c o ≡ some header
      → length (h ++ m) < 2 ^ 32
      → 0 < length m
      → Says header m rest (receive_message t c fr)
  receive_message-Says fr h m rest o header d e u k lt more =
      go (receive_message t c fr) (receive_message-Receives t laws c fr (h ++ m) rest d e lt)
    where
      said : expected c (h ++ m) ≡ ok (header, m)
      said = expected-append h m o header u k more

      go :
          (r : Result IprotoFrame × Framing t)
          → Receives t laws c (h ++ m) rest r
          → Says header m rest r
      go (ok f, s) (d', x, z) =
          let (p, y) = ok_pair f.header header (frozen_bytes s.buffer f.body) m (sym x ∙ said) in
          (d', p, y, z)
      go (fail n, s) (d', inl (x, z)) = let y = sym x ∙ said in absurd (ground arith)
      go (fail n, s) (d', inr x) = (d', x)
      go (abort, s) x = let y = sym x ∙ said in absurd (ground arith)
