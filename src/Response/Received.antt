-- ===== src/Response/Received.antt =====
-- include/tarantool_connector/detail/tntpp_iproto_framing.h: the value of a response, from the bytes
-- that the server sends to what `as` gives.
use tntpp.Common.{ℕ, ◌^◌, ◌<◌, ◌≡◌, false, Option, some, List, ◌∷◌, ◌++◌, length}
use tntpp.Errc.{ErrorCode, Result, ok, fail, abort}
use tntpp.Transport.{Transport, IsStream}
use tntpp.Msgpack.{Msgpack}
use tntpp.Buffer.{frozen_bytes}
use tntpp.Framing.{Framing, IprotoFrame, receive_message}
use tntpp.Framing.Ready.{IsReady}
use tntpp.Framing.Transfer.{stream, ReadBreaks}
use tntpp.Framing.Says.{Says, receive_message-Says}
use tntpp.Request.Frame.{frame}
use tntpp.Iproto.Header.{MessageHeader, convert, is_error}
use tntpp.Response.{as_value_ec}
use tntpp.Response.Entries.{Others, value_or_error, as_value_ec-data}

module _ (t : Transport) (laws : IsStream t) (c : Msgpack) {A : Type 0}
    (read : c.Object → Option A) where
  -- The frame received gives what was expected of `as(ec)`, or a read failed
  -- although the bytes that it asked for were still to come.
  abbrev pub Returns :
      Option ErrorCode
      → Option (Option ErrorCode × Option A)
      → List ℕ
      → Result IprotoFrame × Framing t
      → Type 0
  Returns ec r rest (ok f, s) =
      (as_value_ec c read ec f.header (frozen_bytes s.buffer f.body) ≡ r) × (stream t laws s ≡ rest)
  Returns ec r rest (fail e, s) = IsReady s.buffer × ReadBreaks t laws e
  Returns ec r rest (abort, s) = ⊥

  said-Returns :
      (ec : Option ErrorCode) (r : Option (Option ErrorCode × Option A)) (header : MessageHeader)
      (m rest : List ℕ) (x : Result IprotoFrame × Framing t)
      → as_value_ec c read ec header m ≡ r
      → Says t laws c header m rest x
      → Returns ec r rest x
  said-Returns ec r header m rest (ok f, s) e (d, p, q, z) = (rw (p, q) e, z)
  said-Returns ec r header m rest (fail k, s) e h = h
  said-Returns ec r header m rest (abort, s) e h = absurd h

  -- If the server sends a message of less than 2^32 bytes that is a header, which is no error, and a
  -- map, in which an entry with the key of `Data` stands behind entries with other positive integers
  -- as keys, then, however the network cuts it up, `receive_message` completes with a frame whose
  -- `as(ec)` converts that entry as the caller asks; or a read failed although the
  -- bytes that it asked for were still to come. What follows the message is left in the stream.
  pub receive_message-Returns :
      (fr : Framing t) (ec : Option ErrorCode) (header : MessageHeader) (h m rest : List ℕ)
      (oh o key v : c.Object) (offset : ℕ) (before after : List (c.Object × c.Object))
      → IsReady fr.buffer
      → stream t laws fr ≡ frame (h ++ m) ++ rest
      → length (h ++ m) < 2 ^ 32
      → c.unpack (h ++ m) ≡ some (oh, length h)
      → convert c oh ≡ some header
      → is_error header ≡ false
      → 0 < length m
      → c.unpack m ≡ some (o, offset)
      → c.as_map o ≡ some (before ++ (key, v) ∷ after)
      → Others c 0x30 before
      → c.as_uint key ≡ some 0x30
      → Returns ec (value_or_error c read ec (read v)) rest (receive_message t c fr)
  receive_message-Returns fr ec header h m rest oh o key v offset before after d e lt u k i more w a
        others n =
      said-Returns ec (value_or_error c read ec (read v)) header m rest (receive_message t c fr)
        (as_value_ec-data c read ec header m o key v offset before after i w a others n)
        (receive_message-Says t laws c fr h m rest oh header d e u k lt more)
