-- ===== src/Connector/Listen/Script.antt =====
-- include/tarantool_connector/tarantool_connector.hpp: a connector that is given its messages whole,
-- as the specification of the receive loop.
use tntpp.Common.{ℕ, ◌^◌, ◌<◌, ◌≡◌, ◌⊎◌, Option, none, some, List, [], ◌∷◌, ◌++◌, map, length}
use tntpp.Errc.{ErrorCode, ok, fail, broken_pipe}
use tntpp.Transport.{Transport, IsStream}
use tntpp.Msgpack.{Msgpack}
use tntpp.Iproto.Header.{MessageHeader, convert}
use tntpp.Request.Frame.{frame}
use tntpp.Buffer.{MutableBuffer, frozen_bytes}
use tntpp.Buffer.State.{Keeps, IsFrozen}
use tntpp.Framing.{Framing, IprotoFrame}
use tntpp.Framing.Ready.{IsReady}
use tntpp.Framing.Transfer.{stream, ReadBreaks}
use tntpp.Connector.{
  connected, connecting, Internal, Event, sends, Handler, handler, empty, Requests, Completion,
  find, insert, remove,
}
use tntpp.Connector.Loop.{again}
use tntpp.Connector.Live.{called}
use tntpp.Connector.Listen.{After}

-- The requests under way after some were sent, each an id, its data and its caller.
abbrev pub insert_all : {Data : Type 0} → Requests → List (ℕ × Data × ℕ) → Requests
insert_all rs [] = rs
insert_all rs ((id, d, h) ∷ qs) = insert_all (insert id (handler h) rs) qs

-- The caller of the request with an id, and the requests under way after its answer.
abbrev pub live : Handler → Option ℕ
live (handler h) = some h
live empty = none

abbrev pub caller_of : ℕ → Requests → Option ℕ
caller_of id rs = elim (find id rs) [ none ↦ none | some k ↦ live k ]

abbrev pub answered : ℕ → Requests → Requests
answered id rs = elim (find id rs) [ none ↦ rs | some k ↦ remove id rs ]

module _ {Data : Type 0} where
  abbrev pub event_of : ℕ × Data × ℕ → Event Data
  event_of (id, d, h) = sends id d h

module _ (c : Msgpack) where
  -- A message as the server sends it: the bytes of its header, which unpack to an object, and the
  -- bytes of its body.
  pub record Packet : Type 0 where
    pub head : List ℕ
    pub body : List ℕ
    pub object : c.Object
    pub header : MessageHeader

  abbrev pub wire : Packet → List ℕ
  wire p = frame (p.head ++ p.body)

  abbrev pub IsPacket : Packet → Type 0
  IsPacket p =
      (c.unpack (p.head ++ p.body) ≡ some (p.object, length p.head))
      × (convert c p.object ≡ some p.header)
      × (length (p.head ++ p.body) < 2 ^ 32)
      × (0 < length p.body)

module _ (t : Transport) (laws : IsStream t) (c : Msgpack) (Data : Type 0) where
  -- What happens in each iteration: the requests that are sent, then the message that comes.
  abbrev pub Script : Type 0
  Script = List (List (ℕ × Data × ℕ) × Packet c)

  abbrev pub events : Script → List (List (Event Data))
  events ps = map (λ x. map event_of x.0) ps

  abbrev pub wires : Script → List ℕ
  wires [] = []
  wires ((qs, p) ∷ ps) = wire c p ++ wires ps

  abbrev pub ArePackets : Script → Type 0
  ArePackets [] = Unit
  ArePackets ((qs, p) ∷ ps) = IsPacket c p × ArePackets ps

  -- The calls that a message makes: that of its caller, if any, with a frame that shows it.
  abbrev pub Calls : MutableBuffer → List Completion → Option ℕ → Packet c → Type 0
  Calls m cs none p = cs ≡ []
  Calls m cs (some h) p =
      (f : IprotoFrame) × (cs ≡ record { caller = h; outcome = ok f } ∷ [])
      × (f.header ≡ p.header)
      × IsFrozen m f.body
      × (frozen_bytes m f.body ≡ p.body)

  -- A read failed although the bytes that it asked for were still to come, and all requests under way were told so.
  abbrev pub Breaks : Requests → List Completion → Internal Data → Type 0
  Breaks rs cs s =
      (e : ErrorCode) × ReadBreaks t laws e
      × (cs ≡ called rs (fail broken_pipe))
      × (s.requests ≡ [])
      × (s.state ≡ connecting)

  -- The calls that the iterations made and the state and stream that they left, from the requests
  -- that were under way. The buffer is the one at the end.
  abbrev pub Follows :
      Requests → Script → List Completion → Internal Data → Framing t → List ℕ → Type 0
  Follows rs [] cs s fr rest =
      (cs ≡ []) × (s.requests ≡ rs) × (s.state ≡ connected) × (stream t laws fr ≡ rest)
  Follows rs ((qs, p) ∷ ps) cs s fr rest =
      let rs' = insert_all rs qs in
      let id = p.header.sync in
      Breaks rs' cs s
      ⊎ ((now later : List Completion) × (cs ≡ now ++ later)
          × Calls fr.buffer now (caller_of id rs') p
          × Follows (answered id rs') ps later s fr rest)

  -- How the iterations end.
  abbrev pub Listens : Internal Data → Framing t → Script → List ℕ → After Data t → Type 0
  Listens s fr ps rest ((s', n), fr') =
      (n ≡ again)
      × IsReady fr'.buffer
      × Keeps fr.buffer fr'.buffer
      × ((cs : List Completion) × (s'.completions ≡ s.completions ++ cs)
          × Follows s.requests ps cs s' fr' rest)
