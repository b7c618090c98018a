-- ===== src/Connector/Listen/Unbroken.antt =====
-- include/tarantool_connector/tarantool_connector.hpp and detail/tntpp_iproto_framing.h: the receive
-- loop on a connection that is not interrupted.
use mathlib.Core.List.{Permᴰ}
use tntpp.Common.{Option, ℕ, ◌≡◌, inl, inr, List, [], ◌∷◌, ◌++◌}
use tntpp.Errc.{ok}
use tntpp.Transport.{Transport, IsStream, IsUnbroken}
use tntpp.Msgpack.{Msgpack}
use tntpp.Buffer.{MutableBuffer, frozen_bytes}
use tntpp.Buffer.State.{IsFrozen}
use tntpp.Framing.{Framing, IprotoFrame}
use tntpp.Framing.Ready.{IsReady}
use tntpp.Framing.Transfer.{stream}
use tntpp.Framing.Bytes.{AreBytes}
use tntpp.Connector.{connected, Internal, Completion}
use tntpp.Connector.Loop.{again}
use tntpp.Connector.Live.{IsServing}
use tntpp.Connector.Order.{Distinct}
use tntpp.Connector.Listen.{listen, After}
use tntpp.Connector.Listen.Script.{events, wires, ArePackets}
use tntpp.Connector.Listen.Once.{
  Answers, script, under_way, Answered, AnswersAll, listen-AnswersAll,
}

module _ (t : Transport) (laws : IsStream t) (c : Msgpack) (Data : Type 0) where
  -- Each caller in turn is called with its own answer.
  abbrev pub AllAnswered : Answers t laws c Data → List Completion → MutableBuffer → Type 0
  AllAnswered [] cs m = cs ≡ []
  AllAnswered ((h, p) ∷ ps) cs m =
      (f : IprotoFrame) × (later : List Completion) × (cs
        ≡ record { caller = h; outcome = ok f } ∷ later)
      × (f.header ≡ p.header)
      × IsFrozen m f.body
      × (frozen_bytes m f.body ≡ p.body)
      × AllAnswered ps later m

  -- The loop is still connected, has answered everything and has read no further.
  abbrev pub Completed : Internal Data → Answers t laws c Data → List ℕ → After Data t → Type 0
  Completed s ps rest ((s', n), fr) =
      (n ≡ again)
      × (s'.state ≡ connected)
      × (s'.requests ≡ [])
      × (stream t laws fr ≡ rest)
      × ((cs : List Completion) × (s'.completions ≡ s.completions ++ cs)
          × AllAnswered ps cs fr.buffer)

  -- Nothing broke.
  abbrev Whole :
      Answers t laws c Data → List Completion → Internal Data → Framing t → List ℕ → Type 0
  Whole ps cs s fr rest =
      (s.state ≡ connected)
      × (s.requests ≡ [])
      × (stream t laws fr ≡ rest)
      × AllAnswered ps cs fr.buffer

  Answered-Whole :
      (ps : Answers t laws c Data) (cs : List Completion) (s : Internal Data) (fr : Framing t)
      (rest : List ℕ)
      → IsUnbroken t laws
      → Answered t laws c Data ps cs s fr rest
      → Whole ps cs s fr rest
  Answered-Whole [] cs s fr rest u (a, r, k, z) = (k, r, z, a)
  Answered-Whole ((h, p) ∷ ps) cs s fr rest u (inl (e, (x, x', size, least, bs, q, le), _, _, _)) =
      absurd (u.unbroken x x' size least bs e le q)
  Answered-Whole ((h, p) ∷ ps) cs s fr rest u (inr (f, later, a, b, i, m, more)) =
      let (k, r, z, w) = Answered-Whole ps later s fr rest u more in
      (k, r, z, (f, later, a, b, i, m, w))

  Completed-of_AnswersAll :
      (s : Internal Data) (fr : Framing t) (ps : Answers t laws c Data) (rest : List ℕ)
      (x : After Data t)
      → IsUnbroken t laws
      → AnswersAll t laws c Data s fr ps rest x
      → Completed s ps rest x
  Completed-of_AnswersAll s fr ps rest ((s', n), fr') u (a, (cs, z, w)) =
      let (k, r, y, v) = Answered-Whole ps cs s' fr' rest u w in (a, k, r, y, (cs, z, v))

  -- On a connection that is not interrupted, let the loop be connected, with requests under way that
  -- have distinct ids and handlers that were not called, let the receive buffer be well formed, and
  -- let the stream consist of bytes and start with an answer to each of them, in any order, each a header with the id of its request and
  -- a body that is not empty, of less than 2^32 bytes. Then as many iterations as there are answers,
  -- in which nothing else happens, call each caller exactly once, in the order of the answers and
  -- with its own answer, and no other; every frame shows its header and body even at the end. The
  -- loop goes on, connected, with no request under way, and what follows the answers is left in the
  -- stream.
  pub listen-Completed :
      (s : Internal Data) (credentials : Option (ℕ → Data)) (self : ℕ) (fr : Framing t)
      (ps : Answers t laws c Data) (rest : List ℕ)
      → IsUnbroken t laws
      → IsServing s
      → Distinct s.requests
      → Permᴰ s.requests (under_way t laws c Data ps)
      → IsReady fr.buffer
      → ArePackets t laws c Data (script t laws c Data ps)
      → AreBytes (stream t laws fr)
      → stream t laws fr ≡ wires t laws c Data (script t laws c Data ps) ++ rest
      → Completed s ps rest
          (listen t c s credentials self fr (events t laws c Data (script t laws c Data ps)))
  listen-Completed s credentials self fr ps rest u i d q r a h e =
      Completed-of_AnswersAll s fr ps rest
        (listen t c s credentials self fr (events t laws c Data (script t laws c Data ps))) u
        (listen-AnswersAll t laws c Data s credentials self fr ps rest i d q r a h e)
