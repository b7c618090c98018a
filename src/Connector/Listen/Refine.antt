-- ===== src/Connector/Listen/Refine.antt =====
-- include/tarantool_connector/tarantool_connector.hpp and detail/tntpp_iproto_framing.h: the receive
-- loop on a stream of messages, against a connector that is given them whole.
use tntpp.Common.{
  Option, ℕ, ◌≡◌, refl, sym, ◌∙◌, List, [], ◌∷◌, ◌++◌, map, append_assoc, append-nil, subst,
}
use tntpp.Errc.{Result, ok, fail, abort}
use tntpp.Transport.{Transport, IsStream}
use tntpp.Msgpack.{Msgpack}
use tntpp.Buffer.State.{Keeps, Keeps-refl}
use tntpp.Framing.{Framing, IprotoFrame, receive_message}
use tntpp.Framing.Ready.{IsReady}
use tntpp.Framing.Transfer.{stream}
use tntpp.Framing.Bytes.{AreBytes, AreBytes-append}
use tntpp.Framing.Says.{Says, receive_message-Says}
use tntpp.Framing.Frozen.{ShowsBody, receive_message-KeepsIn, receive_message-ShowsBody}
use tntpp.Connector.{Internal}
use tntpp.Connector.Loop.{loop}
use tntpp.Connector.Live.{IsServing}
use tntpp.Connector.Listen.{listen, heard, with_round}
use tntpp.Connector.Listen.Script.{event_of, wire, Script, events, wires, ArePackets, Listens}
use tntpp.Connector.Listen.Step.{heard-Listens, broken-Listens}

module _ (t : Transport) (laws : IsStream t) (c : Msgpack) (Data : Type 0) where
  -- Let the loop be connected with no empty handler registered, let the receive buffer be well
  -- formed, and let the stream consist of bytes
  -- and start with messages, each a header and a body that is not empty, of less than 2^32 bytes.
  -- Then iterations in which requests are sent and one message each comes do what a connector does
  -- that is given the messages whole: each message calls the caller of the request with its id, if
  -- one is under way, with a frame that shows the header and the body of the message even after all
  -- iterations, and takes that request out. No assertion fails. The iterations are done when all
  -- messages were received, what follows them being left in the stream; or when a read failed
  -- although the bytes that it asked for were still to come: then every request under way is told
  -- `broken_pipe`, and none is left.
  pub listen-Listens :
      (s : Internal Data) (credentials : Option (ℕ → Data)) (self : ℕ) (fr : Framing t)
      (ps : Script t laws c Data) (rest : List ℕ)
      → IsServing s
      → IsReady fr.buffer
      → ArePackets t laws c Data ps
      → AreBytes (stream t laws fr)
      → stream t laws fr ≡ wires t laws c Data ps ++ rest
      → Listens t laws c Data s fr ps rest
          (listen t c s credentials self fr (events t laws c Data ps))
  unfolding listen heard loop
  listen-Listens s credentials self fr [] rest i d a h e =
      (refl, d, Keeps-refl fr.buffer, ([], sym (append-nil s.completions), (refl, refl, i.0, e)))
  listen-Listens s credentials self fr ((qs, p) ∷ ps) rest i d ((u, v, lt, more), a) h e =
      let q = e ∙ append_assoc (wire c p) (wires t laws c Data ps) rest in
      go (λ s1 fr1 i1 d1 h1 e1. listen-Listens s1 credentials self fr1 ps rest i1 d1 a h1 e1)
        (AreBytes-append (wire c p) (wires t laws c Data ps ++ rest) (subst AreBytes q h)).1
        (receive_message t c fr)
        (receive_message-Says t laws c fr p.head p.body (wires t laws c Data ps ++ rest) p.object
          p.header d q u v lt more)
        (receive_message-KeepsIn t laws c fr d h).1 (receive_message-ShowsBody t laws c fr d h)
    where
      go :
          ((s1 : Internal Data) (fr1 : Framing t)
            → IsServing s1
            → IsReady fr1.buffer
            → AreBytes (stream t laws fr1)
            → stream t laws fr1 ≡ wires t laws c Data ps ++ rest
            → Listens t laws c Data s1 fr1 ps rest
                (listen t c s1 credentials self fr1 (events t laws c Data ps)))
          → AreBytes (wires t laws c Data ps ++ rest)
          → (x : Result IprotoFrame × Framing t)
          → Says t laws c p.header p.body (wires t laws c Data ps ++ rest) x
          → Keeps fr.buffer x.1.buffer
          → ShowsBody t laws c x.1.buffer x.0
          → let (rs, fr') =
              with_round t c (map event_of qs) x (heard t c x.1 (events t laws c Data ps)) in
            Listens t laws c Data s fr ((qs, p) ∷ ps) rest (loop s credentials self rs, fr')
      go later b (ok f, fr1) (d1, k, m, z) keep shows =
          heard-Listens t laws c Data s credentials self fr fr1 qs p ps rest f
            (λ s1. listen t c s1 credentials self fr1 (events t laws c Data ps)) i keep k shows m
            (λ s1 i1. later s1 fr1 i1 d1 (subst AreBytes (sym z) b) z)
      go later b (fail n, fr1) (d1, x) keep shows =
          broken-Listens t laws c Data s credentials self fr fr1 qs p ps rest n i d1 keep x
      go later b (abort, fr1) x keep shows = absurd x
