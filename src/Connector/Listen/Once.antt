-- ===== src/Connector/Listen/Once.antt =====
-- include/tarantool_connector/tarantool_connector.hpp and detail/tntpp_iproto_framing.h: the receive
-- loop on the answers to the requests under way.
use mathlib.Core.List.{Permᴰ}
use tntpp.Common.{
  Option, ℕ, ◌≡◌, refl, sym, ap, subst, ◌∙◌, inl, inr, ◌⊎◌, some, List, [], ◌∷◌, ◌++◌, map, arith,
}
use tntpp.Errc.{ErrorCode, ok, fail, broken_pipe}
use tntpp.Transport.{Transport, IsStream}
use tntpp.Msgpack.{Msgpack}
use tntpp.Buffer.{frozen_bytes}
use tntpp.Buffer.State.{IsFrozen}
use tntpp.Framing.{Framing, IprotoFrame}
use tntpp.Framing.Ready.{IsReady}
use tntpp.Framing.Transfer.{stream, ReadBreaks}
use tntpp.Framing.Bytes.{AreBytes}
use tntpp.Connector.{connected, connecting, Internal, handler, Requests, Completion, find, remove}
use tntpp.Connector.Loop.{again}
use tntpp.Connector.Live.{called, IsServing}
use tntpp.Connector.Order.{Distinct, find-Perm, remove-Perm, Distinct-remove, called-Perm}
use tntpp.Connector.Listen.{listen, After}
use tntpp.Connector.Listen.Script.{
  caller_of, answered, Packet, Script, events, wires, ArePackets, Follows, Listens,
}
use tntpp.Connector.Listen.Refine.{listen-Listens}

Perm-nil : (rs : Requests) → Permᴰ rs [] → Distinct rs → rs ≡ []
Perm-nil [] q d = refl
Perm-nil ((j, h) ∷ rs) q d = let e = (find-Perm q d).1 j in absurd (ground arith)

module _ (t : Transport) (laws : IsStream t) (c : Msgpack) (Data : Type 0) where
  -- The callers of some requests, each with the answer that the server sends, which has the id of
  -- the request.
  abbrev pub Answers : Type 0
  Answers = List (ℕ × Packet c)

  -- Nothing is sent meanwhile.
  abbrev pub script : Answers → Script t laws c Data
  script ps = map (λ x. ([], x.1)) ps

  abbrev pub under_way : Answers → Requests
  under_way ps = map (λ x. (x.1.header.sync, handler x.0)) ps

  abbrev pub all_broken : Answers → List Completion
  all_broken ps = map (λ x. record { caller = x.0; outcome = fail broken_pipe }) ps

  -- The calls made: each caller in turn is called with its own answer, until a read fails; then
  -- those left, in whatever order, are called with `broken_pipe`.
  abbrev pub Answered : Answers → List Completion → Internal Data → Framing t → List ℕ → Type 0
  Answered [] cs s fr rest =
      (cs ≡ []) × (s.requests ≡ []) × (s.state ≡ connected) × (stream t laws fr ≡ rest)
  Answered ((h, p) ∷ ps) cs s fr rest =
      ((e : ErrorCode) × ReadBreaks t laws e
        × Permᴰ cs (all_broken ((h, p) ∷ ps))
        × (s.requests ≡ [])
        × (s.state ≡ connecting))
      ⊎ ((f : IprotoFrame) × (later : List Completion) × (cs
            ≡ record { caller = h; outcome = ok f } ∷ later)
          × (f.header ≡ p.header)
          × IsFrozen fr.buffer f.body
          × (frozen_bytes fr.buffer f.body ≡ p.body)
          × Answered ps later s fr rest)

  called-under_way : (ps : Answers) → called (under_way ps) (fail broken_pipe) ≡ all_broken ps
  called-under_way [] = refl
  called-under_way ((h, p) ∷ ps) =
      ap (λ l. record { caller = h; outcome = fail broken_pipe } ∷ l) (called-under_way ps)

  find-under_way :
      (h : ℕ) (p : Packet c) (ps : Answers)
      → find p.header.sync (under_way ((h, p) ∷ ps)) ≡ some (handler h)
  find-under_way h p ps = ground arith

  remove-under_way :
      (h : ℕ) (p : Packet c) (ps : Answers)
      → remove p.header.sync (under_way ((h, p) ∷ ps)) ≡ under_way ps
  unfolding remove
  remove-under_way h p ps = ground arith

  Answered-of_Follows :
      (rs : Requests) (ps : Answers) (cs : List Completion) (s : Internal Data) (fr : Framing t)
      (rest : List ℕ)
      → Permᴰ rs (under_way ps)
      → Distinct rs
      → Follows t laws c Data rs (script ps) cs s fr rest
      → Answered ps cs s fr rest
  Answered-of_Follows rs [] cs s fr rest q d (a, b, k, z) = (a, b ∙ Perm-nil rs q d, k, z)
  Answered-of_Follows rs ((h, p) ∷ ps) cs s fr rest q d (inl (e, x, k, r, z)) = inl (
    e,
    x,
    subst (λ l. Permᴰ l (all_broken ((h, p) ∷ ps))) (sym k)
        (subst (Permᴰ (called rs (fail broken_pipe))) (called-under_way ((h, p) ∷ ps))
          (called-Perm (fail broken_pipe) q)),
    r,
    z,
  )
  Answered-of_Follows rs ((h, p) ∷ ps) cs s fr rest q d (inr (now, later, k, calls, follows)) =
      let id = p.header.sync in
      let found : find id rs ≡ some (handler h) = (find-Perm q d).1 id ∙ find-under_way h p ps in
      let (f, e, x, i, b) = rw (found, caller_of) at calls in
      inr (
        f,
        later,
        k ∙ ap (λ l. l ++ later) e,
        x,
        i,
        b,
        Answered-of_Follows (remove id rs) ps later s fr rest
            (subst (Permᴰ (remove id rs)) (remove-under_way h p ps) (remove-Perm id q d))
            (Distinct-remove id rs d) (rw (found, answered) at follows),
      )

  -- How the loop ends on the answers.
  abbrev pub AnswersAll : Internal Data → Framing t → Answers → List ℕ → After Data t → Type 0
  AnswersAll s fr ps rest ((s', n), fr') =
      (n ≡ again)
      × ((cs : List Completion) × (s'.completions ≡ s.completions ++ cs)
          × Answered ps cs s' fr' rest)

  AnswersAll-of_Listens :
      (s : Internal Data) (fr : Framing t) (ps : Answers) (rest : List ℕ) (x : After Data t)
      → Permᴰ s.requests (under_way ps)
      → Distinct s.requests
      → Listens t laws c Data s fr (script ps) rest x
      → AnswersAll s fr ps rest x
  AnswersAll-of_Listens s fr ps rest ((s', n), fr') q u (a, d, k, (cs, z, w)) =
      (a, (cs, z, Answered-of_Follows s.requests ps cs s' fr' rest q u w))

  -- Let the loop be connected, with requests under way that have distinct ids and handlers that were
  -- not called, let the receive buffer be well formed, and let the stream consist of bytes and start with an answer to each of them, in any
  -- order, each a header with the id of its request and a body that is not empty, of less than 2^32
  -- bytes. Then as many iterations as there are answers, in which nothing else happens, end with the
  -- loop going on and no request under way. Each caller was called exactly once: in the order of the
  -- answers with its own answer, or with `broken_pipe` if before that a read failed although the
  -- bytes that it asked for were still to come. Every frame given to a caller shows the header and
  -- the body of its answer even at the end. Without such a failure the loop is still connected and
  -- what follows the answers is left in the stream; with it the loop is to reconnect.
  pub listen-AnswersAll :
      (s : Internal Data) (credentials : Option (ℕ → Data)) (self : ℕ) (fr : Framing t)
      (ps : Answers) (rest : List ℕ)
      → IsServing s
      → Distinct s.requests
      → Permᴰ s.requests (under_way ps)
      → IsReady fr.buffer
      → ArePackets t laws c Data (script ps)
      → AreBytes (stream t laws fr)
      → stream t laws fr ≡ wires t laws c Data (script ps) ++ rest
      → AnswersAll s fr ps rest
          (listen t c s credentials self fr (events t laws c Data (script ps)))
  listen-AnswersAll s credentials self fr ps rest i u q d a h e =
      AnswersAll-of_Listens s fr ps rest
        (listen t c s credentials self fr (events t laws c Data (script ps))) q u
        (listen-Listens t laws c Data s credentials self fr (script ps) rest i d a h e)
