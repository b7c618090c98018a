-- ===== src/Connector/Listen/Asked.antt =====
-- include/tarantool_connector/tarantool_connector.hpp and detail/tntpp_iproto_framing.h: the requests
-- of a new connector and their answers.
use mathlib.Core.List.{Permᴰ}
use mathlib.Core.List.Permᴰ
use tntpp.Common.{
  ℕ, ◌+◌, ◌%◌, ◌^◌, ◌≤◌, ◌<◌, ◌≡◌, refl, ap, ◌∙◌, subst, sym, Option, none, List, [], ◌∷◌, ◌++◌,
  map, arith, length, append-nil,
}
use tntpp.Transport.{Transport, IsStream, IsUnbroken}
use tntpp.Msgpack.{Msgpack}
use tntpp.Framing.{Framing}
use tntpp.Framing.Ready.{IsReady}
use tntpp.Framing.Transfer.{stream}
use tntpp.Framing.Bytes.{AreBytes}
use tntpp.Connection.{Connection}
use tntpp.Connector.{
  Internal, Handler, handler, Requests, find, insert, generate_id, send_request, register,
  new_internal,
}
use tntpp.Connector.Asks.{asks, serve, serve_all}
use tntpp.Connector.Live.{IsServing, serve_all-IsServing}
use tntpp.Connector.Order.{Distinct}
use tntpp.Connector.Listen.{listen}
use tntpp.Connector.Listen.Script.{events, wires, ArePackets}
use tntpp.Connector.Listen.Once.{Answers, script, under_way}
use tntpp.Connector.Listen.Unbroken.{Completed, listen-Completed}

-- The requests under way when some callers have asked, with ids from a number on.
abbrev pub numbered : {Data : Type 0} → ℕ → List (Data × ℕ) → Requests
numbered n [] = []
numbered n ((d, h) ∷ qs) = (n, handler h) ∷ numbered (n + 1) qs

middle : (rs ks : Requests) (x : ℕ × Handler) → Permᴰ (rs ++ x ∷ ks) (x ∷ (rs ++ ks))
middle [] ks x = Permᴰ.refl (x ∷ ks)
middle (y ∷ rs) ks x = Permᴰ.trans (Permᴰ.cons refl (middle rs ks x)) (Permᴰ.swap refl refl)

module _ {Data : Type 0} where
  -- The ids to come are not in use.
  record IsFresh (s : Internal Data) : Type 0 where
    serving : IsServing s
    distinct : Distinct s.requests
    unused : (j : ℕ) → s.request_id ≤ j → find j s.requests ≡ none
    called_none : s.completions ≡ []

  abbrev pub ask_all : Internal Data → List (Data × ℕ) → Internal Data
  ask_all s qs = serve_all s (map (λ q. asks q.0 q.1) qs)

  -- One more request.
  abbrev Asks : Internal Data → ℕ → Internal Data → Type 0
  Asks s h s' =
      (s'.requests ≡ (s.request_id, handler h) ∷ s.requests)
      × (s'.request_id ≡ s.request_id + 1)
      × (s'.completions ≡ s.completions)

  serve-Asks :
      (s : Internal Data) (d : Data) (h : ℕ)
      → IsFresh s
      → s.request_id + 1 < 2 ^ 64
      → Asks s h (serve s (asks d h))
  unfolding serve generate_id send_request register insert
  serve-Asks s d h f lt =
      let e = f.unused s.request_id (omega arith) in
      let c = f.serving.0 in
      let m : (s.request_id + 1) % 2 ^ 64 ≡ s.request_id + 1 = omega arith in
      rw (c, send_request, e, insert) (refl, m, refl)

  serve-IsServing :
      (s : Internal Data) (d : Data) (h : ℕ) → IsServing s → IsServing (serve s (asks d h))
  unfolding serve_all
  serve-IsServing s d h i = serve_all-IsServing s (asks d h ∷ []) i tt

  serve-IsFresh :
      (s : Internal Data) (d : Data) (h : ℕ)
      → IsFresh s
      → s.request_id + 1 < 2 ^ 64
      → IsFresh (serve s (asks d h))
  serve-IsFresh s d h f lt =
      let (q, n, z) = serve-Asks s d h f lt in
      record {
        serving = serve-IsServing s d h f.serving;
        distinct = subst Distinct (sym q) (f.unused s.request_id (omega arith), f.distinct);
        unused = λ j le. ap (find j) q ∙ unused_cons j (omega (arith, n));
        called_none = z ∙ f.called_none;
      }
    where
      unused_cons :
          (j : ℕ) → s.request_id + 1 ≤ j → find j ((s.request_id, handler h) ∷ s.requests) ≡ none
      unused_cons j le = let e = f.unused j (omega arith) in ground arith

  ask_all-numbered :
      (s : Internal Data) (qs : List (Data × ℕ))
      → IsFresh s
      → s.request_id + length qs < 2 ^ 64
      → IsFresh (ask_all s qs)
        × Permᴰ (ask_all s qs).requests (numbered s.request_id qs ++ s.requests)
  unfolding serve_all
  ask_all-numbered s [] f lt = (f, Permᴰ.refl s.requests)
  ask_all-numbered s ((d, h) ∷ qs) f lt =
      let s' = serve s (asks d h) in
      let n = s.request_id in
      let (q, e, z) = serve-Asks s d h f (omega arith) in
      let (g, p) =
        ask_all-numbered s' qs (serve-IsFresh s d h f (omega arith)) (omega (arith, e)) in
      (
        g,
        Permᴰ.trans
            (subst
              (λ k. Permᴰ (ask_all s' qs).requests (numbered k qs ++ ((n, handler h) ∷ s.requests)))
              e
              (subst (λ rs. Permᴰ (ask_all s' qs).requests (numbered s'.request_id qs ++ rs)) q p))
            (middle (numbered (n + 1) qs) s.requests (n, handler h)),
      )

  new_internal-IsFresh : (conn : Connection Data) → IsFresh (new_internal conn)
  unfolding new_internal
  new_internal-IsFresh conn = record {
    serving = (refl, tt);
    distinct = tt;
    unused = λ j le. refl;
    called_none = refl;
  }

module _ (t : Transport) (laws : IsStream t) (c : Msgpack) (Data : Type 0) where
  -- Let a new connector get requests, fewer than 2^64, on a connection that is not interrupted, with
  -- a well-formed receive buffer, and let the stream consist of bytes and start with the answers to
  -- the requests, in any order: each a header with the id that the request got from `generate_id` and
  -- a body that is not empty, of less than 2^32 bytes. Then as many iterations of the receive loop as
  -- there are answers, in which nothing else happens, call each caller exactly once, in the order
  -- of the answers and with the answer to its own request, and no other; every frame shows its
  -- header and body even at the end. The loop goes on, connected, with no request under way, and what
  -- follows the answers is left in the stream.
  pub ask_all-Completed :
      (conn : Connection Data) (qs : List (Data × ℕ)) (credentials : Option (ℕ → Data)) (self : ℕ)
      (fr : Framing t) (ps : Answers t laws c Data) (rest : List ℕ)
      → IsUnbroken t laws
      → length qs < 2 ^ 64
      → Permᴰ (numbered 0 qs) (under_way t laws c Data ps)
      → IsReady fr.buffer
      → ArePackets t laws c Data (script t laws c Data ps)
      → AreBytes (stream t laws fr)
      → stream t laws fr ≡ wires t laws c Data (script t laws c Data ps) ++ rest
      → let s = ask_all (new_internal conn) qs in
        (s.completions ≡ [])
        × Completed t laws c Data s ps rest
            (listen t c s credentials self fr (events t laws c Data (script t laws c Data ps)))
  unfolding new_internal
  ask_all-Completed conn qs credentials self fr ps rest u lt q d a b e =
      let (f, p) =
        ask_all-numbered (new_internal conn) qs (new_internal-IsFresh conn) (omega arith) in
      (
        f.called_none,
        listen-Completed t laws c Data (ask_all (new_internal conn) qs) credentials self fr ps rest
            u f.serving f.distinct
            (Permᴰ.trans p (
              subst (λ rs. Permᴰ rs (under_way t laws c Data ps)) (sym (append-nil (numbered 0 qs)))
                q))
            d a b e,
      )
