-- ===== src/Connector/Listen/Step.antt =====
-- include/tarantool_connector/tarantool_connector.hpp: one iteration of the receive loop, against the
-- connector that is given its messages whole.
use tntpp.Common.{
  ℕ, ◌≡◌, refl, sym, ap, ◌∙◌, inl, inr, Option, none, some, List, [], ◌∷◌, ◌++◌, map, append_assoc,
  append-nil, Option-cases, subst,
}
use tntpp.Errc.{ErrorCode, ok, fail, broken_pipe}
use tntpp.Transport.{Transport, IsStream}
use tntpp.Msgpack.{Msgpack}
use tntpp.Iproto.Header.{MessageHeader}
use tntpp.Buffer.{MutableBuffer, frozen_bytes}
use tntpp.Buffer.State.{Keeps, Keeps-trans, IsFrozen, frozen_bytes-Keeps}
use tntpp.Framing.{Framing, IprotoFrame}
use tntpp.Framing.Ready.{IsReady}
use tntpp.Framing.Transfer.{ReadBreaks}
use tntpp.Connector.{
  connected, Internal, Event, handler, empty, Completion, find, lost, reset_error, on_message,
  send_request, register, run,
}
use tntpp.Connector.Loop.{again, loop, iterate, go_on, receive, reset_then}
use tntpp.Connector.Live.{
  AllLive, called, IsServing, after_reset, reset-calls, send_request-IsServing,
  on_message-IsServing,
}
use tntpp.Connector.Listen.{round_of, After, with_next}
use tntpp.Connector.Listen.Script.{
  insert_all, caller_of, answered, event_of, Packet, Script, Calls, Follows, Listens,
}

module _ {Data : Type 0} where
  -- While connected, requests are registered and no handler is called.
  abbrev Registers : Internal Data → List (ℕ × Data × ℕ) → Internal Data → Type 0
  Registers s qs s' =
      IsServing s' × (s'.requests ≡ insert_all s.requests qs) × (s'.completions ≡ s.completions)

  send_request-register :
      (s : Internal Data) (id h : ℕ) (d : Data)
      → s.state ≡ connected
      → send_request s id d h ≡ register s id (handler h) d
  unfolding send_request
  send_request-register s id h d e = simp (e, send_request)

  run-Registers :
      (s : Internal Data) (qs : List (ℕ × Data × ℕ))
      → IsServing s
      → Registers s qs (run s (map event_of qs))
  unfolding run register
  run-Registers s [] i = (i, refl, refl)
  run-Registers s ((id, d, h) ∷ qs) i =
      let sent : send_request s id d h ≡ register s id (handler h) d =
        send_request-register s id h d i.0 in
      let (j, q, e) =
        run-Registers (send_request s id d h) qs (send_request-IsServing s id h d i) in
      (
        j,
        q ∙ ap (λ (z : Internal Data). insert_all z.requests qs) sent,
        e ∙ ap (λ (z : Internal Data). z.completions) sent,
      )

  iterate-ok :
      (s : Internal Data) (credentials : Option (ℕ → Data)) (self : ℕ) (es : List (Event Data))
      (f : IprotoFrame)
      → s.state ≡ connected
      → iterate s credentials self (round_of es (ok f)) ≡ (on_message (run s es) f, again)
  unfolding iterate receive
  iterate-ok s credentials self es f e = simp (e, iterate)

  iterate-fail :
      (s : Internal Data) (credentials : Option (ℕ → Data)) (self : ℕ) (es : List (Event Data))
      (e : ErrorCode)
      → s.state ≡ connected
      → AllLive (run s es).requests
      → iterate s credentials self (round_of es (fail e)) ≡ (after_reset (run s es), again)
  unfolding iterate receive reset_then
  iterate-fail s credentials self es e c l = simp (c, iterate, reset-calls (run s es) l)

module _ (t : Transport) (laws : IsStream t) (c : Msgpack) (Data : Type 0) where
  Calls-Keeps :
      (m m' : MutableBuffer) (cs : List Completion) (o : Option ℕ) (p : Packet c)
      → Keeps m m'
      → Calls t laws c Data m cs o p
      → Calls t laws c Data m' cs o p
  Calls-Keeps m m' cs none p k h = h
  Calls-Keeps m m' cs (some x) p k (f, e, q, i, b) =
      let (i', b') = frozen_bytes-Keeps m m' f.body k i in (f, e, q, i', b' ∙ b)

  -- What a message does to the requests under way.
  abbrev Hears : Internal Data → MutableBuffer → Packet c → ℕ → Internal Data → Type 0
  Hears s m p id s' =
      (s'.requests ≡ answered id s.requests)
      × ((now : List Completion) × (s'.completions ≡ s.completions ++ now)
          × Calls t laws c Data m now (caller_of id s.requests) p)

  on_message-Hears :
      (s : Internal Data) (m : MutableBuffer) (f : IprotoFrame) (p : Packet c)
      → f.header ≡ p.header
      → IsFrozen m f.body
      → frozen_bytes m f.body ≡ p.body
      → Hears s m p f.header.sync (on_message s f)
  unfolding on_message
  on_message-Hears s m f p e i b = elim (Option-cases (find f.header.sync s.requests)) [
    | inl n ↦
        rw (n, on_message, answered, caller_of) (refl, ([], sym (append-nil s.completions), refl))
    | inr (handler h, n) ↦
        rw (n, on_message, answered, caller_of) (refl, (_, refl, (f, refl, e, i, b)))
    | inr (empty, n) ↦ rw (n, on_message, answered, caller_of) (refl, ([], refl, refl))
  ]

  -- The rest of the iterations after one that delivered its message.
  with_next-Listens :
      (s s1 : Internal Data) (fr fr1 : Framing t) (qs : List (ℕ × Data × ℕ)) (p : Packet c)
      (ps : Script t laws c Data) (rest : List ℕ) (x : After Data t)
      → Keeps fr.buffer fr1.buffer
      → s1.requests ≡ answered p.header.sync (insert_all s.requests qs)
      → (now : List Completion) → s1.completions ≡ s.completions ++ now
      → Calls t laws c Data fr1.buffer now (caller_of p.header.sync (insert_all s.requests qs)) p
      → Listens t laws c Data s1 fr1 ps rest x
      → Listens t laws c Data s fr ((qs, p) ∷ ps) rest (with_next t c (s1, again) x)
  unfolding go_on
  with_next-Listens s s1 fr fr1 qs p ps rest ((s', n), fr') k q now e calls (a, d, k', (cs, z, w)) =
      (
        a,
        d,
        Keeps-trans fr.buffer fr1.buffer fr'.buffer k k',
        (
          now ++ cs,
          z ∙ ap (λ l. l ++ cs) e ∙ append_assoc s.completions now cs,
          inr (
            now,
            cs,
            refl,
            Calls-Keeps fr1.buffer fr'.buffer now
                (caller_of p.header.sync (insert_all s.requests qs)) p k' calls,
            subst (λ rs. Follows t laws c Data rs ps cs s' fr' rest) q w,
          ),
        ),
      )

  -- The iteration for a message that came.
  pub heard-Listens :
      (s : Internal Data) (credentials : Option (ℕ → Data)) (self : ℕ) (fr fr1 : Framing t)
      (qs : List (ℕ × Data × ℕ)) (p : Packet c) (ps : Script t laws c Data) (rest : List ℕ)
      (f : IprotoFrame) (next : Internal Data → After Data t)
      → IsServing s
      → Keeps fr.buffer fr1.buffer
      → f.header ≡ p.header
      → IsFrozen fr1.buffer f.body
      → frozen_bytes fr1.buffer f.body ≡ p.body
      → ((s1 : Internal Data) → IsServing s1 → Listens t laws c Data s1 fr1 ps rest (next s1))
      → let x = iterate s credentials self (round_of (map event_of qs) (ok f)) in
        Listens t laws c Data s fr ((qs, p) ∷ ps) rest (with_next t c x (next x.0))
  heard-Listens s credentials self fr fr1 qs p ps rest f next i k e j b later =
      let s0 = run s (map event_of qs) in
      let (i0, r, z) = run-Registers s qs i in
      let s1 = on_message s0 f in
      let (q, (now, y, calls)) =
        subst (λ id. Hears s0 fr1.buffer p id s1) (ap (λ (h : MessageHeader). h.sync) e)
          (on_message-Hears s0 fr1.buffer f p e j b) in
      subst (λ y. Listens t laws c Data s fr ((qs, p) ∷ ps) rest (with_next t c y (next y.0)))
        (sym (iterate-ok s credentials self (map event_of qs) f i.0))
        (with_next-Listens s s1 fr fr1 qs p ps rest (next s1) k (q ∙ ap (answered p.header.sync) r)
          now (y ∙ ap (λ cs. cs ++ now) z)
          (subst (λ rs. Calls t laws c Data fr1.buffer now (caller_of p.header.sync rs) p) r calls)
          (later s1 (on_message-IsServing s0 f i0)))

  -- The iteration in which a read failed.
  pub broken-Listens :
      (s : Internal Data) (credentials : Option (ℕ → Data)) (self : ℕ) (fr fr1 : Framing t)
      (qs : List (ℕ × Data × ℕ)) (p : Packet c) (ps : Script t laws c Data) (rest : List ℕ)
      (e : ErrorCode)
      → IsServing s
      → IsReady fr1.buffer
      → Keeps fr.buffer fr1.buffer
      → ReadBreaks t laws e
      → Listens t laws c Data s fr
          ((qs, p) ∷ ps)
          rest
          (loop s credentials self (round_of (map event_of qs) (fail e) ∷ []), fr1)
  unfolding loop go_on
  broken-Listens s credentials self fr fr1 qs p ps rest e i d k x =
      let s0 = run s (map event_of qs) in
      let (i0, r, z) = run-Registers s qs i in
      subst (λ y. Listens t laws c Data s fr ((qs, p) ∷ ps) rest (go_on y (y.0, again), fr1))
        (sym (iterate-fail s credentials self (map event_of qs) e i.0 i0.1))
        (
          refl,
          d,
          k,
          (
            called s0.requests (fail broken_pipe),
            ap (λ cs. cs ++ called s0.requests (fail (reset_error (lost s0.state)))) z
                ∙ ap (λ st. s.completions ++ called s0.requests (fail (reset_error (lost st))))
                    i0.0,
            inl (e, x, ap (λ rs. called rs (fail broken_pipe)) r, refl, ap lost i0.0),
          ),
        )
