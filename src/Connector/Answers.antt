-- ===== src/Connector/Answers.antt =====
-- include/tarantool_connector/tarantool_connector.hpp: which answer a request gets.
use tntpp.Common.{
  ℕ, ◌+◌, ◌%◌, ◌^◌, ◌≡◌, ◌≢◌, ◌<◌, refl, ap, ◌∙◌, some, List, [], ◌∷◌, ◌++◌, arith, Bool-cases,
  Option-cases, inl, inr,
}
use tntpp.Errc.{ok}
use tntpp.Framing.{IprotoFrame}
use tntpp.Connector.{
  connected, is_connected, Internal, Handler, handler, empty, Requests, find, insert, remove,
  generate_id, send_request, register, on_message, destroy,
}
use tntpp.Connector.Asks.{
  Ask, asks, answers, breaks, ends, demand, serve, serve_all, IsIssued, Below-unused,
  request_id-send_request, request_id-on_message,
}
use tntpp.Connector.Balance.{find-unused}

find-insert_other :
    (id j : ℕ) (k : Handler) (rs : Requests) → id ≢ j → find id (insert j k rs) ≡ find id rs
unfolding insert
find-insert_other id j k rs ne = elim (Option-cases (find j rs)) [
  | inl e ↦ rw (e, insert) (ground arith)
  | inr (h, e) ↦ rw (e, insert) refl
]

find-remove_other : (id j : ℕ) (rs : Requests) → id ≢ j → find id (remove j rs) ≡ find id rs
unfolding remove
find-remove_other id j [] ne = refl
find-remove_other id j ((i, k) ∷ rs) ne = ground (arith, find-remove_other id j rs ne)

module _ {Data : Type 0} where
  -- Nothing in the history ends the wait for the answer to a request: no reset, no answer to it.
  abbrev pub Waits : ℕ → List (Ask Data) → Type 0
  Waits id [] = Unit
  Waits id (asks d k ∷ es) = Waits id es
  Waits id (answers f ∷ es) = (id ≢ f.header.sync) × Waits id es
  Waits id (breaks ∷ es) = ⊥
  Waits id (ends ∷ es) = Waits id es

  find-send_request :
      (s : Internal Data) (id j : ℕ) (d : Data) (h : ℕ)
      → id ≢ j
      → find id (send_request s j d h).requests ≡ find id s.requests
  unfolding send_request register
  find-send_request s id j d h ne = elim (Bool-cases (is_connected s.state)) [
    | inl e ↦ rw (e, send_request) (find-insert_other id j (handler h) s.requests ne)
    | inr e ↦ rw (e, send_request) (find-insert_other id j empty s.requests ne)
  ]

  find-on_message :
      (s : Internal Data) (id : ℕ) (f : IprotoFrame)
      → id ≢ f.header.sync
      → find id (on_message s f).requests ≡ find id s.requests
  unfolding on_message
  find-on_message s id f ne = elim (Option-cases (find f.header.sync s.requests)) [
    | inl e ↦ rw (e, on_message) refl
    | inr (k, e) ↦ rw (e, on_message) (find-remove_other id f.header.sync s.requests ne)
  ]

  answered_lem :
      (s : Internal Data) (h : ℕ) (f : IprotoFrame)
      → find f.header.sync s.requests ≡ some (handler h)
      → (on_message s f).completions ≡ s.completions ++ record { caller = h; outcome = ok f } ∷ []
  unfolding on_message
  answered_lem s h f e = rw (e, on_message) refl

  -- A handler that waits for its answer is still registered after the history.
  find-serve_all :
      (s : Internal Data) (id h : ℕ) (es : List (Ask Data))
      → find id s.requests ≡ some (handler h)
      → id < s.request_id
      → s.request_id + demand es < 2 ^ 64
      → Waits id es
      → find id (serve_all s es).requests ≡ some (handler h)
  unfolding serve_all generate_id destroy
  find-serve_all s id h [] e lt le w = e
  find-serve_all s id h (asks d k ∷ es) e lt le w =
      let n = s.request_id in
      let s' : Internal Data = record s { request_id = (n + 1) % 2 ^ 64 } in
      let same = request_id-send_request s' n d k in
      find-serve_all (send_request s' n d k) id h es
        (find-send_request s' id n d k (λ q. absurd (omega arith)) ∙ e) (omega (arith, same))
        (omega (arith, same)) w
  find-serve_all s id h (answers f ∷ es) e lt le (ne, w) =
      let same = request_id-on_message s f in
      find-serve_all (on_message s f) id h es (find-on_message s id f ne ∙ e) (omega (arith, same))
        (omega (arith, same)) w
  find-serve_all s id h (breaks ∷ es) e lt le w = absurd w
  find-serve_all s id h (ends ∷ es) e lt le w = find-serve_all (destroy s) id h es e lt le w

  find-ask :
      (s : Internal Data) (d : Data) (h : ℕ)
      → IsIssued s
      → s.state ≡ connected
      → find s.request_id (serve s (asks d h)).requests ≡ some (handler h)
  unfolding serve generate_id send_request register insert
  find-ask s d h (used, keys, below) c =
      rw
        (
          c,
          send_request,
          find-unused s.requests used s.request_id keys (Below-unused s.request_id used below),
          insert,
        )
        (ground arith)

  -- On a connected connector, after a request and then any history without a reset and without an
  -- answer to that request, the message whose `sync` is the request's id calls exactly the handler
  -- of that request, once and with that message, if the ids that `generate_id` gives out do not
  -- wrap around 2^64.
  pub answers_its_request :
      (s : Internal Data) (d : Data) (h : ℕ) (es : List (Ask Data)) (f : IprotoFrame)
      → IsIssued s
      → s.state ≡ connected
      → s.request_id + 1 + demand es < 2 ^ 64
      → Waits s.request_id es
      → f.header.sync ≡ s.request_id
      → let before = serve_all s (asks d h ∷ es) in
        (serve before (answers f)).completions
        ≡ before.completions ++ record { caller = h; outcome = ok f } ∷ []
  unfolding serve serve_all generate_id
  answers_its_request s d h es f i c lt w e =
      let n = s.request_id in
      let s' : Internal Data = record s { request_id = (n + 1) % 2 ^ 64 } in
      let same = request_id-send_request s' n d h in
      answered_lem (serve_all (serve s (asks d h)) es) h f (
        ap (λ j. find j (serve_all (serve s (asks d h)) es).requests) e
        ∙ find-serve_all (send_request s' n d h) n h es (find-ask s d h i c) (omega (arith, same))
            (omega (arith, same)) w)
