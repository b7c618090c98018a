-- ===== src/Connector/Order/Alike.antt =====
-- include/tarantool_connector/tarantool_connector.hpp: connectors whose maps of requests differ in the
-- order of their entries.
use mathlib.Core.List.{Permᴰ}
use mathlib.Core.List.Permᴰ
use tntpp.Common.{
  ℕ, ◌+◌, ◌%◌, ◌^◌, ◌≡◌, refl, sym, ap, subst, ◌∙◌, List, [], ◌∷◌, ◌++◌, Option-cases, inl, inr,
}
use tntpp.Errc.{ok, fail}
use tntpp.Framing.{IprotoFrame}
use tntpp.Connection.{stop, send_data}
use tntpp.Connector.{
  State, connected, Internal, Handler, handler, empty, Requests, Completion, find, insert, remove,
  lost, reset_error, generate_id, send_request, register, on_message, reset, call,
}
use tntpp.Connector.Asks.{Ask, asks, answers, breaks, ends, serve, serve_all}
use tntpp.Connector.Live.{
  AllLive, called, IsServing, Calm, after_reset, serve_all-IsServing, reset-calls,
}
use tntpp.Connector.Order.{Distinct, find-Perm, remove-Perm, called-Perm, Distinct-remove}

AllLive-cons :
    (x : ℕ × Handler) (rs rs' : Requests)
    → AllLive (x ∷ rs)
    → AllLive rs × (AllLive rs' → AllLive (x ∷ rs'))
AllLive-cons (j, handler h) rs rs' l = (l, λ k. k)
AllLive-cons (j, empty) rs rs' l = absurd l

AllLive-swap : (x y : ℕ × Handler) (rs : Requests) → AllLive (x ∷ y ∷ rs) → AllLive (y ∷ x ∷ rs)
AllLive-swap (j, handler h) (k, handler g) rs l = l
AllLive-swap (j, handler h) (k, empty) rs l = absurd l
AllLive-swap (j, empty) y rs l = absurd l

AllLive-Perm : {rs rs' : Requests} → Permᴰ rs rs' → AllLive rs → AllLive rs'
AllLive-Perm Permᴰ.nil l = l
AllLive-Perm (Permᴰ.cons {a = x} {l₁ = rs} {l₂ = rs'} e p) l =
    let (m, k) = AllLive-cons x rs rs' l in subst (λ z. AllLive (z ∷ rs')) e (k (AllLive-Perm p m))
AllLive-Perm (Permᴰ.swap {a = a} {b = b} {a' = a'} {b' = b'} {l = rs} e e') l =
    subst (λ z. AllLive (a' ∷ z ∷ rs)) e
      (subst (λ z. AllLive (z ∷ a ∷ rs)) e' (AllLive-swap a b rs l))
AllLive-Perm (Permᴰ.trans p q) l = AllLive-Perm q (AllLive-Perm p l)

insert-Perm :
    {rs rs' : Requests} (id : ℕ) (h : Handler)
    → Permᴰ rs rs'
    → Distinct rs
    → Permᴰ (insert id h rs) (insert id h rs') × Distinct (insert id h rs)
unfolding insert
insert-Perm {rs} {rs'} id h p d =
    let same = (find-Perm p d).1 id in
    elim (Option-cases (find id rs)) [
      | inl e ↦ rw (sym same, e, insert) (Permᴰ.cons refl p, (e, d))
      | inr (k, e) ↦ rw (sym same, e, insert) (p, d)
    ]

module _ {Data : Type 0} where
  -- The same but for the order of the map and of the calls made.
  pub record Alike (s s' : Internal Data) : Type 0 where
    pub state : s'.state ≡ s.state
    pub schema_version : s'.schema_version ≡ s.schema_version
    pub request_id : s'.request_id ≡ s.request_id
    pub conn : s'.conn ≡ s.conn
    pub requests : Permᴰ s.requests s'.requests
    pub completions : Permᴰ s.completions s'.completions
    pub distinct : Distinct s.requests

  register-Alike :
      (s s' : Internal Data) (id : ℕ) (h : Handler) (d : Data)
      → Alike s s'
      → Alike (register s id h d) (register s' id h d)
  unfolding register
  register-Alike s s' id h d a =
      let (p, q) = insert-Perm id h a.requests a.distinct in
      record {
        state = a.state;
        schema_version = a.schema_version;
        request_id = a.request_id;
        conn = ap (λ c. send_data c d) a.conn;
        requests = p;
        completions = a.completions;
        distinct = q;
      }

  send_request-Alike :
      (s s' : Internal Data) (id h : ℕ) (d : Data)
      → s.state ≡ connected
      → Alike s s'
      → Alike (send_request s id d h) (send_request s' id d h)
  unfolding send_request
  send_request-Alike s s' id h d c a =
      let c' : s'.state ≡ connected = a.state ∙ c in
      rw (c, c', send_request) (register-Alike s s' id (handler h) d a)

  -- A message with the entry that it finds.
  answered-Alike :
      (s s' : Internal Data) (id : ℕ) (done : List Completion)
      → Alike s s'
      → Alike
          (record s { requests = remove id s.requests; completions = s.completions ++ done })
          (record s' { requests = remove id s'.requests; completions = s'.completions ++ done })
  answered-Alike s s' id done a = record {
    state = a.state;
    schema_version = a.schema_version;
    request_id = a.request_id;
    conn = a.conn;
    requests = remove-Perm id a.requests a.distinct;
    completions = Permᴰ.append_right done a.completions;
    distinct = Distinct-remove id s.requests a.distinct;
  }

  versioned-Alike :
      (s s' : Internal Data) (v : ℕ)
      → Alike s s'
      → Alike (record s { schema_version = v }) (record s' { schema_version = v })
  versioned-Alike s s' v a = record {
    state = a.state;
    schema_version = refl;
    request_id = a.request_id;
    conn = a.conn;
    requests = a.requests;
    completions = a.completions;
    distinct = a.distinct;
  }

  on_message-Alike :
      (s s' : Internal Data) (f : IprotoFrame)
      → Alike s s'
      → Alike (on_message s f) (on_message s' f)
  unfolding on_message
  on_message-Alike s s' f a =
      let b = versioned-Alike s s' f.header.schema_version a in
      let same = (find-Perm a.requests a.distinct).1 f.header.sync in
      elim (Option-cases (find f.header.sync s.requests)) [
        | inl e ↦ rw (sym same, e, on_message) b
        | inr (k, e) ↦
            rw (sym same, e, on_message)
              (answered-Alike (record s { schema_version = f.header.schema_version })
                (record s' { schema_version = f.header.schema_version }) f.header.sync
                (call k (ok f)).1 b)
      ]

  numbered-Alike :
      (s s' : Internal Data) (n : ℕ)
      → Alike s s'
      → Alike (record s { request_id = n }) (record s' { request_id = n })
  numbered-Alike s s' n a = record {
    state = a.state;
    schema_version = a.schema_version;
    request_id = refl;
    conn = a.conn;
    requests = a.requests;
    completions = a.completions;
    distinct = a.distinct;
  }

  ask-Alike :
      (s s' : Internal Data) (d : Data) (h : ℕ)
      → s.state ≡ connected
      → Alike s s'
      → Alike (serve s (asks d h)) (serve s' (asks d h))
  unfolding serve generate_id
  ask-Alike s s' d h c a =
      let n = (s.request_id + 1) % 2 ^ 64 in
      subst
        (λ m.
          Alike (send_request (record s { request_id = n }) s.request_id d h)
            (send_request (record s' { request_id = (m + 1) % 2 ^ 64 }) m d h))
        (sym a.request_id)
        (send_request-Alike (record s { request_id = n }) (record s' { request_id = n })
          s.request_id h d c (numbered-Alike s s' n a))

  serve_all-Alike :
      (s s' : Internal Data) (es : List (Ask Data))
      → IsServing s
      → Calm es
      → Alike s s'
      → Alike (serve_all s es) (serve_all s' es)
  unfolding serve_all serve
  serve_all-Alike s s' [] i c a = a
  serve_all-Alike s s' (asks d h ∷ es) i c a =
      serve_all-Alike (serve s (asks d h)) (serve s' (asks d h)) es
        (serve_all-IsServing s (asks d h ∷ []) i tt) c (ask-Alike s s' d h i.0 a)
  serve_all-Alike s s' (answers f ∷ es) i c a =
      serve_all-Alike (on_message s f) (on_message s' f) es
        (serve_all-IsServing s (answers f ∷ []) i tt) c (on_message-Alike s s' f a)
  serve_all-Alike s s' (breaks ∷ es) i c a = absurd c
  serve_all-Alike s s' (ends ∷ es) i c a = absurd c

  after_reset-Alike : (s s' : Internal Data) → Alike s s' → Alike (after_reset s) (after_reset s')
  after_reset-Alike s s' a =
      let error = λ (q : State). called s'.requests (fail (reset_error (lost q))) in
      record {
        state = ap lost a.state;
        schema_version = a.schema_version;
        request_id = a.request_id;
        conn = ap stop a.conn;
        requests = Permᴰ.nil;
        completions =
            subst (λ q. Permᴰ (after_reset s).completions (s'.completions ++ error q)) (sym a.state)
              (Permᴰ.trans
                (Permᴰ.append_right (called s.requests (fail (reset_error (lost s.state))))
                  a.completions)
                (Permᴰ.append_left s'.completions
                  (called-Perm (fail (reset_error (lost s.state))) a.requests)));
        distinct = tt;
      }

  -- Two connected connectors without empty handlers and without an id registered twice, which
  -- differ in the order of the map of requests and of the calls made and in nothing else, differ
  -- in no more than that after any requests and messages, and after the reset that follows: in
  -- whatever order the map is iterated, the same handlers are called with the same outcomes,
  -- equally often.
  pub reset-Alike :
      (s s' : Internal Data) (es : List (Ask Data))
      → IsServing s
      → Calm es
      → Alike s s'
      → Alike (serve_all s es) (serve_all s' es)
        × Alike (reset (serve_all s es)).0 (reset (serve_all s' es)).0
  reset-Alike s s' es i c a =
      let b = serve_all-Alike s s' es i c a in
      let (_, live) = serve_all-IsServing s es i c in
      (
        b,
        rw
            (
              reset-calls (serve_all s es) live,
              reset-calls (serve_all s' es) (AllLive-Perm b.requests live),
            )
            (after_reset-Alike (serve_all s es) (serve_all s' es) b),
      )
