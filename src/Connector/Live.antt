-- ===== src/Connector/Live.antt =====
-- include/tarantool_connector/tarantool_connector.hpp: the handlers that a reset calls.
use tntpp.Common.{
  ℕ, ◌≡◌, refl, sym, subst, ap, Bool, true, false, List, [], ◌∷◌, ◌++◌, ◌⊎◌, inl, inr, Bool-cases,
  Option-cases, ◌==◌,
}
use tntpp.Errc.{Result, fail, broken_pipe}
use tntpp.Framing.{IprotoFrame}
use tntpp.Connection.{stop}
use tntpp.Connector.{
  connecting, connected, handler, empty, Completion, Requests, Internal, find, insert, remove,
  call_each, call_all, reset_among, generate_id, send_request, register, finish_reset, reset,
  on_message, lost, reset_error,
}
use tntpp.Connector.Asks.{Ask, asks, answers, breaks, ends, serve, serve_all}

-- No handler in the map was called or moved away.
abbrev pub AllLive : Requests → Type 0
AllLive [] = Unit
AllLive ((id, handler h) ∷ rs) = AllLive rs
AllLive ((id, empty) ∷ rs) = ⊥

-- A call of each handler of the map, in order.
abbrev pub called : Requests → Result IprotoFrame → List Completion
called [] r = []
called ((id, handler h) ∷ rs) r = record { caller = h; outcome = r } ∷ called rs r
called ((id, empty) ∷ rs) r = called rs r

-- A handler that was called, in its entry.
abbrev pub emptied : Requests → Requests
emptied [] = []
emptied ((id, h) ∷ rs) = (id, empty) ∷ emptied rs

-- None of the handlers throws.
abbrev pub Quiet : (ℕ → Bool) → Requests → Type 0
Quiet throws [] = Unit
Quiet throws ((id, handler h) ∷ rs) = (throws h ≡ false) × Quiet throws rs
Quiet throws ((id, empty) ∷ rs) = ⊥

-- The first handler of the map that throws, between the entries before it and those after it.
pub record FirstThrow (throws : ℕ → Bool) (rs : Requests) : Type 0 where
  pub before : Requests
  pub id : ℕ
  pub caller : ℕ
  pub after : Requests
  pub entries : rs ≡ before ++ (id, handler caller) ∷ after
  pub quiet : Quiet throws before
  pub throwing : throws caller ≡ true

-- What a round of calls leaves that throws there: the calls up to that handler are made, and what
-- is behind it stays as it was.
abbrev pub cut :
    (throws : ℕ → Bool) (rs : Requests) (r : Result IprotoFrame)
    → FirstThrow throws rs
    → Requests × List Completion × Bool
cut throws rs r x = (
  emptied x.before ++ (x.id, empty) ∷ x.after,
  called x.before r ++ record { caller = x.caller; outcome = r } ∷ [],
  true,
)

-- All handlers are called, or those up to the first that throws.
abbrev pub Rounds :
    (ℕ → Bool) → Requests → Result IprotoFrame → Requests × List Completion × Bool → Type 0
Rounds throws rs r x =
    (Quiet throws rs × (x ≡ (emptied rs, called rs r, false)))
    ⊎ ((t : FirstThrow throws rs) × (x ≡ cut throws rs r t))

Rounds-next :
    (throws : ℕ → Bool) (id h : ℕ) (rs : Requests) (r : Result IprotoFrame)
    → throws h ≡ false
    → Rounds throws rs r (call_each throws rs r)
    → Rounds throws ((id, handler h) ∷ rs) r (call_each throws ((id, handler h) ∷ rs) r)
unfolding call_each
Rounds-next throws id h rs r q (inl (all, e)) = inl ((q, all), rw (q, e) refl)
Rounds-next throws id h rs r q (inr (t, e)) = inr (
  record {
    before = (id, handler h) ∷ t.before;
    id = t.id;
    caller = t.caller;
    after = t.after;
    entries = ap (λ x. (id, handler h) ∷ x) t.entries;
    quiet = (q, t.quiet);
    throwing = t.throwing;
  },
  rw (q, e) refl,
)

call_each-Rounds :
    (throws : ℕ → Bool) (rs : Requests) (r : Result IprotoFrame)
    → AllLive rs
    → Rounds throws rs r (call_each throws rs r)
unfolding call_each
call_each-Rounds throws [] r l = inl (tt, refl)
call_each-Rounds throws ((id, handler h) ∷ rs) r l = elim (Bool-cases (throws h)) [
  | inl e ↦ inr (
    record {
      before = [];
      id = id;
      caller = h;
      after = rs;
      entries = refl;
      quiet = tt;
      throwing = e;
    },
    rw e refl,
  )
  | inr e ↦ Rounds-next throws id h rs r e (call_each-Rounds throws rs r l)
]
call_each-Rounds throws ((id, empty) ∷ rs) r l = absurd l

call_all-calls :
    (rs : Requests) (r : Result IprotoFrame)
    → AllLive rs
    → ((call_all rs r).1 ≡ called rs r) × ((call_all rs r).2 ≡ false)
unfolding call_all
call_all-calls [] r l = (refl, refl)
call_all-calls ((id, handler h) ∷ rs) r l =
    let (e, t) = call_all-calls rs r l in (ap (λ cs. record { caller = h; outcome = r } ∷ cs) e, t)
call_all-calls ((id, empty) ∷ rs) r l = absurd l

AllLive-insert : (id h : ℕ) (rs : Requests) → AllLive rs → AllLive (insert id (handler h) rs)
unfolding insert
AllLive-insert id h rs l = elim (Option-cases (find id rs)) [
  | inl e ↦ rw (e, insert) l
  | inr (k, e) ↦ rw (e, insert) l
]

AllLive-remove : (id : ℕ) (rs : Requests) → AllLive rs → AllLive (remove id rs)
unfolding remove
AllLive-remove id [] l = tt
AllLive-remove id ((j, handler h) ∷ rs) l = elim (Bool-cases (j == id)) [
  | inl e ↦ rw e l
  | inr e ↦ rw e (AllLive-remove id rs l)
]
AllLive-remove id ((j, empty) ∷ rs) l = absurd l

module _ {Data : Type 0} where
  finish_reset-done :
      (s : Internal Data) (rs : Requests) (x : Requests × List Completion × Bool)
      (cs : List Completion)
      → x.1 ≡ cs
      → x.2 ≡ false
      → finish_reset s x
        ≡ (record s { requests = []; completions = s.completions ++ cs; conn = stop s.conn }, false)
  unfolding finish_reset
  finish_reset-done s rs (ks, done, true) cs e t = cc
  finish_reset-done s rs (ks, done, false) cs e t = rw e refl

  -- A reset with live handlers.
  abbrev pub after_reset : Internal Data → Internal Data
  after_reset s = record s {
    state = lost s.state;
    requests = [];
    completions = s.completions ++ called s.requests (fail (reset_error (lost s.state)));
    conn = stop s.conn;
  }

  -- If no registered handler is empty, `reset` calls every one of them, in the order of the map,
  -- with `operation_canceled` if the connector was destroyed and `broken_pipe` if not, empties the
  -- map and stops the connection; nothing is thrown, and a connected connector is connecting.
  pub reset-calls : (s : Internal Data) → AllLive s.requests → reset s ≡ (after_reset s, false)
  unfolding reset
  reset-calls s l =
      let (e, t) = call_all-calls s.requests (fail (reset_error (lost s.state))) l in
      finish_reset-done (record s { state = lost s.state }) s.requests _ _ e t

  -- Connected, with no empty handler.
  abbrev pub IsServing : Internal Data → Type 0
  IsServing s = (s.state ≡ connected) × AllLive s.requests

  -- Requests and messages only.
  abbrev pub Calm : List (Ask Data) → Type 0
  Calm [] = Unit
  Calm (asks d h ∷ es) = Calm es
  Calm (answers f ∷ es) = Calm es
  Calm (breaks ∷ es) = ⊥
  Calm (ends ∷ es) = ⊥

  pub send_request-IsServing :
      (s : Internal Data) (id h : ℕ) (d : Data) → IsServing s → IsServing (send_request s id d h)
  unfolding send_request register
  send_request-IsServing s id h d (c, l) =
      rw (c, send_request) (c, AllLive-insert id h s.requests l)

  pub on_message-IsServing :
      (s : Internal Data) (f : IprotoFrame) → IsServing s → IsServing (on_message s f)
  unfolding on_message
  on_message-IsServing s f (c, l) = elim (Option-cases (find f.header.sync s.requests)) [
    | inl e ↦ rw (e, on_message) (c, l)
    | inr (k, e) ↦ rw (e, on_message) (c, AllLive-remove f.header.sync s.requests l)
  ]

  pub serve_all-IsServing :
      (s : Internal Data) (es : List (Ask Data))
      → IsServing s
      → Calm es
      → IsServing (serve_all s es)
  unfolding serve_all generate_id
  serve_all-IsServing s [] i c = i
  serve_all-IsServing s (asks d h ∷ es) i c =
      serve_all-IsServing (serve s (asks d h)) es (send_request-IsServing _ s.request_id h d i) c
  serve_all-IsServing s (answers f ∷ es) i c =
      serve_all-IsServing (on_message s f) es (on_message-IsServing s f i) c
  serve_all-IsServing s (breaks ∷ es) i c = absurd c
  serve_all-IsServing s (ends ∷ es) i c = absurd c

  -- The connector is connecting. Every handler registered was called, none is left, and the
  -- connection is stopped; or the calls were made up to the first handler that throws: all entries
  -- are still registered, those up to there with empty handlers, and the connection is not stopped.
  abbrev pub Resets : (ℕ → Bool) → Internal Data → Internal Data × Bool → Type 0
  Resets throws s x =
      (Quiet throws s.requests
        × (x ≡ (
          record s {
            state = connecting;
            requests = [];
            completions = s.completions ++ called s.requests (fail broken_pipe);
            conn = stop s.conn;
          },
          false,
        )))
      ⊎ ((t : FirstThrow throws s.requests) × (x ≡ (
        record s {
          state = connecting;
          requests = emptied t.before ++ (t.id, empty) ∷ t.after;
          completions =
              s.completions
              ++ (called t.before (fail broken_pipe)
                  ++ record { caller = t.caller; outcome = fail broken_pipe } ∷ []);
        },
        true,
      )))

  finish_reset-Resets :
      (throws : ℕ → Bool) (s : Internal Data) (x : Requests × List Completion × Bool)
      → Rounds throws s.requests (fail broken_pipe) x
      → Resets throws s (finish_reset (record s { state = connecting }) x)
  unfolding finish_reset
  finish_reset-Resets throws s x (inl (q, e)) = rw e (inl (q, refl))
  finish_reset-Resets throws s x (inr (t, e)) = rw e (inr (t, refl))

  -- `reset` is the case in which no handler of a caller throws.
  pub reset_among-quiet : (s : Internal Data) → reset_among (λ _. false) s ≡ reset s
  unfolding reset_among reset
  reset_among-quiet s = refl

  reset_among-Resets :
      (throws : ℕ → Bool) (s : Internal Data) → IsServing s → Resets throws s (reset_among throws s)
  unfolding reset_among
  reset_among-Resets throws s (on, l) =
      subst
        (λ st. Resets throws s (
          finish_reset (record s { state = lost st })
            (call_each throws s.requests (fail (reset_error (lost st))))))
        (sym on)
        (finish_reset-Resets throws s _ (call_each-Rounds throws s.requests (fail broken_pipe) l))

  -- A connector that is connected and has no empty handler registered, such as a new one, keeps
  -- both through any requests and messages. A reset that follows them, whichever handlers of the
  -- callers throw, leaves it connecting. If none of those registered throws it calls all of them
  -- with `broken_pipe`, in order, leaves none registered and stops the connection. Otherwise it
  -- calls those up to the first that throws and throws: these stay registered with empty handlers,
  -- those behind it with theirs, and the connection is not stopped.
  pub reset-serve_all :
      (throws : ℕ → Bool) (s : Internal Data) (es : List (Ask Data))
      → IsServing s
      → Calm es
      → let s' = serve_all s es in IsServing s' × Resets throws s' (reset_among throws s')
  reset-serve_all throws s es i c =
      let on = serve_all-IsServing s es i c in (on, reset_among-Resets throws (serve_all s es) on)
