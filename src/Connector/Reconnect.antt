-- ===== src/Connector/Reconnect.antt =====
-- include/tarantool_connector/tarantool_connector.hpp: what becomes of requests without a connection,
-- and of reconnecting.
use tntpp.Common.{
  ℕ, ◌≡◌, refl, ap, ◌∙◌, Bool, true, false, none, some, List, [], ◌∷◌, ◌++◌, arith, if◌then◌else◌,
  Option-cases, inl, inr,
}
use tntpp.Errc.{Result, fail, not_connected}
use tntpp.Framing.{IprotoFrame}
use tntpp.Connection.{send_data}
use tntpp.Connector.{
  State, connecting, connected, stopped, is_connected, Handler, handler, empty, Completion,
  Requests, Internal, find, insert, call_all, generate_id, send_request, register, finish_reset,
  reset, on_message, destroy, Event, sends, receives, resets, destroys, run, lost,
}
use tntpp.Connector.Loop.{
  Connect, established, refused, throws, Round, Next, again, ends, waits, aborts, leaves,
  async_auth, reset_then, reset_caught, receive, after_auth, reconnect, iterate, loop, thrown_next,
  go_on,
}

-- Calling all handlers throws if an empty one is among them.
call_all-throws :
    (rs : Requests) (id : ℕ) (r : Result IprotoFrame)
    → find id rs ≡ some empty
    → (call_all rs r).2 ≡ true
unfolding call_all
call_all-throws [] id r e = cc
call_all-throws ((j, empty) ∷ rs) id r e = refl
call_all-throws ((j, handler h) ∷ rs) id r e = call_all-throws rs id r (ground arith)

-- The ids of the requests under way.
abbrev pub ids : Requests → List ℕ
ids [] = []
ids ((id, h) ∷ rs) = id ∷ ids rs

-- Handlers are called in their entries, which stay.
ids-call_all : (rs : Requests) (r : Result IprotoFrame) → ids (call_all rs r).0 ≡ ids rs
unfolding call_all
ids-call_all [] r = refl
ids-call_all ((id, empty) ∷ rs) r = refl
ids-call_all ((id, handler h) ∷ rs) r = ap (λ is. id ∷ is) (ids-call_all rs r)

finish_reset-throws :
    {Data : Type 0} (s : Internal Data) (x : Requests × List Completion × Bool)
    → x.2 ≡ true
    → ((finish_reset s x).1 ≡ true)
      × ((finish_reset s x).0.requests ≡ x.0)
      × ((finish_reset s x).0.conn ≡ s.conn)
unfolding finish_reset
finish_reset-throws s (rs, ds, true) e = (refl, refl, refl)
finish_reset-throws s (rs, ds, false) e = cc

find-insert :
    (id : ℕ) (h : Handler) (rs : Requests) → find id rs ≡ none → find id (insert id h rs) ≡ some h
unfolding insert
find-insert id h rs e = rw (e, insert) (ground arith)

find_self : (id : ℕ) (rs : Requests) → find id ((id, empty) ∷ rs) ≡ some empty
find_self id rs = ground arith

lost-off : (st : State) → is_connected (lost st) ≡ false
lost-off connecting = refl
lost-off connected = refl
lost-off stopped = refl

module _ {Data : Type 0} where
  -- The state after a request that was sent without a connection.
  abbrev unsent : Internal Data → ℕ → Data → ℕ → Internal Data
  unsent s id d h = record s {
    requests = (id, empty) ∷ s.requests;
    conn = send_data s.conn d;
    completions = s.completions ++ record { caller = h; outcome = fail not_connected } ∷ [];
  }

  send_request-unsent :
      (s : Internal Data) (id h : ℕ) (d : Data)
      → is_connected s.state ≡ false
      → find id s.requests ≡ none
      → send_request s id d h ≡ unsent s id d h
  unfolding send_request register insert
  send_request-unsent s id h d off new = rw (off, send_request, new, register, insert)

  reset-throws :
      (s : Internal Data) (id : ℕ)
      → find id s.requests ≡ some empty
      → ((reset s).1 ≡ true)
        × (ids (reset s).0.requests ≡ ids s.requests)
        × ((reset s).0.conn ≡ s.conn)
  unfolding reset
  reset-throws s id e =
      let (threw, rs, conn) =
        finish_reset-throws (record s { state = lost s.state }) _
          (call_all-throws s.requests id _ e) in
      (threw, ap ids rs ∙ ids-call_all s.requests _, conn)

  -- The bug: a request that is sent while there is no connection is answered at once with
  -- `not_connected`, and yet its data are handed to the connection and an empty handler stays
  -- registered under its id; the next `reset` then calls that handler, which throws, so that
  -- `reset` neither clears the requests, the ids registered being those from before, nor stops the
  -- connection.
  pub send_request-not_connected :
      (s : Internal Data) (id h : ℕ) (d : Data)
      → is_connected s.state ≡ false
      → find id s.requests ≡ none
      → let s' = send_request s id d h in
        (s'.completions ≡ s.completions ++ record { caller = h; outcome = fail not_connected } ∷ [])
        × (s'.conn ≡ send_data s.conn d)
        × (find id s'.requests ≡ some empty)
        × ((reset s').1 ≡ true)
        × (ids (reset s').0.requests ≡ ids s'.requests)
        × ((reset s').0.conn ≡ s'.conn)
  send_request-not_connected s id h d off new = rw (send_request-unsent s id h d off new) (
    refl,
    refl,
    find_self id s.requests,
    (reset-throws (unsent s id d h) id (find_self id s.requests)).0,
    (reset-throws (unsent s id d h) id (find_self id s.requests)).1,
    (reset-throws (unsent s id d h) id (find_self id s.requests)).2,
  )

  -- There is no connection.
  abbrev IsOff : Internal Data → Type 0
  IsOff s = is_connected s.state ≡ false

  state-finish_reset :
      (s : Internal Data) (x : Requests × List Completion × Bool)
      → (finish_reset s x).0.state ≡ s.state
  unfolding finish_reset
  state-finish_reset s (rs, ds, true) = refl
  state-finish_reset s (rs, ds, false) = refl

  reset-IsOff : (s : Internal Data) → IsOff (reset s).0
  unfolding reset
  reset-IsOff s =
      ap is_connected (state-finish_reset (record s { state = lost s.state }) _) ∙ lost-off s.state

  send_request-IsOff :
      (s : Internal Data) (id h : ℕ) (d : Data) → IsOff s → IsOff (send_request s id d h)
  unfolding send_request register
  send_request-IsOff s id h d off = rw (off, send_request, register) off

  on_message-IsOff : (s : Internal Data) (f : IprotoFrame) → IsOff s → IsOff (on_message s f)
  unfolding on_message
  on_message-IsOff s f off = elim (Option-cases (find f.header.sync s.requests)) [
    | inl e ↦ rw (e, on_message) off
    | inr (k, e) ↦ rw (e, on_message) off
  ]

  -- Nothing that happens on the strand but the receive loop makes a connection.
  run-IsOff : (s : Internal Data) (es : List (Event Data)) → IsOff s → IsOff (run s es)
  unfolding run destroy
  run-IsOff s [] off = off
  run-IsOff s (sends id d h ∷ es) off =
      run-IsOff (send_request s id d h) es (send_request-IsOff s id h d off)
  run-IsOff s (receives f ∷ es) off = run-IsOff (on_message s f) es (on_message-IsOff s f off)
  run-IsOff s (resets ∷ es) off = run-IsOff (reset s).0 es (reset-IsOff s)
  run-IsOff s (destroys ∷ es) off = run-IsOff (destroy s) es refl

  reset_then-IsOff : (s : Internal Data) (n : Next) → IsOff (reset_then s n).0
  unfolding reset_then
  reset_then-IsOff s n = reset-IsOff s

  reset_caught-IsOff : (s : Internal Data) (n : Next) → IsOff (reset_caught s n).0
  unfolding reset_caught
  reset_caught-IsOff s n = reset-IsOff s

  auth-IsOff :
      (s : Internal Data) (request : ℕ → Data) (self : ℕ) (r : Round Data)
      → IsOff s
      → IsOff (after_auth (async_auth s (some request) self) r).0
  unfolding async_auth after_auth generate_id
  auth-IsOff s request self r off =
      rw (off, async_auth, after_auth)
        (send_request-IsOff (record s { request_id = _ }) s.request_id self (request s.request_id)
          off)

  if-IsOff :
      (b : Bool) (x y : Internal Data × Next) → IsOff x.0 → IsOff y.0 → IsOff (if b then x else y).0
  if-IsOff true x y p q = p
  if-IsOff false x y p q = q

  reconnect-IsOff :
      (s : Internal Data) (request : ℕ → Data) (self : ℕ) (r : Round Data) (c : Connect)
      → IsOff s
      → r.connect ≡ c
      → IsOff (reconnect s (some request) self r).0
  unfolding reconnect
  reconnect-IsOff s request self r (throws e) off q =
      rw (q, reconnect) (reset_caught-IsOff (run s r.during_connect) (thrown_next e))
  reconnect-IsOff s request self r (refused e) off q =
      rw (q, reconnect) (run-IsOff s r.during_connect off)
  reconnect-IsOff s request self r established off q =
      rw (q, reconnect)
        (if-IsOff r.alive (after_auth (async_auth (run s r.during_connect) (some request) self) r)
          (run s r.during_connect, ends)
          (auth-IsOff (run s r.during_connect) request self r (run-IsOff s r.during_connect off))
          (run-IsOff s r.during_connect off))

  iterate-IsOff :
      (s : Internal Data) (request : ℕ → Data) (self : ℕ) (r : Round Data)
      → IsOff s
      → IsOff (iterate s (some request) self r).0
  unfolding iterate
  iterate-IsOff s request self r off = go s.state refl
    where
      go : (st : State) → s.state ≡ st → IsOff (iterate s (some request) self r).0
      go stopped q = rw (q, iterate) (reset_then-IsOff s ends)
      go connected q = absurd (ground arith)
      go connecting q = rw (q, iterate) (reconnect-IsOff s request self r r.connect off refl)

  go_on-IsOff : (x y : Internal Data × Next) → IsOff x.0 → IsOff y.0 → IsOff (go_on x y).0
  unfolding go_on
  go_on-IsOff (s, again) y p q = q
  go_on-IsOff (s, ends) y p q = p
  go_on-IsOff (s, waits) y p q = p
  go_on-IsOff (s, aborts) y p q = p
  go_on-IsOff (s, leaves) y p q = p

  -- The bug: with credentials the receive loop never gets back from a lost connection. Once the
  -- state is not `Connected`, it is not after any number of rounds of the loop, whatever the
  -- network, the server and the callers do.
  pub loop-credentials :
      (s : Internal Data) (request : ℕ → Data) (self : ℕ) (rs : List (Round Data))
      → is_connected s.state ≡ false
      → is_connected (loop s (some request) self rs).0.state ≡ false
  unfolding loop
  loop-credentials s request self [] off = off
  loop-credentials s request self (r ∷ rs) off =
      go_on-IsOff (iterate s (some request) self r) _ (iterate-IsOff s request self r off) (
        loop-credentials (iterate s (some request) self r).0 request self rs
          (iterate-IsOff s request self r off))

  -- Without credentials the loop does get back: a round in which a connection is established, and
  -- the connector is still there, ends as a round of the connected state does from then on.
  pub iterate-reconnected :
      (s : Internal Data) (self : ℕ) (r : Round Data)
      → s.state ≡ connecting
      → r.connect ≡ established
      → r.alive ≡ true
      → iterate s none self r ≡ receive (record (run s r.during_connect) { state = connected }) r
  unfolding iterate reconnect async_auth after_auth
  iterate-reconnected s self r e c a = ground arith
