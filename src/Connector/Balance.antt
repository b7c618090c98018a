-- ===== src/Connector/Balance.antt =====
-- include/tarantool_connector/tarantool_connector.hpp: the calls of handlers and the handlers still
-- registered.
use tntpp.Common.{
  ℕ, ◌+◌, ◌≡◌, refl, subst, ◌∙◌, Bool, true, false, ◌||◌, none, some, List, [], ◌∷◌, ◌++◌, arith,
  ◌==◌, if◌then◌else◌, Bool-cases, Option-cases, inl, inr,
}
use tntpp.Errc.{Result, ok, fail}
use tntpp.Framing.{IprotoFrame}
use tntpp.Connector.{
  Handler, handler, empty, Completion, Requests, Internal, find, insert, remove, call, call_all,
  send_request, register, finish_reset, reset, on_message, destroy, Event, sends, receives, resets,
  destroys, run, lost, reset_error, is_connected,
}

-- Is this the handler of the caller `h`?
abbrev pub mark : ℕ → Handler → ℕ
mark h (handler k) = if k == h then 1 else 0
mark h empty = 0

-- The registered handlers of a caller, and the calls made to it.
abbrev pub registered : ℕ → Requests → ℕ
registered h [] = 0
registered h ((id, k) ∷ rs) = mark h k + registered h rs

abbrev pub calls : ℕ → List Completion → ℕ
calls h [] = 0
calls h (c ∷ cs) = mark h (handler c.caller) + calls h cs

calls-append : (h : ℕ) (xs ys : List Completion) → calls h (xs ++ ys) ≡ calls h xs + calls h ys
calls-append h [] ys = omega arith
calls-append h (x ∷ xs) ys = omega (arith, calls-append h xs ys)

abbrev pub mem : ℕ → List ℕ → Bool
mem id [] = false
mem id (j ∷ js) = (j == id) || mem id js

-- Every registered request has one of these ids.
abbrev pub Keys : Requests → List ℕ → Type 0
Keys [] used = Unit
Keys ((id, k) ∷ rs) used = (mem id used ≡ true) × Keys rs used

Keys-cons : (rs : Requests) (used : List ℕ) (id : ℕ) → Keys rs used → Keys rs (id ∷ used)
Keys-cons [] used id k = tt
Keys-cons ((j, h) ∷ rs) used id (m, k) = (ground arith, Keys-cons rs used id k)

mem_self : (id : ℕ) (used : List ℕ) → mem id (id ∷ used) ≡ true
mem_self id used = ground arith

pub find-unused :
    (rs : Requests) (used : List ℕ) (id : ℕ)
    → Keys rs used
    → mem id used ≡ false
    → find id rs ≡ none
find-unused [] used id k n = refl
find-unused ((j, h) ∷ rs) used id (m, k) n = elim (Bool-cases (j == id)) [
  | inl e ↦ absurd (clash (subst (λ x. mem x used ≡ true) (same e) m) n)
  | inr e ↦ rw e (find-unused rs used id k n)
]
  where
    same : (j == id) ≡ true → j ≡ id
    same e = ground arith

    clash : mem id used ≡ true → mem id used ≡ false → ⊥
    clash p q = cc

registered-remove :
    (h id : ℕ) (rs : Requests) (k : Handler)
    → find id rs ≡ some k
    → registered h rs ≡ mark h k + registered h (remove id rs)
unfolding remove
registered-remove h id [] k e = cc
registered-remove h id ((j, k') ∷ rs) k e = ground (arith, registered-remove h id rs k)

Keys-remove : (rs : Requests) (used : List ℕ) (id : ℕ) → Keys rs used → Keys (remove id rs) used
unfolding remove
Keys-remove [] used id k = tt
Keys-remove ((j, h) ∷ rs) used id (m, k) = ground (arith, Keys-remove rs used id k)

registered-call_all :
    (h : ℕ) (rs : Requests) (r : Result IprotoFrame)
    → calls h (call_all rs r).1 + registered h (call_all rs r).0 ≡ registered h rs
unfolding call_all
registered-call_all h [] r = refl
registered-call_all h ((id, empty) ∷ rs) r = omega arith
registered-call_all h ((id, handler k) ∷ rs) r = omega (arith, registered-call_all h rs r)

Keys-call_all :
    (rs : Requests) (r : Result IprotoFrame) (used : List ℕ)
    → Keys rs used
    → Keys (call_all rs r).0 used
unfolding call_all
Keys-call_all [] r used k = tt
Keys-call_all ((id, empty) ∷ rs) r used k = k
Keys-call_all ((id, handler h) ∷ rs) r used (m, k) = (m, Keys-call_all rs r used k)

-- If no handler throws, all were called.
registered-call_all_done :
    (h : ℕ) (rs : Requests) (r : Result IprotoFrame)
    → (call_all rs r).2 ≡ false
    → registered h (call_all rs r).0 ≡ 0
unfolding call_all
registered-call_all_done h [] r e = refl
registered-call_all_done h ((id, empty) ∷ rs) r e = cc
registered-call_all_done h ((id, handler k) ∷ rs) r e =
    omega (arith, registered-call_all_done h rs r e)

module _ {Data : Type 0} where
  -- The calls to a caller and its handlers still registered.
  abbrev pub balance : ℕ → Internal Data → ℕ
  balance h s = calls h s.completions + registered h s.requests

  -- The requests of a history that a caller made.
  abbrev pub made : ℕ → List (Event Data) → ℕ
  made h [] = 0
  made h (sends id d k ∷ es) = mark h (handler k) + made h es
  made h (e ∷ es) = made h es

  -- No request has an id that is in use or that an earlier one of the history had.
  abbrev pub Distinct : List ℕ → List (Event Data) → Type 0
  Distinct used [] = Unit
  Distinct used (sends id d k ∷ es) = (mem id used ≡ false) × Distinct (id ∷ used) es
  Distinct used (e ∷ es) = Distinct used es

  abbrev used_after : List ℕ → Event Data → List ℕ
  used_after used (sends id d k) = id ∷ used
  used_after used _ = used

  pub send_request-balance :
      (h : ℕ) (s : Internal Data) (used : List ℕ) (id : ℕ) (d : Data) (k : ℕ)
      → Keys s.requests used
      → mem id used ≡ false
      → (balance h (send_request s id d k) ≡ balance h s + mark h (handler k))
        × Keys (send_request s id d k).requests (id ∷ used)
  unfolding send_request register insert
  send_request-balance h s used id d k keys n = elim (Bool-cases (is_connected s.state)) [
    | inl e ↦
        rw (e, send_request, find-unused s.requests used id keys n, insert, register)
          (omega arith, (mem_self id used, Keys-cons s.requests used id keys))
    | inr e ↦
        rw (e, send_request, find-unused s.requests used id keys n, insert, register)
          (
            omega (arith, calls-append h s.completions _),
            (mem_self id used, Keys-cons s.requests used id keys),
          )
  ]

  pub on_message-balance :
      (h : ℕ) (s : Internal Data) (used : List ℕ) (f : IprotoFrame)
      → Keys s.requests used
      → (balance h (on_message s f) ≡ balance h s) × Keys (on_message s f).requests used
  unfolding on_message
  on_message-balance h s used f keys = elim (Option-cases (find f.header.sync s.requests)) [
    | inl e ↦ rw (e, on_message) (refl, keys)
    | inr (k, e) ↦
        rw (e, on_message)
          (
            called k (registered-remove h f.header.sync s.requests k e),
            Keys-remove s.requests used f.header.sync keys,
          )
  ]
    where
      called :
          (k : Handler)
          → registered h s.requests ≡ mark h k + registered h (remove f.header.sync s.requests)
          → calls h (s.completions ++ (call k (ok f)).1)
              + registered h (remove f.header.sync s.requests)
            ≡ balance h s
      called (handler k) e = omega (arith, calls-append h s.completions (call (handler k) (ok f)).1)
      called empty e = omega (arith, calls-append h s.completions [])

  pub reset-balance :
      (h : ℕ) (s : Internal Data) (used : List ℕ)
      → Keys s.requests used
      → (balance h (reset s).0 ≡ balance h s) × Keys (reset s).0.requests used
  unfolding reset finish_reset
  reset-balance h s used keys =
      go (call_all s.requests (fail (reset_error (lost s.state))))
        (registered-call_all h s.requests (fail (reset_error (lost s.state))))
        (Keys-call_all s.requests (fail (reset_error (lost s.state))) used keys)
        (registered-call_all_done h s.requests (fail (reset_error (lost s.state))))
    where
      go :
          (x : Requests × List Completion × Bool)
          → calls h x.1 + registered h x.0 ≡ registered h s.requests
          → Keys x.0 used
          → (x.2 ≡ false → registered h x.0 ≡ 0)
          → (balance h (finish_reset (record s { state = lost s.state }) x).0 ≡ balance h s)
            × Keys (finish_reset (record s { state = lost s.state }) x).0.requests used
      go (rs, done, true) b k z = (omega (arith, calls-append h s.completions done), k)
      go (rs, done, false) b k z = (omega (arith, calls-append h s.completions done, z refl), tt)

  -- The number of calls made to a caller and of its handlers still registered is that before the
  -- history and the number of its requests in the history, whatever messages, resets and errors
  -- the history has, if no request uses an id that another one of the history, or one still
  -- registered before it, has: so a caller of one request is called at most once, and is called
  -- unless its handler is still registered.
  pub balance-run :
      (h : ℕ) (s : Internal Data) (used : List ℕ) (es : List (Event Data))
      → Keys s.requests used
      → Distinct used es
      → balance h (run s es) ≡ balance h s + made h es
  unfolding run destroy
  balance-run h s used [] k d = omega arith
  balance-run h s used (sends id x j ∷ es) k (n, d) =
      let (b, k') = send_request-balance h s used id x j k n in
      balance-run h (send_request s id x j) (id ∷ used) es k' d ∙ omega (arith, b)
  balance-run h s used (receives f ∷ es) k d =
      let (b, k') = on_message-balance h s used f k in
      balance-run h (on_message s f) used es k' d ∙ omega (arith, b)
  balance-run h s used (resets ∷ es) k d =
      let (b, k') = reset-balance h s used k in
      balance-run h (reset s).0 used es k' d ∙ omega (arith, b)
  balance-run h s used (destroys ∷ es) k d = balance-run h (destroy s) used es k d
