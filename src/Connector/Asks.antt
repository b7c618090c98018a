-- ===== src/Connector/Asks.antt =====
-- include/tarantool_connector/tarantool_connector.hpp: histories in which every request gets its id
-- from `generate_id`, as `ping`, `call`, `eval` and the data operations of Box do it.
use tntpp.Common.{
  ℕ, ◌+◌, ◌%◌, ◌^◌, ◌≡◌, ◌<◌, ◌≤◌, refl, ◌∙◌, Bool, true, false, List, [], ◌∷◌, arith,
}
use tntpp.Errc.{fail}
use tntpp.Framing.{IprotoFrame}
use tntpp.Connector.{
  Internal, handler, Requests, Completion, generate_id, send_request, register, on_message, reset,
  finish_reset, destroy, call_all, reset_error, lost,
}
use tntpp.Connector.Balance.{
  balance, mark, mem, Keys, send_request-balance, on_message-balance, reset-balance,
}

-- A request with its data and handler, a message, a reset, the end of the connector.
pub data Ask (Data : Type 0) : Type 0 where
  asks : Data → ℕ → Ask Data
  answers : IprotoFrame → Ask Data
  breaks : Ask Data
  ends : Ask Data

-- The requests of a caller.
abbrev pub asked : {Data : Type 0} → ℕ → List (Ask Data) → ℕ
asked h [] = 0
asked h (asks d k ∷ es) = mark h (handler k) + asked h es
asked h (_ ∷ es) = asked h es

-- The number of requests.
abbrev pub demand : {Data : Type 0} → List (Ask Data) → ℕ
demand [] = 0
demand (asks d k ∷ es) = 1 + demand es
demand (_ ∷ es) = demand es

-- Ids less than a number.
abbrev pub Below : ℕ → List ℕ → Type 0
Below n [] = Unit
Below n (j ∷ js) = (j < n) × Below n js

pub Below-unused : (n : ℕ) (js : List ℕ) → Below n js → mem n js ≡ false
Below-unused n [] b = refl
Below-unused n (j ∷ js) (lt, b) = ground (arith, Below-unused n js b)

Below-suc : (n m : ℕ) (js : List ℕ) → n ≤ m → Below n js → Below m js
Below-suc n m [] le b = tt
Below-suc n m (j ∷ js) le (lt, b) = (omega arith, Below-suc n m js le b)

module _ {Data : Type 0} where
  unfoldable pub serve : Internal Data → Ask Data → Internal Data
  serve s (asks d h) = let (id, s') = generate_id s in send_request s' id d h
  serve s (answers f) = on_message s f
  serve s breaks = (reset s).0
  serve s ends = destroy s

  unfoldable pub serve_all : Internal Data → List (Ask Data) → Internal Data
  unfolding serve
  serve_all s [] = s
  serve_all s (e ∷ es) = serve_all (serve s e) es

  -- The ids of the registered requests have been given out.
  abbrev pub IsIssued : Internal Data → Type 0
  IsIssued s = (used : List ℕ) × Keys s.requests used × Below s.request_id used

  pub request_id-send_request :
      (s : Internal Data) (id : ℕ) (d : Data) (h : ℕ)
      → (send_request s id d h).request_id ≡ s.request_id
  unfolding send_request register
  request_id-send_request s id d h = ground arith

  pub request_id-on_message :
      (s : Internal Data) (f : IprotoFrame) → (on_message s f).request_id ≡ s.request_id
  unfolding on_message
  request_id-on_message s f = ground arith

  request_id-finish_reset :
      (s : Internal Data) (x : Requests × List Completion × Bool)
      → (finish_reset s x).0.request_id ≡ s.request_id
  unfolding finish_reset
  request_id-finish_reset s (rs, done, true) = refl
  request_id-finish_reset s (rs, done, false) = refl

  request_id-reset : (s : Internal Data) → (reset s).0.request_id ≡ s.request_id
  unfolding reset
  request_id-reset s =
      request_id-finish_reset (record s { state = lost s.state })
        (call_all s.requests (fail (reset_error (lost s.state))))

  -- In a history in which every request gets its id from `generate_id`, and these do not wrap
  -- around 2^64, the number of calls made to a caller and of its handlers still registered is that
  -- before the history and the number of its requests in the history, whatever messages, resets
  -- and errors the history has.
  pub balance-serve_all :
      (h : ℕ) (s : Internal Data) (es : List (Ask Data))
      → IsIssued s
      → s.request_id + demand es < 2 ^ 64
      → balance h (serve_all s es) ≡ balance h s + asked h es
  unfolding serve_all generate_id destroy
  balance-serve_all h s [] i lt = omega arith
  balance-serve_all h s (asks d k ∷ es) (used, keys, below) lt =
      let n = s.request_id in
      let s' : Internal Data = record s { request_id = (n + 1) % 2 ^ 64 } in
      let (b, keys') = send_request-balance h s' used n d k keys (Below-unused n used below) in
      let same = request_id-send_request s' n d k in
      let le : n + 1 ≤ (send_request s' n d k).request_id = omega (arith, same) in
      balance-serve_all h (send_request s' n d k) es
        (n ∷ used, keys', (omega arith, Below-suc n _ used (omega arith) below))
        (omega (arith, same))
      ∙ omega (arith, b)
  balance-serve_all h s (answers f ∷ es) (used, keys, below) lt =
      let (b, keys') = on_message-balance h s used f keys in
      let same = request_id-on_message s f in
      balance-serve_all h (on_message s f) es
        (used, keys', Below-suc s.request_id _ used (omega (arith, same)) below)
        (omega (arith, same))
      ∙ omega (arith, b)
  balance-serve_all h s (breaks ∷ es) (used, keys, below) lt =
      let (b, keys') = reset-balance h s used keys in
      let same = request_id-reset s in
      balance-serve_all h (reset s).0 es
        (used, keys', Below-suc s.request_id _ used (omega (arith, same)) below)
        (omega (arith, same))
      ∙ omega (arith, b)
  balance-serve_all h s (ends ∷ es) i lt = balance-serve_all h (destroy s) es i lt
