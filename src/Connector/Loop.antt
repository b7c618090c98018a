-- ===== src/Connector/Loop.antt =====
-- include/tarantool_connector/tarantool_connector.hpp: `async_auth` as far as it runs before its
-- answer, and the receive loop, `start`. What the outside does in an iteration is an argument.
use tntpp.Common.{ℕ, Bool, Option, none, some, List, [], ◌∷◌, if◌then◌else◌}
use tntpp.Errc.{ErrorCode, Result, ok, fail, abort, not_connected, operation_canceled}
use tntpp.Framing.{IprotoFrame}
use tntpp.Connector.{
  connecting, connected, stopped, Internal, Event, generate_id, send_request, is_connected, reset,
  on_message, run,
}

-- How `connect` ends: with a connection, with an error code, or by an exception with one.
pub data Connect : Type 0 where
  established : Connect
  refused throws : ErrorCode → Connect

-- One iteration as the outside decides it: what else runs on the strand while the loop waits for
-- `connect` and for a message, how these end, and whether the connector is still there.
pub record Round (Data : Type 0) : Type 0 where
  pub during_connect : List (Event Data)
  pub connect : Connect
  pub alive : Bool
  pub during_receive : List (Event Data)
  pub message : Result IprotoFrame

-- The loop goes on, ends, waits for an answer that only it could read, an assertion fails, or an
-- exception leaves the coroutine.
pub data Next : Type 0 where
  again ends waits aborts leaves : Next

-- What is known of the result of `async_auth` when it has sent its request.
pub data Auth : Type 0 where
  done : Option ErrorCode → Auth
  waiting : Auth

-- A thrown `system_error` stops the loop if it says that the operation was canceled.
abbrev pub thrown_next : ErrorCode → Next
thrown_next operation_canceled = ends
thrown_next _ = again

module _ {Data : Type 0} where
  -- The request is `request id`; without credentials there is none. Its handler is the caller
  -- `self`; without a connection it is called at once.
  unfoldable pub async_auth : Internal Data → Option (ℕ → Data) → ℕ → Internal Data × Auth
  async_auth s none self = (s, done none)
  async_auth s (some request) self =
      let (id, s') = generate_id s in
      (
        send_request s' id (request id) self,
        if is_connected s.state then waiting else done (some not_connected),
      )

  -- In the `try` block an exception of a handler in `reset` ends in `assert(false)`.
  unfoldable pub reset_then : Internal Data → Next → Internal Data × Next
  reset_then s next = let (s', threw) = reset s in (s', if threw then aborts else next)

  -- In a handler of the loop's own it is caught no more.
  unfoldable pub reset_caught : Internal Data → Next → Internal Data × Next
  reset_caught s next = let (s', threw) = reset s in (s', if threw then leaves else next)

  unfoldable pub receive : Internal Data → Round Data → Internal Data × Next
  unfolding reset_then
  receive s r = elim r.message [
    | ok f ↦ (on_message (run s r.during_receive) f, again)
    | fail e ↦ reset_then (run s r.during_receive) again
    | abort ↦ (run s r.during_receive, aborts)
  ]

  unfoldable pub after_auth : Internal Data × Auth → Round Data → Internal Data × Next
  unfolding receive
  after_auth (s, done none) r = receive (record s { state = connected }) r
  after_auth (s, done (some e)) r = (s, again)
  after_auth (s, waiting) r = (s, waits)

  unfoldable pub reconnect :
      Internal Data → Option (ℕ → Data) → ℕ → Round Data → Internal Data × Next
  unfolding reset_caught after_auth async_auth
  reconnect s credentials self r =
      let s' = run s r.during_connect in
      elim r.connect [
        | throws e ↦ reset_caught s' (thrown_next e)
        | refused e ↦ (s', again)
        | established ↦
            if r.alive then after_auth (async_auth s' credentials self) r else (s', ends)
      ]

  -- One iteration of the loop.
  unfoldable pub iterate : Internal Data → Option (ℕ → Data) → ℕ → Round Data → Internal Data × Next
  unfolding reset_then reconnect receive
  iterate s credentials self r = elim s.state [
    | stopped ↦ reset_then s ends
    | connected ↦ receive s r
    | connecting ↦ reconnect s credentials self r
  ]

  -- The state after an iteration, and after what follows if the loop goes on.
  unfoldable pub go_on : Internal Data × Next → Internal Data × Next → Internal Data × Next
  go_on (s, again) rest = rest
  go_on (s, ends) rest = (s, ends)
  go_on (s, waits) rest = (s, waits)
  go_on (s, aborts) rest = (s, aborts)
  go_on (s, leaves) rest = (s, leaves)

  -- The loop through some rounds, as long as it goes on.
  unfoldable pub loop :
      Internal Data → Option (ℕ → Data) → ℕ → List (Round Data) → Internal Data × Next
  unfolding iterate go_on
  loop s credentials self [] = (s, again)
  loop s credentials self (r ∷ rs) =
      let x = iterate s credentials self r in
      let rest = loop x.0 credentials self rs in go_on x rest
