-- ===== src/Connector/Shutdown.antt =====
-- include/tarantool_connector/tarantool_connector.hpp: how the receive loop ends when the
-- connector is destroyed.
use tntpp.Common.{ℕ, ◌≡◌, false, List, [], ◌∷◌, ◌++◌}
use tntpp.Errc.{ErrorCode, fail, operation_canceled}
use tntpp.Connector.{State, connected, stopped, Internal, Event, sends, destroys, run}
use tntpp.Connector.Live.{called}
use tntpp.Connector.Loop.{Round, Next}

-- A request with its id, its data and its caller.
abbrev pub Sent : Type 0 → Type 0
Sent Data = ℕ × Data × ℕ

module _ {Data : Type 0} where
  -- A loop that has ended, with every handler that was registered at the start called.
  abbrev pub Ended : Internal Data → Internal Data × Next → Type 0
  Ended s (s', next) =
      (next ≡ Next.ends)
      × (s'.state ≡ stopped)
      × (s'.requests ≡ [])
      × (s'.completions ≡ s.completions ++ called s.requests (fail operation_canceled))

  -- A destroyed connector, whatever else its state is.
  abbrev destroyed : Internal Data → Internal Data
  destroyed s = record s { state = stopped }

  -- The events in which requests are sent.
  abbrev pub sending : List (Sent Data) → List (Event Data)
  sending [] = []
  sending ((id, d, h) ∷ rs) = sends id d h ∷ sending rs

  -- A round in which the connector is destroyed while the loop waits, for a message after some
  -- requests were sent: `lock` finds it gone, and the closed socket fails the read.
  pub record IsLast (sent : List (Sent Data)) (r : Round Data) : Type 0 where
    pub during_connect : r.during_connect ≡ destroys ∷ []
    pub gone : r.alive ≡ false
    pub during_receive : r.during_receive ≡ sending sent ++ destroys ∷ []
    pub error : ErrorCode
    pub failed : r.message ≡ fail error

  -- The connector when it is destroyed: a connected one after the requests that were sent.
  abbrev pub waited : State → List (Sent Data) → Internal Data → Internal Data
  waited connected sent s = run s (sending sent)
  waited _ sent s = s
