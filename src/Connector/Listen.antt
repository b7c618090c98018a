-- ===== src/Connector/Listen.antt =====
-- include/tarantool_connector/tarantool_connector.hpp: the receive loop, `start`, on the stream of its
-- connection, up to the message that breaks it.
pub mod Script
pub mod Step
pub mod Refine
pub mod Once
pub mod Unbroken
pub mod Asked
mod Tests
use tntpp.Common.{ℕ, true, Option, none, some, List, [], ◌∷◌, ◌++◌}
use tntpp.Errc.{Result, ok, fail, abort}
use tntpp.Transport.{Transport}
use tntpp.Msgpack.{Msgpack}
use tntpp.Iproto.Header.{MessageHeader}
use tntpp.Framing.{Framing, IprotoFrame, receive_message}
use tntpp.Connector.{Internal, Event, Requests, handler, empty, find, insert, remove}
use tntpp.Connector.Loop.{Round, established, Next, again, go_on, loop}

module _ {Data : Type 0} where
  -- An iteration of a connected loop in which `receive_message` ends in this way. (How `connect` would
  -- end plays no part then.)
  abbrev pub round_of : List (Event Data) → Result IprotoFrame → Round Data
  round_of es r = record {
    during_connect = [];
    connect = established;
    alive = true;
    during_receive = es;
    message = r;
  }

-- The state of the connector and that of the framing of its connection.
abbrev pub After : Type 0 → Transport → Type 0
After Data t = (Internal Data × Next) × Framing t

module _ (t : Transport) (c : Msgpack) {Data : Type 0} where
  abbrev pub with_next : Internal Data × Next → After Data t → After Data t
  with_next x (y, fr) = (go_on x y, fr)

  -- A round whose message was received, before those that follow it if it is a frame.
  abbrev pub with_round :
      List (Event Data)
      → Result IprotoFrame × Framing t
      → List (Round Data) × Framing t
      → List (Round Data) × Framing t
  with_round es (ok f, fr) (rs, fr') = (round_of es (ok f) ∷ rs, fr')
  with_round es (fail e, fr) rest = (round_of es (fail e) ∷ [], fr)
  with_round es (abort, fr) rest = (round_of es abort ∷ [], fr)

  -- The rounds whose messages are those that `receive_message` gives, up to one that is not a frame,
  -- with the events that happen while each is awaited.
  unfoldable pub heard : Framing t → List (List (Event Data)) → List (Round Data) × Framing t
  heard fr [] = ([], fr)
  heard fr (es ∷ ess) =
      let x = receive_message t c fr in let rest = heard x.1 ess in with_round es x rest

  -- The receive loop on the stream of its connection.
  unfoldable pub listen :
      Internal Data → Option (ℕ → Data) → ℕ → Framing t → List (List (Event Data)) → After Data t
  unfolding loop heard
  listen s credentials self fr ess =
      let (rs, fr') = heard fr ess in (loop s credentials self rs, fr')
