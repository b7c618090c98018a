-- ===== src/Connector.antt =====
-- include/tarantool_connector/tarantool_connector.hpp: the requests under way and the receive loop.
-- All of it runs on the strand of the connection, so a history is a list of events.
pub mod Answers
pub mod Asks
pub mod Balance
pub mod Establish
pub mod Listen
pub mod Live
pub mod Loop
pub mod Order
pub mod Reconnect
pub mod Requests
pub mod Shutdown
mod Tests
use tntpp.Common.{
  ℕ, ◌+◌, ◌%◌, ◌^◌, Bool, true, false, Option, none, some, List, [], ◌∷◌, ◌++◌, ◌==◌, if◌then◌else◌,
}
use tntpp.Errc.{ErrorCode, Result, ok, fail, not_connected, operation_canceled, broken_pipe}
use tntpp.Iproto.Header.{MessageHeader}
use tntpp.Framing.{IprotoFrame}
use tntpp.Connection.{Connection, send_data, stop}

pub data State : Type 0 where
  connecting connected stopped : State

abbrev pub is_connected : State → Bool
is_connected connected = true
is_connected _ = false

-- A completion handler of the caller, by a number; `empty` is a handler that was called or moved
-- away. Calling an empty one is an exception. A handler of a caller returns, and sends no request
-- before it returns, except that `reset_among` has handlers that throw.
pub data Handler : Type 0 where
  handler : ℕ → Handler
  empty : Handler

-- A call of a handler: an error code with an empty frame, or a frame.
pub record Completion : Type 0 where
  pub caller : ℕ
  pub outcome : Result IprotoFrame

abbrev pub Requests : Type 0
Requests = List (ℕ × Handler)

-- `Connector::Internal`. `completions` are the calls of handlers so far, the oldest first.
pub record Internal (Data : Type 0) : Type 0 where
  pub state : State
  pub schema_version : ℕ
  pub request_id : ℕ
  pub requests : Requests
  pub conn : Connection Data
  pub completions : List Completion

-- A handler called with an outcome: what is left of it, the calls made, and whether it threw.
abbrev pub call : Handler → Result IprotoFrame → Handler × List Completion × Bool
call (handler h) r = (empty, record { caller = h; outcome = r } ∷ [], false)
call empty r = (empty, [], true)

abbrev pub find : ℕ → Requests → Option Handler
find id [] = none
find id ((j, h) ∷ rs) = if j == id then some h else find id rs

-- `unordered_map::insert` keeps an entry that is there.
unfoldable pub insert : ℕ → Handler → Requests → Requests
insert id h rs = elim (find id rs) [ none ↦ (id, h) ∷ rs | some k ↦ rs ]

-- `extract`: the entry, if any, and the others.
unfoldable pub remove : ℕ → Requests → Requests
remove id [] = []
remove id ((j, h) ∷ rs) = if j == id then rs else (j, h) ∷ remove id rs

-- The handlers of all requests are called in turn, until one throws: a caller's if `throws` says so,
-- an empty one always. A call leaves the handler empty, whether or not it throws.
unfoldable pub call_each :
    (ℕ → Bool) → Requests → Result IprotoFrame → Requests × List Completion × Bool
call_each throws [] r = ([], [], false)
call_each throws ((id, empty) ∷ rs) r = ((id, empty) ∷ rs, [], true)
call_each throws ((id, handler h) ∷ rs) r =
    let c : Completion = record { caller = h; outcome = r } in
    let (rs', done, threw) = call_each throws rs r in
    if throws h then ((id, empty) ∷ rs, c ∷ [], true) else ((id, empty) ∷ rs', c ∷ done, threw)

-- The same if no handler of a caller throws.
unfoldable pub call_all : Requests → Result IprotoFrame → Requests × List Completion × Bool
unfolding call_each
call_all rs r = call_each (λ _. false) rs r

abbrev pub lost : State → State
lost connected = connecting
lost s = s

abbrev pub reset_error : State → ErrorCode
reset_error stopped = operation_canceled
reset_error _ = broken_pipe

module _ {Data : Type 0} where
  -- `fetch_add`: the old value.
  unfoldable pub generate_id : Internal Data → ℕ × Internal Data
  generate_id s = (s.request_id, record s { request_id = (s.request_id + 1) % 2 ^ 64 })

  -- A request with its id goes to the map and its data to the connection, whether or not the
  -- handler was called before because there is no connection.
  unfoldable pub register : Internal Data → ℕ → Handler → Data → Internal Data
  register s id h d = record s { requests = insert id h s.requests; conn = send_data s.conn d }

  unfoldable pub send_request : Internal Data → ℕ → Data → ℕ → Internal Data
  unfolding register
  send_request s id d h = elim (is_connected s.state) [
    | true ↦ register s id (handler h) d
    | false ↦
        let (rest, done, threw) = call (handler h) (fail not_connected) in
        register (record s { completions = s.completions ++ done }) id rest d
  ]

  -- The end of `reset`, which an exception of a handler skips.
  unfoldable pub finish_reset :
      Internal Data → Requests × List Completion × Bool → Internal Data × Bool
  finish_reset s (rs, done, true) =
      (record s { requests = rs; completions = s.completions ++ done }, true)
  finish_reset s (rs, done, false) =
      (record s { requests = []; completions = s.completions ++ done; conn = stop s.conn }, false)

  -- The new state, and whether a handler threw, when the handlers of the callers that `throws` says
  -- throw.
  unfoldable pub reset_among : (ℕ → Bool) → Internal Data → Internal Data × Bool
  unfolding finish_reset call_each
  reset_among throws s =
      let s' = record s { state = lost s.state } in
      finish_reset s' (call_each throws s'.requests (fail (reset_error s'.state)))

  -- `reset` when no handler of a caller throws, as in the histories below.
  unfoldable pub reset : Internal Data → Internal Data × Bool
  unfolding finish_reset call_all
  reset s =
      let s' = record s { state = lost s.state } in
      finish_reset s' (call_all s'.requests (fail (reset_error s'.state)))

  -- A message of the server. An exception of the handler is caught and logged.
  unfoldable pub on_message : Internal Data → IprotoFrame → Internal Data
  on_message s f =
      let s' = record s { schema_version = f.header.schema_version } in
      elim (find f.header.sync s'.requests) [
        | none ↦ s'
        | some h ↦
            let (rest, done, threw) = call h (ok f) in
            record s' {
              requests = remove f.header.sync s'.requests;
              completions = s'.completions ++ done;
            }
      ]

  -- The destructor of `Connector`, on the strand.
  unfoldable pub destroy : Internal Data → Internal Data
  destroy s = record s { state = stopped; conn = stop s.conn }

  -- The constructor, for an established connection.
  unfoldable pub new_internal : Connection Data → Internal Data
  new_internal conn = record {
    state = connected;
    schema_version = 0;
    request_id = 0;
    requests = [];
    conn = conn;
    completions = [];
  }

-- What happens on the strand: a request is sent, a message arrives, the receive loop resets, the
-- connector is destroyed.
pub data Event (Data : Type 0) : Type 0 where
  sends : ℕ → Data → ℕ → Event Data
  receives : IprotoFrame → Event Data
  resets : Event Data
  destroys : Event Data

module _ {Data : Type 0} where
  unfoldable pub step : Internal Data → Event Data → Internal Data
  step s (sends id d h) = send_request s id d h
  step s (receives f) = on_message s f
  step s resets = (reset s).0
  step s destroys = destroy s

  unfoldable pub run : Internal Data → List (Event Data) → Internal Data
  unfolding step
  run s [] = s
  run s (e ∷ es) = run (step s e) es
