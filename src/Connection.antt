-- ===== src/Connection.antt =====
-- include/tarantool_connector/connection.h: sending. All handlers run on one strand, so a history
-- is a list of events. The write operations that were started are kept, oldest first.
pub mod Connect
pub mod Send
pub mod Session
mod Tests
use tntpp.Common.{ℕ, ◌≡◌, Bool, true, false, Option, none, some, List, [], ◌∷◌, ◌++◌, if◌then◌else◌}
use tntpp.Errc.{ErrorCode}
use tntpp.Queue.{DbQueue, new_queue, push, is_ready, swap}
use tntpp.Queue

-- The part of `Connection` that sends: `m_sending`, `m_queue`, whether the socket is open, and the
-- data of each call of `async_write`. `Data` is what a message is.
pub record Connection (Data : Type 0) : Type 0 where
  pub sending : Bool
  pub queue : DbQueue Data
  pub is_open : Bool
  pub writes : List (List Data)

pub data Event (Data : Type 0) : Type 0 where
  sends : Data → Event Data
  written : Option ErrorCode → Event Data

module _ {Data : Type 0} where
  unfoldable pub new_connection : ℕ → Connection Data
  new_connection capacity = record {
    sending = false;
    queue = new_queue capacity;
    is_open = true;
    writes = [];
  }

  unfoldable pub init_single_send : Connection Data → Data → Connection Data
  init_single_send c d = record c { sending = true; writes = c.writes ++ (d ∷ []) ∷ [] }

  unfoldable pub send_data : Connection Data → Data → Connection Data
  unfolding init_single_send
  send_data c d = if c.sending then record c { queue = push c.queue d } else init_single_send c d

  unfoldable pub init_queue_send : Connection Data → Connection Data
  init_queue_send c =
      let q = swap c.queue in
      record c { sending = true; queue = q; writes = c.writes ++ q.inactive ∷ [] }

  -- `m_stream.next_layer().close()`.
  unfoldable pub stop : Connection Data → Connection Data
  stop c = record c { is_open = false }

  -- What an error code of the write does: the socket is closed and the queue emptied.
  unfoldable pub on_send_error : Connection Data → Option ErrorCode → Connection Data
  on_send_error c none = c
  on_send_error c (some e) = record c { is_open = false; queue = Queue.clear c.queue }

  unfoldable pub on_data_sent : Connection Data → Option ErrorCode → Connection Data
  unfolding on_send_error init_queue_send
  on_data_sent c ec =
      let c' = on_send_error (record c { sending = false }) ec in
      if is_ready c'.queue then init_queue_send c' else c'

  unfoldable pub step : Connection Data → Event Data → Connection Data
  unfolding send_data on_data_sent
  step c (sends d) = send_data c d
  step c (written ec) = on_data_sent c ec

  unfoldable pub run : Connection Data → List (Event Data) → Connection Data
  unfolding step
  run c [] = c
  run c (e ∷ es) = run (step c e) es
