-- ===== src/Connector/Requests/Tests.antt =====
-- Requests on small inputs.
use mathlib.Core.List.{flatten}
use tntpp.Common.{ℕ, none, List, map, ◌≡◌, refl, [], ◌∷◌, ◌++◌, arith}
use tntpp.Msgpack.Small.{small, small-ReadsBack}
use tntpp.Transport.Tape.{tape, tape-IsStream}
use tntpp.Buffer.{MutableBuffer, new_buffer, new_shared}
use tntpp.Buffer.Transfer.{new_buffer-IsValid}
use tntpp.Framing.{Framing, receive_message}
use tntpp.Framing.Ready.{IsReady}
use tntpp.Queue.{new_queue, push, is_ready, swap}
use tntpp.Connection.{
  new_connection, run, step, Event, sends, written, send_data, on_data_sent, init_queue_send,
  init_single_send,
}
use tntpp.Connection.Send.{outstanding}
use tntpp.Connector.Requests.Pipeline.{Arrives, message_of, receive_many, run-Arrives}
use tntpp.Connector.Requests.Received.{Delivers, command_data-Delivers}
use tntpp.Request.{new_packer, pack, finalize}
use tntpp.Iproto.Types.{
  request_number, field_number, ping, auth, function_name, tuple, username, expr,
}
use tntpp.Iproto.Types
use tntpp.Iproto.Header.{pack_header, set_request_type, default_header}
use tntpp.Connector.Requests.{ping_data, call_data}
use tntpp.Connector.Requests.Bytes.{Command, pings, calls, two_entries}

ping_bytes : ping_data small 3 ≡ 0xce ∷ 0 ∷ 0 ∷ 0 ∷ 6 ∷ 0x82 ∷ 1 ∷ 3 ∷ 0 ∷ 0x40 ∷ 0x80 ∷ []
unfolding ping_data new_packer pack finalize pack_header set_request_type default_header
    request_number field_number
ping_bytes = refl

abbrev four : MutableBuffer
unfolding new_buffer new_shared
four = new_buffer 4

four-IsReady : IsReady four
unfolding four
four-IsReady = record {
  valid = new_buffer-IsValid 4 (omega arith);
  positive = omega arith;
  default_le = omega arith;
  size_le = omega arith;
}

-- A call on the wire, and one byte behind it.
abbrev wire : Framing tape
wire = record { next_layer = call_data small 3 (102 ∷ []) (0x80 ∷ []) ++ 9 ∷ []; buffer = four }

command_data-Delivers_example :
    Delivers tape tape-IsStream small 3 Types.call
      (two_entries small function_name (102 ∷ []) (0x80 ∷ []))
      (9 ∷ [])
      (receive_message tape small wire)
unfolding four pack_header set_request_type default_header request_number field_number
command_data-Delivers_example =
    command_data-Delivers tape tape-IsStream small small-ReadsBack wire
      (calls (102 ∷ []) (0x80 ∷ [])) 3 (9 ∷ []) four-IsReady refl (omega arith) (omega arith)
      (omega arith)

-- A ping and a call, of which the second waits until the first was written.
abbrev posts : List (Command × ℕ)
posts = (pings, 0) ∷ (calls (102 ∷ []) (0x80 ∷ []), 1) ∷ []

abbrev exchange : List (Event (List ℕ))
exchange =
    sends (ping_data small 0)
    ∷ sends (call_data small 1 (102 ∷ []) (0x80 ∷ []))
    ∷ written none
    ∷ written none
    ∷ []

abbrev line : Framing tape
unfolding new_connection new_queue
line = record {
  next_layer = flatten (flatten (run (new_connection 32) exchange).writes) ++ 9 ∷ [];
  buffer = four;
}

run-Arrives_example :
    Arrives tape tape-IsStream small
      (map (message_of tape tape-IsStream small) posts)
      (9 ∷ [])
      (receive_many tape tape-IsStream small 2 line)
unfolding four line new_connection new_queue outstanding run step send_data on_data_sent
    init_queue_send init_single_send push is_ready swap flatten pack_header set_request_type
    default_header request_number field_number
run-Arrives_example =
    run-Arrives tape tape-IsStream small small-ReadsBack 32 exchange posts line (9 ∷ [])
      (tt, (tt, (omega arith, (omega arith, tt)))) tt refl refl
      (omega arith, omega arith, omega arith, (omega arith, omega arith, omega arith, tt))
      four-IsReady refl
