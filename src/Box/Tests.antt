-- ===== src/Box/Tests.antt =====
-- Data operations on small inputs.
use tntpp.Common.{ℕ, ◌≡◌, List, [], ◌∷◌, arith, some}
use tntpp.Msgpack.Small.{small, small-ReadsBack}
use tntpp.Request.Frame.{frame}
use tntpp.Iproto.Types.{request_number, field_number, insert, replace, delete, tuple, key}
use tntpp.Iproto.Header.{pack_header, set_request_type, default_header}
use tntpp.Connection.{new_connection}
use tntpp.Queue.{new_queue}
use tntpp.Connector.{Internal, new_internal, send_request}
use tntpp.Connector.Requests.Bytes.{field}
use tntpp.Box.{
  Choice, with_limit, with_key, with_index, monostate, number, new_builder, choose_all, send_select,
  send_insert, send_replace, send_remove,
}
use tntpp.Box.Bytes.{Sends, in_space, send_to_space-Sends}
use tntpp.Box.Select.{selection, select_body, send_select_lem}

abbrev start : Internal (List ℕ)
unfolding new_internal new_connection new_queue
start = new_internal (new_connection 32)

send_to_space-Sends_example :
    Sends small start insert
      (in_space small (field small tuple (5 ∷ [])) 512)
      9
      (send_insert small start (number 512) (5 ∷ []) 9)
    × Sends small start replace
        (in_space small (field small tuple (5 ∷ [])) 512)
        9
        (send_replace small start (number 512) (5 ∷ []) 9)
    × Sends small start delete
        (in_space small (field small key (5 ∷ [])) 512)
        9
        (send_remove small start (number 512) (5 ∷ []) 9)
unfolding start pack_header set_request_type default_header request_number field_number
send_to_space-Sends_example =
    send_to_space-Sends small small-ReadsBack start 512 9 (5 ∷ []) (omega arith) (omega arith)
      (omega arith) (omega arith)

abbrev chosen : List Choice
chosen = with_limit 10 ∷ with_key (5 ∷ []) ∷ with_index (number 1) ∷ []

send_select_lem_example :
    send_select small start (choose_all small (new_builder small (number 512) monostate 4) chosen) 9
    ≡ some (send_request start 4 (frame (select_body small 4 (selection small chosen 512))) 9)
unfolding start pack_header set_request_type default_header request_number field_number
send_select_lem_example =
    send_select_lem small start 512 4 9 monostate chosen (omega arith) (omega arith)
