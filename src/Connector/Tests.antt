-- ===== src/Connector/Tests.antt =====
-- Requests, resets and reconnects on small histories.
use mathlib.Core.List.{Permᴰ}
use tntpp.Common.{
  arith, ℕ, ◌+◌, ◌≡◌, ◌≢◌, refl, sym, true, false, none, some, List, [], ◌∷◌, ◌++◌, ◌==◌,
}
use tntpp.Errc.{ok, fail, not_connected, operation_canceled}
use tntpp.Buffer.{default_frozen}
use tntpp.Framing.{IprotoFrame}
use tntpp.Connection.{new_connection, send_data}
use tntpp.Queue.{new_queue}
use tntpp.Connector.{
  Internal, handler, connecting, empty, find, is_connected, new_internal, send_request, reset,
  reset_among, sends, destroys,
}
use tntpp.Connector.Answers.{answers_its_request}
use tntpp.Connector.Live.{IsServing, Resets, reset-serve_all}
use tntpp.Connector.Order.Alike.{Alike, reset-Alike}
use tntpp.Connector.Asks.{
  Ask, asks, answers, breaks, ends, asked, serve, serve_all, balance-serve_all,
}
use tntpp.Connector.Balance.{balance}
use tntpp.Connector.Loop.{Round, established, loop}
use tntpp.Connector.Reconnect.{ids, send_request-not_connected, loop-credentials}

abbrev start : Internal ℕ
unfolding new_internal new_connection new_queue
start = new_internal (new_connection 32)

abbrev answer : IprotoFrame
unfolding default_frozen
answer = record {
  header = record { request_type = 0; sync = 1; schema_version = 3; stream_id = none };
  body = default_frozen;
}

abbrev off : Internal ℕ
unfolding start
off = record start { state = connecting }

send_request-not_connected_example :
    let s' = send_request off 5 50 9 in
    (s'.completions ≡ off.completions ++ record { caller = 9; outcome = fail not_connected } ∷ [])
    × (s'.conn ≡ send_data off.conn 50)
    × (find 5 s'.requests ≡ some empty)
    × ((reset s').1 ≡ true)
    × (ids (reset s').0.requests ≡ ids s'.requests)
    × ((reset s').0.conn ≡ s'.conn)
unfolding off
send_request-not_connected_example = send_request-not_connected off 5 9 50 refl refl

abbrev good_round : Round ℕ
good_round = record {
  during_connect = [];
  connect = established;
  alive = true;
  during_receive = [];
  message = ok answer;
}

loop-credentials_example :
    is_connected (loop off (some (λ id. id + 100)) 1 (good_round ∷ good_round ∷ [])).0.state ≡ false
unfolding off
loop-credentials_example =
    loop-credentials off (λ id. id + 100) 1 (good_round ∷ good_round ∷ []) refl

abbrev history : List (Ask ℕ)
history = asks 10 7 ∷ asks 11 8 ∷ answers answer ∷ breaks ∷ asks 12 7 ∷ ends ∷ []

balance-serve_all_example : balance 7 (serve_all start history) ≡ balance 7 start + asked 7 history
unfolding start
balance-serve_all_example = balance-serve_all 7 start history ([], tt, tt) (omega arith)

four_ne_zero : ◌≢◌ {A = ℕ} 4 0
four_ne_zero e = absurd (omega arith)

abbrev message : ℕ → IprotoFrame
message id = record answer {
  header = record { request_type = 0; sync = id; schema_version = 3; stream_id = none };
}

abbrev meanwhile : List (Ask ℕ)
meanwhile = asks 11 8 ∷ answers (message 4) ∷ []

answers_its_request_example :
    (serve (serve_all start (asks 10 7 ∷ meanwhile)) (answers (message 0))).completions
    ≡ (serve_all start (asks 10 7 ∷ meanwhile)).completions
      ++ record { caller = 7; outcome = ok (message 0) } ∷ []
unfolding start
answers_its_request_example =
    answers_its_request start 10 7 meanwhile (message 0) ([], tt, tt) refl (omega arith)
      ((λ e. absurd (four_ne_zero (sym e))), tt) refl

abbrev served : Internal ℕ
served = serve_all start (asks 10 7 ∷ meanwhile)

-- The caller of the newest request throws.
reset-serve_all_example :
    IsServing served × Resets (λ h. h == 8) served (reset_among (λ h. h == 8) served)
unfolding start
reset-serve_all_example = reset-serve_all (λ h. h == 8) start (asks 10 7 ∷ meanwhile) (refl, tt) tt

abbrev last_round : Round ℕ
last_round = record {
  during_connect = destroys ∷ [];
  connect = established;
  alive = false;
  during_receive = sends 1 11 8 ∷ destroys ∷ [];
  message = fail operation_canceled;
}

abbrev asking : Internal ℕ
unfolding start
asking = record start { requests = (0, handler 7) ∷ [] }

-- The same requests in two orders.
abbrev forth : Internal ℕ
unfolding start
forth = record start { request_id = 2; requests = (0, handler 7) ∷ (1, handler 8) ∷ [] }

abbrev back : Internal ℕ
unfolding start
back = record start { request_id = 2; requests = (1, handler 8) ∷ (0, handler 7) ∷ [] }

forth-back : Alike forth back
unfolding forth back
forth-back = record {
  state = refl;
  schema_version = refl;
  request_id = refl;
  conn = refl;
  requests = Permᴰ.swap refl refl;
  completions = Permᴰ.nil;
  distinct = (refl, (refl, tt));
}

reset-Alike_example :
    Alike (serve_all forth meanwhile) (serve_all back meanwhile)
    × Alike (reset (serve_all forth meanwhile)).0 (reset (serve_all back meanwhile)).0
unfolding forth
reset-Alike_example = reset-Alike forth back meanwhile (refl, tt) tt forth-back
