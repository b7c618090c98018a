-- ===== src/Connection/Connect/Tests.antt =====
-- Connecting over a line of bytes.
use tntpp.Common.{ℕ, ◌≡◌, refl, false, List, [], ◌∷◌, ◌++◌, replicate, arith}
use tntpp.Errc.{ok, abort, not_connected}
use tntpp.Buffer.{new_buffer, new_shared}
use tntpp.Buffer.Transfer.{new_buffer-IsValid}
use tntpp.Framing.Bytes.{AreBytes}
use tntpp.Connection.Connect.Line.{wire, wire-IsStream, dial, dial-IsNetwork}
use tntpp.Connection.Connect.{Link, connect}
use tntpp.Connection.Connect.Attempts.{IsUsable, Tried, connect-Tried, connect_again}

abbrev greeting : List ℕ
greeting = replicate 63 86 ++ 10 ∷ (replicate 63 83 ++ 10 ∷ [])

greeting-AreBytes : AreBytes (greeting ++ 1 ∷ [])
greeting-AreBytes = ground arith

abbrev start : Link wire
unfolding new_buffer new_shared
start = record {
  stream = record {
    next_layer = record {
      is_open = false;
      bytes = greeting ++ 1 ∷ [];
      are_bytes = greeting-AreBytes;
    };
    buffer = new_buffer 4;
  };
  salt = [];
}

start-IsUsable : IsUsable start.stream.buffer
unfolding start
start-IsUsable = record { valid = new_buffer-IsValid 4 (omega arith); bounded = omega arith }

connect-Tried_example :
    Tried wire wire-IsStream dial dial-IsNetwork (connect wire dial (ok (5 ∷ 0 ∷ [])) start)
unfolding start
connect-Tried_example =
    connect-Tried wire wire-IsStream dial dial-IsNetwork 5 (0 ∷ []) start start-IsUsable refl

connect_again_example :
    (connect wire dial (ok (0 ∷ [])) (connect wire dial (ok (5 ∷ [])) start).1).0 ≡ abort
unfolding start connect
connect_again_example =
    connect_again wire wire-IsStream dial dial-IsNetwork 5 [] (ok (0 ∷ [])) start not_connected
      start-IsUsable refl refl
