-- ===== src/Connection/Session/Tests.antt =====
-- Two connections over a line of bytes.
use tntpp.Common.{ℕ, false, List, [], ◌∷◌, ◌++◌, replicate, arith}
use tntpp.Errc.{ok}
use tntpp.Msgpack.Small.{small}
use tntpp.Buffer.{new_buffer, new_shared}
use tntpp.Buffer.Transfer.{new_buffer-IsValid}
use tntpp.Request.Frame.{frame}
use tntpp.Framing.Ready.{IsReady}
use tntpp.Framing.Bytes.{AreBytes}
use tntpp.Connection.Connect.{Link}
use tntpp.Connection.Connect.Line.{wire, wire-IsStream, dial}
use tntpp.Connection.Session.{session, Stays, session-Stays}

abbrev greeting : List ℕ
greeting = replicate 63 86 ++ 10 ∷ (replicate 63 83 ++ 10 ∷ [])

-- A header {request type: 0, sync: 5} and a map.
abbrev answer : List ℕ
answer = frame (0x82 ∷ 0 ∷ 0 ∷ 1 ∷ 5 ∷ 0x81 ∷ 48 ∷ 3 ∷ [])

abbrev sent_bytes : List ℕ
sent_bytes = greeting ++ (answer ++ (answer ++ (greeting ++ answer)))

sent_bytes-AreBytes : AreBytes sent_bytes
sent_bytes-AreBytes = ground arith

abbrev start : Link wire
unfolding new_buffer new_shared
start = record {
  stream = record {
    next_layer = record { is_open = false; bytes = sent_bytes; are_bytes = sent_bytes-AreBytes };
    buffer = new_buffer 8;
  };
  salt = [];
}

start-IsReady : IsReady start.stream.buffer
unfolding start
start-IsReady = record {
  valid = new_buffer-IsValid 8 (omega arith);
  positive = omega arith;
  default_le = omega arith;
  size_le = omega arith;
}

session-Stays_example :
    let (l, hs) = session wire small dial start ((ok (5 ∷ 0 ∷ []), 2) ∷ (ok (0 ∷ []), 1) ∷ []) in
    Stays wire wire-IsStream small start.stream.buffer l.stream.buffer hs
session-Stays_example =
    session-Stays wire wire-IsStream small dial start ((ok (5 ∷ 0 ∷ []), 2) ∷ (ok (0 ∷ []), 1) ∷ [])
      (λ l. l.are_bytes) start-IsReady
