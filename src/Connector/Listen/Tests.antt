-- ===== src/Connector/Listen/Tests.antt =====
-- The receive loop on a small tape with two answers.
use mathlib.Core.List.{Permᴰ}
use tntpp.Common.{◌≡◌, some, ℕ, refl, none, [], ◌∷◌, ◌++◌, arith}
use tntpp.Transport.Tape.{tape, tape-IsStream, tape-IsUnbroken}
use tntpp.Msgpack.Small.{small, table}
use tntpp.Buffer.{MutableBuffer, new_buffer, new_shared}
use tntpp.Buffer.Transfer.{new_buffer-IsValid}
use tntpp.Framing.{Framing}
use tntpp.Framing.Ready.{IsReady}
use tntpp.Iproto.Header.{convert, default_header, convert_fields, convert_field}
use tntpp.Iproto.Types.{int_to_field_type}
use tntpp.Connection.{Connection, new_connection}
use tntpp.Queue.{new_queue}
use tntpp.Connector.{Internal, handler, new_internal}
use tntpp.Connector.Live.{IsServing}
use tntpp.Connector.Listen.{listen}
use tntpp.Connector.Listen.Script.{Packet, IsPacket, Script, events, wires, Listens}
use tntpp.Connector.Listen.Refine.{listen-Listens}
use tntpp.Connector.Listen.Asked.{ask_all, ask_all-Completed}
use tntpp.Connector.Listen.Unbroken.{Completed}
use tntpp.Connector.Listen.Once.{Answers, script, AnswersAll, listen-AnswersAll}

abbrev eight : MutableBuffer
unfolding new_buffer new_shared
eight = new_buffer 8

eight-IsReady : IsReady eight
unfolding eight
eight-IsReady = record {
  valid = new_buffer-IsValid 8 (omega arith);
  positive = omega arith;
  default_le = omega arith;
  size_le = omega arith;
}

-- An answer to the request with an id: a header of the type 0 and a map.
abbrev answer_to : ℕ → ℕ → Packet small
answer_to id value = record {
  head = 0x82 ∷ 0 ∷ 0 ∷ 1 ∷ id ∷ [];
  body = 0x81 ∷ 48 ∷ value ∷ [];
  object = table ((0, 0) ∷ (1, id) ∷ []);
  header = record { request_type = 0; sync = id; schema_version = 0; stream_id = none };
}

answer_to-IsPacket : (id value : ℕ) → IsPacket small (answer_to id value)
unfolding convert default_header convert_fields convert_field int_to_field_type
answer_to-IsPacket id value = (refl, refl, omega arith, omega arith)

-- Two requests are under way; the answers come in the other order.
abbrev busy : Internal ℕ
unfolding new_internal new_connection new_queue
busy = record (new_internal (new_connection 32)) {
  requests = (5, handler 70) ∷ (6, handler 71) ∷ [];
  request_id = 7;
}

busy-IsServing : IsServing busy
unfolding busy
busy-IsServing = (refl, tt)

abbrev replies : Answers tape tape-IsStream small ℕ
replies = (71, answer_to 6 3) ∷ (70, answer_to 5 4) ∷ []

abbrev wired : Framing tape
wired = record {
  next_layer =
      wires tape tape-IsStream small ℕ (script tape tape-IsStream small ℕ replies) ++ 9 ∷ [];
  buffer = eight;
}

listen-AnswersAll_example : AnswersAll tape tape-IsStream small ℕ busy wired replies (9 ∷ []) (
    listen tape small busy none 0 wired
      (events tape tape-IsStream small ℕ (script tape tape-IsStream small ℕ replies)))
unfolding busy eight
listen-AnswersAll_example =
    listen-AnswersAll tape tape-IsStream small ℕ busy none 0 wired replies (9 ∷ []) busy-IsServing
      (refl, (refl, tt)) (Permᴰ.swap refl refl) eight-IsReady
      (answer_to-IsPacket 6 3, (answer_to-IsPacket 5 4, tt)) (omega arith) refl

-- A request is sent while the loop waits, and its answer comes; then a message that no request
-- waits for.
abbrev chatter : Script tape tape-IsStream small ℕ
chatter = ((7, 50, 72) ∷ [], answer_to 7 1) ∷ ([], answer_to 99 2) ∷ ([], answer_to 5 3) ∷ []

abbrev chatting : Framing tape
chatting = record {
  next_layer = wires tape tape-IsStream small ℕ chatter ++ 9 ∷ [];
  buffer = eight;
}

listen-Listens_example : Listens tape tape-IsStream small ℕ busy chatting chatter (9 ∷ []) (
    listen tape small busy (some (λ id. id)) 4 chatting (events tape tape-IsStream small ℕ chatter))
unfolding busy eight
listen-Listens_example =
    listen-Listens tape tape-IsStream small ℕ busy (some (λ id. id)) 4 chatting chatter (9 ∷ [])
      busy-IsServing eight-IsReady
      (answer_to-IsPacket 7 1, (answer_to-IsPacket 99 2, (answer_to-IsPacket 5 3, tt)))
      (omega arith) refl

-- Two requests of a new connector, answered in the other order.
abbrev idle : Connection ℕ
unfolding new_connection new_queue
idle = new_connection 32

abbrev returned : Answers tape tape-IsStream small ℕ
returned = (71, answer_to 1 3) ∷ (70, answer_to 0 4) ∷ []

abbrev filled : Framing tape
filled = record {
  next_layer =
      wires tape tape-IsStream small ℕ (script tape tape-IsStream small ℕ returned) ++ 9 ∷ [];
  buffer = eight;
}

ask_all-Completed_example :
    let s = ask_all (new_internal idle) ((50, 70) ∷ (51, 71) ∷ []) in
    (s.completions ≡ [])
    × Completed tape tape-IsStream small ℕ s returned (9 ∷ []) (
        listen tape small s none 0 filled
          (events tape tape-IsStream small ℕ (script tape tape-IsStream small ℕ returned)))
unfolding eight
ask_all-Completed_example =
    ask_all-Completed tape tape-IsStream small ℕ idle ((50, 70) ∷ (51, 71) ∷ []) none 0 filled
      returned (9 ∷ []) tape-IsUnbroken (omega arith) (Permᴰ.swap refl refl) eight-IsReady
      (answer_to-IsPacket 1 3, (answer_to-IsPacket 0 4, tt)) (omega arith) refl
