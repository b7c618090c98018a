-- ===== src/Framing/Tests.antt =====
-- Messages off a small tape.
use tntpp.Common.{be_value, ◌%◌, ◌^◌, ℕ, ◌≡◌, refl, none, some, List, [], ◌∷◌, ◌++◌, arith, Option}
use tntpp.Errc.{Result, ok, fail, abort}
use tntpp.Transport.Tape.{tape, tape-IsStream}
use tntpp.Msgpack.Small.{small}
use tntpp.Buffer.{MutableBuffer, new_buffer, new_shared, frozen_bytes}
use tntpp.Buffer
use tntpp.Buffer.Transfer.{new_buffer-IsValid}
use tntpp.Request.Frame.{frame}
use tntpp.Framing.{Framing, IprotoFrame, transfer_exactly, read_message_length, receive_message}
use tntpp.Framing
use tntpp.Framing.Ready.{IsReady}
use tntpp.Framing.Transfer.{Transferred, transfer_exactly-Transferred}
use tntpp.Framing.Length.{
  Completes, Leaves, read_message_length-Completes, read_message_length-uint16,
  read_message_length-uint64, msgpack_uint,
}
use tntpp.Framing.Bounds.{Ends, IsLength, read_message_length-Ends}
use tntpp.Framing.Survives.{Survives, receive_message-Survives}
use tntpp.Framing.Message.{Receives, receive_message-Receives}
use tntpp.Iproto.Header
use tntpp.Iproto.Types.{int_to_field_type}

abbrev four : MutableBuffer
unfolding new_buffer new_shared
four = new_buffer 4

four-IsReady : IsReady four
unfolding four
four-IsReady = record {
  valid = new_buffer-IsValid 4 (omega arith);
  positive = omega arith;
  default_le = omega arith;
  size_le = omega arith;
}

-- A response: the header {request type: 0, sync: 5}, and a body.
abbrev response : List ℕ
response = 0x82 ∷ 0 ∷ 0 ∷ 1 ∷ 5 ∷ 0x81 ∷ 48 ∷ 3 ∷ []

abbrev wire : Framing tape
wire = record { next_layer = frame response ++ 1 ∷ 2 ∷ []; buffer = four }

abbrev body_of : Result IprotoFrame × Framing tape → Option (ℕ × List ℕ)
body_of (ok f, fr) = some (f.header.sync, frozen_bytes fr.buffer f.body)
body_of (fail e, fr) = none
body_of (abort, fr) = none

body_read : body_of (receive_message tape small wire) ≡ some (5, 0x81 ∷ 48 ∷ 3 ∷ [])
unfolding four receive_message read_message_length transfer_exactly Framing.transfer_be
    Framing.read_be Framing.length_of_type Framing.take_ready Framing.read_more Framing.finish_read
    Framing.parse_message Buffer.get_ready_buffer Buffer.advance_reader_of Buffer.advance_writer_of
    Buffer.fill Framing.Room.make_room Buffer.prepare Buffer.get_receive_buffer Header.convert
    Header.convert_field Buffer.slice_frozen int_to_field_type
body_read = refl

receive_message-Receives_example :
    Receives tape tape-IsStream small response (1 ∷ 2 ∷ []) (receive_message tape small wire)
unfolding four
receive_message-Receives_example =
    receive_message-Receives tape tape-IsStream small wire response (1 ∷ 2 ∷ []) four-IsReady refl
      (omega arith)

transfer_exactly-Transferred_example :
    Transferred tape tape-IsStream wire 6 (transfer_exactly tape 6 wire)
transfer_exactly-Transferred_example =
    transfer_exactly-Transferred tape tape-IsStream wire 6 four-IsReady (omega arith)

abbrev short : Framing tape
short = record { next_layer = 0xcc ∷ 200 ∷ 9 ∷ []; buffer = four }

read_message_length-Completes_example :
    Completes tape tape-IsStream
      (Leaves tape tape-IsStream 200 (9 ∷ []))
      (read_message_length tape short)
unfolding four msgpack_uint
read_message_length-Completes_example =
    read_message_length-Completes tape tape-IsStream short 0xcc 200 (200 ∷ 9 ∷ []) (9 ∷ [])
      four-IsReady refl (omega arith) refl (omega arith)

abbrev medium : Framing tape
medium = record { next_layer = 0xcd ∷ 1 ∷ 0 ∷ 9 ∷ []; buffer = four }

read_message_length-uint16_example :
    Completes tape tape-IsStream
      (Leaves tape tape-IsStream 0 (1 ∷ 0 ∷ 9 ∷ []))
      (read_message_length tape medium)
unfolding four
read_message_length-uint16_example =
    read_message_length-uint16 tape tape-IsStream medium (1 ∷ 0 ∷ 9 ∷ []) four-IsReady refl

abbrev huge : Framing tape
huge = record { next_layer = 0xcf ∷ 0 ∷ 0 ∷ 0 ∷ 1 ∷ 0 ∷ 0 ∷ 0 ∷ 6 ∷ 9 ∷ []; buffer = four }

read_message_length-uint64_example :
    Completes tape tape-IsStream
      (Leaves tape tape-IsStream (be_value (0 ∷ 0 ∷ 0 ∷ 1 ∷ 0 ∷ 0 ∷ 0 ∷ 6 ∷ []) % 2 ^ 32) (9 ∷ []))
      (read_message_length tape huge)
unfolding four
read_message_length-uint64_example =
    read_message_length-uint64 tape tape-IsStream huge (0 ∷ 0 ∷ 0 ∷ 1 ∷ 0 ∷ 0 ∷ 0 ∷ 6 ∷ []) (9 ∷ [])
      four-IsReady refl refl

abbrev long : Framing tape
long = record { next_layer = 0xd2 ∷ 255 ∷ 255 ∷ 255 ∷ 255 ∷ 9 ∷ []; buffer = four }

read_message_length-Ends_example :
    Ends tape tape-IsStream long.next_layer
      (IsLength tape tape-IsStream long.next_layer)
      (read_message_length tape long)
unfolding four
read_message_length-Ends_example =
    read_message_length-Ends tape tape-IsStream long four-IsReady (omega arith)

receive_message-Survives_example :
    Survives tape tape-IsStream small long.next_layer (receive_message tape small long)
unfolding four
receive_message-Survives_example =
    receive_message-Survives tape tape-IsStream small long four-IsReady (omega arith)
