-- ===== src/Framing.antt =====
-- include/tarantool_connector/detail/tntpp_iproto_framing.h: messages out of a stream of bytes.
-- A coroutine is a function on the state that gives its completion and the new state.
mod Room
pub mod Ready
pub mod Transfer
pub mod Length
pub mod Bytes
pub mod Bounds
pub mod Says
pub mod Survives
pub mod Message
pub mod Keeps
pub mod Frozen
mod Tests
use Prim.Native.Nat.{bit_and}
use tntpp.Common.{
  ℕ, ◌+◌, ◌-◌, ◌%◌, ◌^◌, Bool, true, false, ◌||◌, Option, none, some, List, [], ◌∷◌, ltb, leb, ◌==◌,
  if◌then◌else◌, length, get_or, be_value,
}
use tntpp.Coroutine.{Co, continue, ◌>>=◌, complete}
use Room.{make_room}
use tntpp.Errc.{
  ErrorCode, Result, ok, fail, abort, checked, message_size, illegal_byte_sequence,
  state_not_recoverable,
}
use tntpp.Transport.{Transport, Read, received, failed}
use tntpp.Buffer.{
  new_buffer, MutableBuffer, FrozenBuffer, Region, current, ready, prepare, get_receive_buffer,
  get_ready_buffer, advance_writer_of, advance_reader_of, fill, frozen_bytes, slice_frozen,
}
use tntpp.Buffer
use tntpp.Msgpack.{Msgpack}
use tntpp.Iproto.Header.{MessageHeader, convert}

-- `IprotoFrame`.
pub record IprotoFrame : Type 0 where
  pub header : MessageHeader
  pub body : FrozenBuffer

-- An `int64_t`: `negsuc n` is -(n + 1).
pub data ℤ : Type 0 where
  pos : ℕ → ℤ
  negsuc : ℕ → ℤ

-- The integer that `w` bits stand for in two's complement.
abbrev pub signed : ℕ → ℕ → ℤ
signed w v = if ltb v (2 ^ (w - 1)) then pos v else negsuc (2 ^ w - v - 1)

module _ (t : Transport) where
  open t use {Socket, async_read}

  pub record Framing : Type 0 where
    pub next_layer : Socket
    pub buffer : MutableBuffer

  unfoldable pub new_framing : Socket → ℕ → Framing
  new_framing s default_size = record { next_layer = s; buffer = new_buffer default_size }

  -- `m_buffer.advance_reader(bytes)`.
  unfoldable pub take_ready : ℕ → Co Framing FrozenBuffer
  take_ready n fr = elim (advance_reader_of fr.buffer n) [
    | none ↦ (abort, fr)
    | some (m, f) ↦ (ok f, record fr { buffer = m })
  ]

  -- The bytes read are in the memory of the region; only a read without an error is counted.
  unfoldable pub finish_read :
      MutableBuffer → Region → ℕ → Read × Socket → Result FrozenBuffer × Framing
  finish_read m r n (failed e bs, s) = (fail e, record { next_layer = s; buffer = fill m r bs })
  finish_read m r n (received bs, s) = elim (advance_writer_of (fill m r bs) (length bs)) [
    | none ↦ (abort, record { next_layer = s; buffer = fill m r bs })
    | some m' ↦ take_ready n (record { next_layer = s; buffer = m' })
  ]

  unfoldable pub read_more : ℕ → Co Framing FrozenBuffer
  read_more n fr = elim (make_room fr.buffer n) [
    | none ↦ (abort, fr)
    | some (m, r, least) ↦ finish_read m r n (async_read fr.next_layer r.size least)
  ]

  unfoldable pub transfer_exactly : ℕ → Co Framing FrozenBuffer
  transfer_exactly n fr = elim (get_ready_buffer fr.buffer) [
    | none ↦ (abort, fr)
    | some r ↦ if leb n r.size then take_ready n fr else read_more n fr
  ]

  -- The unsigned integer that a frozen buffer shows, first byte first.
  unfoldable pub read_be : FrozenBuffer → Co Framing ℕ
  read_be f fr = (ok (be_value (frozen_bytes fr.buffer f)), fr)

  unfoldable pub transfer_be : ℕ → Co Framing ℕ
  transfer_be n = do f ← transfer_exactly n; read_be f

  -- The completion for a signed `result`. `SizeType` is a `uint32_t`.
  unfoldable pub check_length : ℤ → Result ℕ
  check_length (pos n) = if ltb (2 ^ 32 - 1) n then fail message_size else ok n
  check_length (negsuc n) = fail message_size

  -- The branch for a first byte. A completion with a number of another type is cut to a `SizeType`.
  -- The test of 0xcc for 16 bits stands behind that for 8 bits.
  unfoldable pub length_of_type : ℕ → Co Framing ℕ
  length_of_type type =
      if bit_and type 0b10000000 == 0
      then complete (ok (bit_and type 0b01111111))
      else if type == 0xcc
      then (do n ← transfer_be 1; complete (ok n))
      else if type == 0xcc
      then (do n ← transfer_be 2; complete (ok n))
      else if type == 0xce
      then (do n ← transfer_be 4; complete (ok n))
      else if type == 0xcf
      then (do n ← transfer_be 8; complete (ok (n % 2 ^ 32)))
      else if bit_and type 0b11100000 == 0b11100000
      then complete (check_length (negsuc 0))
      else if type == 0xd0
      then (do n ← transfer_be 1; complete (check_length (signed 8 n)))
      else if type == 0xd1
      then (do n ← transfer_be 2; complete (check_length (signed 16 n)))
      else if type == 0xd2
      then (do n ← transfer_be 4; complete (check_length (signed 32 n)))
      else if type == 0xd3
      then (do n ← transfer_be 8; complete (check_length (signed 64 n)))
      else complete (check_length (pos 0))

  unfoldable pub read_message_length : Co Framing ℕ
  read_message_length = do type ← transfer_be 1; length_of_type type

-- The frame from its header and the rest of the message, `msg_body.slice(offset)`.
unfoldable pub make_frame : MessageHeader → Option FrozenBuffer → Result IprotoFrame
make_frame h none = abort
make_frame h (some body) = ok (record { header = h; body = body })

module _ (c : Msgpack) where
  open c use {Object}

  -- `type_error` is a `bad_cast`, what `unpack` throws is not.
  unfoldable pub parse_object : FrozenBuffer → Option (Object × ℕ) → Result IprotoFrame
  unfolding make_frame
  parse_object f none = fail state_not_recoverable
  parse_object f (some (o, offset)) = elim (convert c o) [
    | none ↦ fail illegal_byte_sequence
    | some h ↦ make_frame h (slice_frozen f offset (2 ^ 64 - 1))
  ]

module _ (t : Transport) (c : Msgpack) where
  open c use {unpack}

  -- The message in a frozen buffer.
  unfoldable pub parse_message : FrozenBuffer → Co (Framing t) IprotoFrame
  unfolding parse_object
  parse_message f fr = (parse_object c f (unpack (frozen_bytes fr.buffer f)), fr)

  unfoldable pub receive_message : Co (Framing t) IprotoFrame
  receive_message = do n ← read_message_length t; f ← transfer_exactly t n; parse_message f

-- `clear`.
unfoldable pub clear : (t : Transport) → Framing t → Framing t
clear t fr = record fr { buffer = Buffer.clear fr.buffer }
