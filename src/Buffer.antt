-- ===== src/Buffer.antt =====
-- include/tarantool_connector/detail/tntpp_mutable_buffer.h: the receive buffer.
-- An object made by `make_shared` has an address, and lives on a heap of such objects; sizes and
-- pointers are `size_t`. A failed `assert` is `none`. Memory never runs out.
pub mod State
pub mod Prepare
pub mod Transfer
pub mod Run
pub mod Refine
mod Tests
use tntpp.Common.{
  ℕ, ◌+◌, ◌-◌, ◌%◌, ◌^◌, Bool, Option, none, some, List, ltb, leb, ◌==◌, if◌then◌else◌, slice,
  write_at, replicate, length, ◌>>=◌, ◌>>◌, require,
}

-- `SharedBuffer`, with the `m_size` characters behind `m_data`.
pub record SharedBuffer : Type 0 where
  pub write_pointer : ℕ
  pub read_pointer : ℕ
  pub size : ℕ
  pub bytes : List ℕ

-- The constructor; `make_unique<char[]>` clears the memory.
unfoldable pub new_shared : ℕ → SharedBuffer
new_shared size = record {
  write_pointer = 0;
  read_pointer = 0;
  size = size;
  bytes = replicate size 0;
}

unfoldable pub free : SharedBuffer → Option ℕ
free b = do require (leb b.write_pointer b.size); some (b.size - b.write_pointer)

unfoldable pub ready : SharedBuffer → Option ℕ
ready b = do require (leb b.read_pointer b.write_pointer); some (b.write_pointer - b.read_pointer)

unfoldable pub advance_reader : SharedBuffer → ℕ → Option SharedBuffer
advance_reader b n =
    let p = (b.read_pointer + n) % 2 ^ 64 in
    do require (leb p b.write_pointer); some (record b { read_pointer = p })

unfoldable pub advance_writer : SharedBuffer → ℕ → Option SharedBuffer
advance_writer b n =
    let p = (b.write_pointer + n) % 2 ^ 64 in
    do require (leb p b.size); some (record b { write_pointer = p })

unfoldable pub is_empty : SharedBuffer → Bool
is_empty b = b.write_pointer == 0

-- The new state of the object itself and of `other`.
unfoldable pub copy_rest_from : SharedBuffer → SharedBuffer → Option (SharedBuffer × SharedBuffer)
unfolding ready advance_writer advance_reader
copy_rest_from b other = do
  r ← ready other
  require (ltb r b.size)
  b' ←
      advance_writer
        (record b { bytes = write_at 0 (slice other.read_pointer r other.bytes) b.bytes }) r
  other' ← advance_reader other r
  some (b', other')

-- `boost::asio::mutable_buffer` and `const_buffer`: a region of the object at an address.
pub record Region : Type 0 where
  pub buf : ℕ
  pub offset : ℕ
  pub size : ℕ

-- `FrozenBuffer`: `data` is the offset into the object at `buf`; `none` is a null pointer.
pub record FrozenBuffer : Type 0 where
  pub buf : Option ℕ
  pub start : ℕ
  pub size : ℕ

unfoldable pub default_frozen : FrozenBuffer
default_frozen = record { buf = none; start = 0; size = 0 }

-- The default of `length` is the largest `size_t`.
unfoldable pub slice_frozen : FrozenBuffer → ℕ → ℕ → Option FrozenBuffer
slice_frozen f start len = do
  require (ltb start f.size)
  some (record {
    buf = f.buf;
    start = f.start + start;
    size = if len == 2 ^ 64 - 1 then f.size - start else len;
  })

-- `MutableBuffer`: `buffer` is `m_buffer`, `heap` holds the objects that it has made, `next` is
-- the address of the next one.
pub record MutableBuffer : Type 0 where
  pub default_length : ℕ
  pub buffer : ℕ
  pub heap : ℕ → SharedBuffer
  pub next : ℕ

abbrev pub store : (ℕ → SharedBuffer) → ℕ → SharedBuffer → ℕ → SharedBuffer
store h a b i = if i == a then b else h i

abbrev pub current : MutableBuffer → SharedBuffer
current m = m.heap m.buffer

unfoldable pub new_buffer : ℕ → MutableBuffer
new_buffer default_length = record {
  default_length = default_length;
  buffer = 0;
  heap = λ _. new_shared default_length;
  next = 1;
}

unfoldable pub prepare : MutableBuffer → ℕ → Option MutableBuffer
unfolding free ready copy_rest_from new_shared
prepare m n = do
  f ← free (current m)
  if leb n f then some m else do
    r ← ready (current m)
    (b, old) ← copy_rest_from (new_shared ((r + n + m.default_length) % 2 ^ 64)) (current m)
    some (record m {
      heap = store (store m.heap m.buffer old) m.next b;
      buffer = m.next;
      next = m.next + 1;
    })

unfoldable pub get_receive_buffer : MutableBuffer → Option (MutableBuffer × Region)
unfolding free prepare
get_receive_buffer m = do
  f ← free (current m)
  m' ← if f == 0 then prepare m m.default_length else some m
  f' ← free (current m')
  some (m', record { buf = m'.buffer; offset = (current m').write_pointer; size = f' })

unfoldable pub get_ready_buffer : MutableBuffer → Option Region
unfolding ready
get_ready_buffer m = do
  r ← ready (current m)
  some (record { buf = m.buffer; offset = (current m).read_pointer; size = r })

unfoldable pub advance_writer_of : MutableBuffer → ℕ → Option MutableBuffer
unfolding advance_writer
advance_writer_of m n = do
  b ← advance_writer (current m) n
  some (record m { heap = store m.heap m.buffer b })

unfoldable pub advance_reader_of : MutableBuffer → ℕ → Option (MutableBuffer × FrozenBuffer)
unfolding advance_reader get_ready_buffer
advance_reader_of m n = do
  c ← get_ready_buffer m
  require (leb n c.size)
  b ← advance_reader (current m) n
  some (
    record m { heap = store m.heap m.buffer b },
    record { buf = some m.buffer; start = c.offset; size = n },
  )

unfoldable pub clear : MutableBuffer → MutableBuffer
unfolding is_empty new_shared
clear m = if is_empty (current m) then m else record m {
  heap = store m.heap m.next (new_shared m.default_length);
  buffer = m.next;
  next = m.next + 1;
}

-- What a read operation does to the memory of the region that it was given.
unfoldable pub fill : MutableBuffer → Region → List ℕ → MutableBuffer
fill m r bs =
    let b = m.heap r.buf in
    record m { heap = store m.heap r.buf (record b { bytes = write_at r.offset bs b.bytes }) }

-- What the holder of a frozen buffer reads.
abbrev pub frozen_bytes : MutableBuffer → FrozenBuffer → List ℕ
frozen_bytes m f = elim f.buf [ none ↦ List.[] | some a ↦ slice f.start f.size (m.heap a).bytes ]

-- The bytes that can be consumed.
abbrev pub contents : MutableBuffer → List ℕ
contents m = let b = current m in slice b.read_pointer (b.write_pointer - b.read_pointer) b.bytes
