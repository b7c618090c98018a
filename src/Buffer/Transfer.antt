-- ===== src/Buffer/Transfer.antt =====
-- include/tarantool_connector/detail/tntpp_mutable_buffer.h: bytes written to the receive buffer and
-- consumed from it, and `clear`.
use tntpp.Common.{
  ℕ, zero, suc, ◌+◌, ◌-◌, ◌^◌, ◌≤◌, ◌<◌, ◌≡◌, refl, Option, none, some, List, [], ◌++◌, arith, ltb,
  if◌then◌else◌, length, drop, write_at, length-slice, length-replicate, length-write_at,
  slice-write_at_self, slice-write_at_before, slice_add, drop_add, drop-take,
}
use tntpp.Buffer.{
  SharedBuffer, MutableBuffer, FrozenBuffer, store, current, contents, advance_writer_of,
  advance_reader_of, clear, fill, new_shared, frozen_bytes, new_buffer, slice_frozen,
}
use tntpp.Buffer.State.{IsValid, unread, room, Keeps, IsFrozen}
use tntpp.Buffer.Prepare.{receive_region}

-- The state after bytes were read into the receive region and counted.
abbrev pub written_shared : SharedBuffer → List ℕ → SharedBuffer
written_shared b bs = record b {
  write_pointer = b.write_pointer + length bs;
  bytes = write_at b.write_pointer bs b.bytes;
}

abbrev pub written : MutableBuffer → List ℕ → MutableBuffer
written m bs = record m {
  heap = store (fill m (receive_region m) bs).heap m.buffer (written_shared (current m) bs);
}

pub written-IsValid :
    (m : MutableBuffer) (bs : List ℕ) → IsValid m → length bs ≤ room m → IsValid (written m bs)
written-IsValid m bs v h =
    ground (arith, length-write_at (current m).write_pointer bs (current m).bytes)

pub written-contents :
    (m : MutableBuffer) (bs : List ℕ)
    → IsValid m
    → length bs ≤ room m
    → contents (written m bs) ≡ contents m ++ bs
written-contents m bs v h =
    let b = current m in
    let bytes' = write_at b.write_pointer bs b.bytes in
    ground (
      arith,
      slice_add b.read_pointer (unread m) (length bs) bytes',
      slice-write_at_self b.write_pointer bs b.bytes,
      slice-write_at_before b.read_pointer (unread m) b.write_pointer bs b.bytes,
    )

pub advance_writer_of-fill :
    (m : MutableBuffer) (bs : List ℕ)
    → IsValid m
    → length bs ≤ room m
    → advance_writer_of (fill m (receive_region m) bs) (length bs) ≡ some (written m bs)
unfolding advance_writer_of fill
advance_writer_of-fill m bs v h = ground arith

-- The state after `n` bytes were consumed, and the frozen buffer that shows them.
abbrev pub consumed : MutableBuffer → ℕ → MutableBuffer
consumed m n = record m {
  heap = store m.heap m.buffer (record (current m) { read_pointer = (current m).read_pointer + n });
}

abbrev pub front : MutableBuffer → ℕ → FrozenBuffer
front m n = record { buf = some m.buffer; start = (current m).read_pointer; size = n }

pub advance_reader_of_lem :
    (m : MutableBuffer) (n : ℕ)
    → IsValid m
    → n ≤ unread m
    → advance_reader_of m n ≡ some (consumed m n, front m n)
unfolding advance_reader_of
advance_reader_of_lem m n v h = ground arith

pub consumed-IsValid :
    (m : MutableBuffer) (n : ℕ) → IsValid m → n ≤ unread m → IsValid (consumed m n)
consumed-IsValid m n v h = ground arith

pub consumed-contents :
    (m : MutableBuffer) (n : ℕ)
    → IsValid m
    → n ≤ unread m
    → contents m ≡ frozen_bytes (consumed m n) (front m n) ++ contents (consumed m n)
consumed-contents m n v h =
    let b = current m in ground (arith, slice_add b.read_pointer n (unread m - n) b.bytes)

-- Consuming more than is there fails the assertion.
pub advance_reader_of-none :
    (m : MutableBuffer) (n : ℕ) → IsValid m → unread m < n → advance_reader_of m n ≡ none
unfolding advance_reader_of
advance_reader_of-none m n v h = ground arith

-- Clearing leaves no byte to consume. (A buffer that was written to gets a new object.)
pub clear-IsValid : (m : MutableBuffer) → IsValid m → m.default_length < 2 ^ 64 → IsValid (clear m)
unfolding clear
clear-IsValid m v h = ground (arith, length-replicate {A = ℕ} m.default_length 0)

pub contents-clear : (m : MutableBuffer) → IsValid m → contents (clear m) ≡ []
unfolding clear
contents-clear m v = ground arith

pub default_length-clear : (m : MutableBuffer) → (clear m).default_length ≡ m.default_length
unfolding clear
default_length-clear m = ground arith

pub written-Keeps : (m : MutableBuffer) (bs : List ℕ) → IsValid m → Keeps m (written m bs)
unfolding fill
written-Keeps m bs v a i n h =
    ground (arith, slice-write_at_before i n (current m).write_pointer bs (current m).bytes)

pub consumed-Keeps : (m : MutableBuffer) (n : ℕ) → Keeps m (consumed m n)
consumed-Keeps m n a i k h = ground arith

pub front-IsFrozen :
    (m : MutableBuffer) (n : ℕ) → IsValid m → n ≤ unread m → IsFrozen (consumed m n) (front m n)
front-IsFrozen m n v h = ground arith

pub clear-Keeps : (m : MutableBuffer) → IsValid m → Keeps m (clear m)
unfolding clear
clear-Keeps m v a i n h = ground arith

pub length-front :
    (m : MutableBuffer) (n : ℕ)
    → IsValid m
    → n ≤ unread m
    → length (frozen_bytes (consumed m n) (front m n)) ≡ n
length-front m n v h = ground (arith, length-slice (current m).read_pointer n (current m).bytes)

pub new_buffer-IsValid : (n : ℕ) → n < 2 ^ 64 → IsValid (new_buffer n)
unfolding new_buffer new_shared
new_buffer-IsValid n h = ground (arith, length-replicate {A = ℕ} n 0)

abbrev pub tail_of : FrozenBuffer → ℕ → FrozenBuffer
tail_of f start = record { buf = f.buf; start = f.start + start; size = f.size - start }

drop-frozen_bytes :
    (m : MutableBuffer) (b : Option ℕ) (i n k : ℕ)
    → frozen_bytes m (record { buf = b; start = i + k; size = n - k })
      ≡ drop k (frozen_bytes m (record { buf = b; start = i; size = n }))
drop-frozen_bytes m none i n zero = refl
drop-frozen_bytes m none i n (suc k) = refl
drop-frozen_bytes m (some a) i n k =
    rw (drop_add i k (m.heap a).bytes, drop-take k n (drop i (m.heap a).bytes))

-- `slice(start)` of a frozen buffer, its length left to the default, fails the assertion exactly if
-- `start` is at or past its end; else the result shows the bytes of the buffer from `start` on.
pub frozen_bytes-slice_frozen :
    (m : MutableBuffer) (f : FrozenBuffer) (start : ℕ)
    → (slice_frozen f start (2 ^ 64 - 1)
        ≡ (if ltb start f.size then some (tail_of f start) else none))
      × (frozen_bytes m (tail_of f start) ≡ drop start (frozen_bytes m f))
unfolding slice_frozen
frozen_bytes-slice_frozen m f start = (ground arith, drop-frozen_bytes m f.buf f.start f.size start)
