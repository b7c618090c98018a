-- ===== src/Buffer/Prepare.antt =====
-- include/tarantool_connector/detail/tntpp_mutable_buffer.h: `prepare` and `get_receive_buffer`, room
-- for more bytes in the same object or in a larger one.
use tntpp.Common.{
  ℕ, ◌+◌, ◌^◌, ◌≤◌, ◌<◌, ◌≡◌, refl, ◌⊎◌, inl, inr, some, arith, leb, ◌==◌, Bool-cases, slice,
  write_at, replicate, length-replicate, length-write_at, slice-write_at_self,
}
use tntpp.Buffer.{
  SharedBuffer, MutableBuffer, Region, store, current, contents, prepare, get_receive_buffer,
}
use tntpp.Buffer.State.{IsValid, unread, room, length-contents, Keeps, Keeps-refl}

-- The state after `prepare` has moved the unread bytes to a larger object.
abbrev pub regrown_shared : MutableBuffer → ℕ → SharedBuffer
regrown_shared m n = record {
  write_pointer = unread m;
  read_pointer = 0;
  size = unread m + n + m.default_length;
  bytes =
      write_at 0 (slice (current m).read_pointer (unread m) (current m).bytes)
        (replicate (unread m + n + m.default_length) 0);
}

abbrev pub regrown : MutableBuffer → ℕ → MutableBuffer
regrown m n = record m {
  heap =
      store
        (store m.heap m.buffer (record (current m) { read_pointer = (current m).write_pointer }))
        m.next (regrown_shared m n);
  buffer = m.next;
  next = m.next + 1;
}

pub prepare_enough : (m : MutableBuffer) (n : ℕ) → IsValid m → n ≤ room m → prepare m n ≡ some m
unfolding prepare
prepare_enough m n v h = ground arith

pub prepare-regrown :
    (m : MutableBuffer) (n : ℕ)
    → IsValid m
    → room m < n
    → unread m + n + m.default_length < 2 ^ 64
    → prepare m n ≡ some (regrown m n)
unfolding prepare
prepare-regrown m n v h k = ground arith

regrown-contents : (m : MutableBuffer) (n : ℕ) → IsValid m → contents (regrown m n) ≡ contents m
regrown-contents m n v = ground (
  arith,
  length-contents m v,
  length-replicate {A = ℕ} (unread m + n + m.default_length) 0,
  slice-write_at_self 0 (contents m) (replicate (unread m + n + m.default_length) 0),
)

regrown-IsValid :
    (m : MutableBuffer) (n : ℕ)
    → IsValid m
    → unread m + n + m.default_length < 2 ^ 64
    → IsValid (regrown m n)
regrown-IsValid m n v h = ground (
  arith,
  length-write_at 0 (contents m) (replicate (unread m + n + m.default_length) 0),
  length-replicate {A = ℕ} (unread m + n + m.default_length) 0,
)

regrown-Keeps : (m : MutableBuffer) (n : ℕ) → IsValid m → Keeps m (regrown m n)
regrown-Keeps m n v a i k h = ground arith

-- What `prepare` promises.
pub record Prepared (m : MutableBuffer) (n : ℕ) (m' : MutableBuffer) : Type 0 where
  pub valid : IsValid m'
  pub kept : contents m' ≡ contents m
  pub enough : n ≤ room m'
  pub same_default : m'.default_length ≡ m.default_length
  pub keeps : Keeps m m'
  pub sized :
      ((current m').size ≡ (current m).size) ⊎ ((current m').size ≡ unread m + n + m.default_length)

-- On a valid buffer, if the new size fits in a `size_t`, `prepare(n)` fails no assertion; after it
-- the buffer is valid with the same unread bytes and at least `n` free ones.
pub prepare-Prepared :
    (m : MutableBuffer) (n : ℕ)
    → IsValid m
    → unread m + n + m.default_length < 2 ^ 64
    → (m' : MutableBuffer) × (prepare m n ≡ some m') × Prepared m n m'
prepare-Prepared m n v h = elim (Bool-cases (leb n (room m))) [
  | inl e ↦ (
    m,
    prepare_enough m n v (ground arith),
    record {
      valid = v;
      kept = refl;
      enough = ground arith;
      same_default = refl;
      keeps = Keeps-refl m;
      sized = inl refl;
    },
  )
  | inr e ↦ (
    regrown m n,
    prepare-regrown m n v (ground arith) h,
    record {
      valid = regrown-IsValid m n v h;
      kept = regrown-contents m n v;
      enough = ground arith;
      same_default = refl;
      keeps = regrown-Keeps m n v;
      sized = inr (ground arith);
    },
  )
]

-- The region that `get_receive_buffer` gives while there is room.
abbrev pub receive_region : MutableBuffer → Region
receive_region m = record { buf = m.buffer; offset = (current m).write_pointer; size = room m }

pub record Receives (m m' : MutableBuffer) (r : Region) : Type 0 where
  pub valid : IsValid m'
  pub kept : contents m' ≡ contents m
  pub region : r ≡ receive_region m'
  pub usable : 0 < r.size
  pub more : room m ≤ room m'
  pub same_default : m'.default_length ≡ m.default_length
  pub keeps : Keeps m m'
  pub sized :
      ((current m').size ≡ (current m).size)
      ⊎ ((current m').size ≡ unread m + m.default_length + m.default_length)

-- `get_receive_buffer` on a valid buffer whose default length is positive and fits gives a
-- non-empty region, the free bytes just past the unread ones, which it leaves as they were.
pub get_receive_buffer-Receives :
    (m : MutableBuffer)
    → IsValid m
    → 0 < m.default_length
    → unread m + m.default_length + m.default_length < 2 ^ 64
    → (m' : MutableBuffer) × (r : Region) × (get_receive_buffer m ≡ some (m', r)) × Receives m m' r
unfolding get_receive_buffer
get_receive_buffer-Receives m v d h = elim (Bool-cases (room m == 0)) [
  | inl e ↦
      let (m', p, k) = prepare-Prepared m m.default_length v h in
      let w = k.valid in
      (
        m',
        receive_region m',
        ground (arith, w),
        record {
          valid = w;
          kept = k.kept;
          region = refl;
          usable = ground (arith, k.enough);
          more = ground arith;
          same_default = k.same_default;
          keeps = k.keeps;
          sized = k.sized;
        },
      )
  | inr e ↦ (
    m,
    receive_region m,
    ground arith,
    record {
      valid = v;
      kept = refl;
      region = refl;
      usable = ground arith;
      more = omega arith;
      same_default = refl;
      keeps = Keeps-refl m;
      sized = inl refl;
    },
  )
]
