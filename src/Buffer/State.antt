-- ===== src/Buffer/State.antt =====
-- include/tarantool_connector/detail/tntpp_mutable_buffer.h: when a receive buffer is well formed, what
-- it holds, and what becomes of the bytes that frozen buffers refer to.
use tntpp.Common.{
  ℕ, ◌+◌, ◌-◌, ◌^◌, ◌≤◌, ◌<◌, ◌≡◌, refl, ◌∙◌, Option, none, some, arith, length, slice,
  length-slice,
}
use tntpp.Buffer.{MutableBuffer, FrozenBuffer, current, contents, frozen_bytes}

-- The pointers are in order and inside the memory, and the buffer's address has been given out.
pub record IsValid (m : MutableBuffer) : Type 0 where
  pub read_le : (current m).read_pointer ≤ (current m).write_pointer
  pub write_le : (current m).write_pointer ≤ (current m).size
  pub stored : length (current m).bytes ≡ (current m).size
  pub bounded : (current m).size < 2 ^ 64
  pub fresh : m.buffer < m.next

abbrev pub unread : MutableBuffer → ℕ
unread m = (current m).write_pointer - (current m).read_pointer

abbrev pub room : MutableBuffer → ℕ
room m = (current m).size - (current m).write_pointer

pub length-contents : (m : MutableBuffer) → IsValid m → length (contents m) ≡ unread m
length-contents m v =
    length-slice (current m).read_pointer (unread m) (current m).bytes (omega arith)

-- `n` bytes from offset `i` of the object at `a` have been written.
abbrev pub Inside : MutableBuffer → ℕ → ℕ → ℕ → Type 0
Inside m a i n = (a < m.next) × (i + n ≤ (m.heap a).write_pointer)

-- Bytes once written stay, in every object made so far.
abbrev pub Keeps : MutableBuffer → MutableBuffer → Type 0
Keeps m m' =
    (a i n : ℕ)
    → Inside m a i n
    → Inside m' a i n × (slice i n (m'.heap a).bytes ≡ slice i n (m.heap a).bytes)

pub Keeps-refl : (m : MutableBuffer) → Keeps m m
Keeps-refl m a i n h = (h, refl)

pub Keeps-trans : (m m' m'' : MutableBuffer) → Keeps m m' → Keeps m' m'' → Keeps m m''
Keeps-trans m m' m'' k k' a i n h =
    let (h', e) = k a i n h in let (h'', e') = k' a i n h' in (h'', e' ∙ e)

-- A frozen buffer that shows written bytes only.
abbrev pub IsFrozen : MutableBuffer → FrozenBuffer → Type 0
IsFrozen m f = elim f.buf [ none ↦ Unit | some a ↦ Inside m a f.start f.size ]

-- It stays one and shows the same bytes as long as written bytes stay.
pub frozen_bytes-Keeps :
    (m m' : MutableBuffer) (f : FrozenBuffer)
    → Keeps m m'
    → IsFrozen m f
    → IsFrozen m' f × (frozen_bytes m' f ≡ frozen_bytes m f)
frozen_bytes-Keeps m m' f k h = go f.buf h
  where
    go :
        (b : Option ℕ)
        → IsFrozen m (record f { buf = b })
        → IsFrozen m' (record f { buf = b })
          × (frozen_bytes m' (record f { buf = b }) ≡ frozen_bytes m (record f { buf = b }))
    go none h = (tt, refl)
    go (some a) h = k a f.start f.size h
