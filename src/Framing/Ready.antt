-- ===== src/Framing/Ready.antt =====
-- include/tarantool_connector/detail/tntpp_mutable_buffer.h and detail/tntpp_iproto_framing.h: a receive
-- buffer that is ready for the framing, and the room that it makes.
use tntpp.Common.{
  ℕ, ◌-◌, ◌^◌, ◌≤◌, ◌<◌, ◌≡◌, ap, ◌∙◌, some, List, arith, length, length-write_at,
  slice-write_at_before,
}
use tntpp.Buffer.{
  MutableBuffer, FrozenBuffer, current, contents, frozen_bytes, get_ready_buffer, fill, ready,
}
use tntpp.Buffer.State.{IsValid, unread, room, length-contents, Keeps, Keeps-trans}
use tntpp.Buffer.Prepare.{receive_region, prepare-Prepared, get_receive_buffer-Receives}
use tntpp.Buffer.{new_buffer, new_shared}
use tntpp.Buffer.Transfer.{new_buffer-IsValid}
use tntpp.Buffer.Transfer.{written, written-IsValid, consumed, consumed-IsValid}
use tntpp.Framing.Room.{make_room}
use tntpp.Buffer
use tntpp.Buffer.Transfer.{clear-IsValid}

-- A well-formed buffer whose sizes are far from the end of `size_t`: the default length is
-- positive and at most 2^32, the current object has at most 2^40 bytes.
pub record IsReady (m : MutableBuffer) : Type 0 where
  pub valid : IsValid m
  pub positive : 0 < m.default_length
  pub default_le : m.default_length ≤ 2 ^ 32
  pub size_le : (current m).size ≤ 2 ^ 40

pub record HasRoom (m : MutableBuffer) (n : ℕ) (m' : MutableBuffer) : Type 0 where
  pub is_ready : IsReady m'
  pub kept : contents m' ≡ contents m
  pub enough : n ≤ room m'
  pub keeps : Keeps m m'

pub make_room-HasRoom :
    (m : MutableBuffer) (n : ℕ)
    → IsReady m
    → n ≤ 2 ^ 32
    → unread m < n
    → (m' : MutableBuffer) × (make_room m n ≡ some (m', receive_region m', n - unread m))
      × HasRoom m n m'
unfolding make_room ready
make_room-HasRoom m n d le lt =
    let v = d.valid in
    let (m1, p, k) = prepare-Prepared m n v (omega arith) in
    let v1 = k.valid in
    let same1 : unread m1 ≡ unread m =
      omega (arith, length-contents m v, length-contents m1 v1, ap length k.kept) in
    let (m2, r, q, j) =
      get_receive_buffer-Receives m1 v1 (omega (arith, k.same_default))
        (omega (arith, k.same_default)) in
    let v2 = j.valid in
    let same2 : unread m2 ≡ unread m =
      omega (arith, length-contents m1 v1, length-contents m2 v2, ap length j.kept) in
    (
      m2,
      rw (p, q, j.region) (ground (arith, v2)),
      record {
        is_ready = record {
          valid = v2;
          positive = omega (arith, j.same_default, k.same_default);
          default_le = omega (arith, j.same_default, k.same_default);
          size_le = omega (arith, j.sized, k.sized, k.same_default);
        };
        kept = j.kept ∙ k.kept;
        enough = omega (arith, k.enough, j.more);
        keeps = Keeps-trans m m1 m2 k.keeps j.keeps;
      },
    )

pub get_ready_buffer_lem :
    (m : MutableBuffer)
    → IsValid m
    → get_ready_buffer m
      ≡ some (record { buf = m.buffer; offset = (current m).read_pointer; size = unread m })
unfolding get_ready_buffer
get_ready_buffer_lem m v = ground arith

pub filled-IsReady :
    (m : MutableBuffer) (bs : List ℕ) → IsReady m → IsReady (fill m (receive_region m) bs)
unfolding fill
filled-IsReady m bs d =
    let v = d.valid in
    ground (arith, length-write_at (current m).write_pointer bs (current m).bytes)

pub filled-contents :
    (m : MutableBuffer) (bs : List ℕ)
    → IsReady m
    → contents (fill m (receive_region m) bs) ≡ contents m
unfolding fill
filled-contents m bs d =
    let v = d.valid in
    let b = current m in
    ground (arith, slice-write_at_before b.read_pointer (unread m) b.write_pointer bs b.bytes)

pub written-IsReady :
    (m : MutableBuffer) (bs : List ℕ) → IsReady m → length bs ≤ room m → IsReady (written m bs)
unfolding fill
written-IsReady m bs d h = let v = d.valid in let w = written-IsValid m bs v h in ground (arith, w)

pub consumed-IsReady :
    (m : MutableBuffer) (n : ℕ) → IsReady m → n ≤ unread m → IsReady (consumed m n)
consumed-IsReady m n d h = let v = d.valid in let w = consumed-IsValid m n v h in ground (arith, w)

pub clear-IsReady : (m : MutableBuffer) → IsReady m → IsReady (Buffer.clear m)
unfolding Buffer.clear
clear-IsReady m d =
    let v = clear-IsValid m d.valid (omega (arith, d.default_le)) in ground (arith, d, v)

-- A new buffer of a size between 1 and 2^32.
pub new_buffer-IsReady : (n : ℕ) → 0 < n → n ≤ 2 ^ 32 → IsReady (new_buffer n)
unfolding new_buffer new_shared
new_buffer-IsReady n p h = record {
  valid = new_buffer-IsValid n (omega arith);
  positive = p;
  default_le = h;
  size_le = omega arith;
}
