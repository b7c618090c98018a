-- ===== src/Framing/Room.antt =====
-- include/tarantool_connector/detail/tntpp_iproto_framing.h: the room that `transfer_exactly` makes
-- before it reads.
use tntpp.Common.{ℕ, ◌-◌, Option, some, ◌>>=◌}
use tntpp.Buffer.{MutableBuffer, Region, current, ready, prepare, get_receive_buffer}

-- For `n` bytes: the buffer, the region to read into, and how many bytes are missing.
unfoldable pub make_room : MutableBuffer → ℕ → Option (MutableBuffer × Region × ℕ)
make_room m n = do
  m1 ← prepare m n
  (m2, r) ← get_receive_buffer m1
  u ← ready (current m2)
  some (m2, r, n - u)
