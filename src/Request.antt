-- ===== src/Request.antt =====
-- include/tarantool_connector/detail/tntpp_request.h: the packer of a request.
-- msgpack is a third-party library: what it appends to the stream is an argument. The stream is
-- the list of its bytes.
pub mod Frame
mod Tests
use tntpp.Common.{
  ℕ, ◌+◌, ◌-◌, ◌%◌, ◌^◌, Bool, not, Option, none, some, List, [], ◌∷◌, ◌++◌, ◌==◌, length, write_at,
  be16, be32, ◌>>=◌, ◌>>◌, require,
}

-- `RequestPacker`.
pub record RequestPacker : Type 0 where
  pub map_len_offset : ℕ
  pub header_count : ℕ
  pub stream : List ℕ

abbrev pub size_tag : ℕ
size_tag = 0xce

abbrev pub map_tag : ℕ
map_tag = 0xde

-- The constructor: the tag of a 32-bit integer, and four bytes that `finalize` fills in.
unfoldable pub new_packer : RequestPacker
new_packer = record {
  map_len_offset = 0;
  header_count = 0;
  stream = size_tag ∷ 255 ∷ 255 ∷ 255 ∷ 255 ∷ [];
}

-- `pack`, and `begin_map(count)`, where msgpack appends `bs`.
unfoldable pub pack : RequestPacker → List ℕ → RequestPacker
pack p bs = record p { stream = p.stream ++ bs }

-- `begin_map()`: a 16-bit map whose count `finalize_map` fills in.
unfoldable pub begin_map : RequestPacker → RequestPacker
begin_map p = record p {
  map_len_offset = length (p.stream ++ map_tag ∷ []);
  stream = (p.stream ++ map_tag ∷ []) ++ 255 ∷ 255 ∷ [];
}

unfoldable pub finalize_map : RequestPacker → Option RequestPacker
finalize_map p = do
  require (not (p.map_len_offset == 0))
  some (record p { stream = write_at p.map_len_offset (be16 p.header_count) p.stream })

-- msgpack appends `key` for the field's number and `value` for the value; the count is a
-- `uint16_t`.
unfoldable pub pack_map_entry : RequestPacker → List ℕ → List ℕ → RequestPacker
pack_map_entry p key value = record p {
  header_count = (p.header_count + 1) % 2 ^ 16;
  stream = (p.stream ++ key) ++ value;
}

-- The stream's size is cut to 32 bits; the `size_t` subtraction is cut to 32 bits again.
abbrev pub real_size : List ℕ → ℕ
real_size stream = (length stream % 2 ^ 32 + 2 ^ 64 - 1 - 4) % 2 ^ 32

unfoldable pub finalize : RequestPacker → RequestPacker
finalize p = record p { stream = write_at 1 (be32 (real_size p.stream)) p.stream }
