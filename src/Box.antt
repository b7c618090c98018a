-- ===== src/Box.antt =====
-- include/tarantool_connector/box/tntpp_box.h: the data operations.
-- A key or a tuple is the bytes that msgpack appends for it. `none` is a failed assertion. The
-- overload of `remove` with an index is left out: it passes a `Space` to `get_index_id`, which takes
-- an `Index`, and cannot be instantiated.
pub mod Bytes
pub mod Select
mod Tests
use tntpp.Common.{ℕ, Bool, Option, none, some, List, [], ◌∷◌, ◌++◌, ◌>>=◌}
use tntpp.Errc.{ErrorCode, Result, ok, fail, abort, invalid_argument}
use tntpp.Msgpack.{Msgpack}
use tntpp.Request.{RequestPacker, pack, begin_map, finalize_map, finalize}
use tntpp.Iproto.Types.{
  RequestType, FieldType, insert, replace, delete, select, space_id, limit, offset, iterator, key,
  tuple, after_position, after_tuple, fetch_position,
}
use tntpp.Connector.{Internal, generate_id, send_request}
use tntpp.Connector.Requests.{start_request, pack_field}

-- `SpaceVariant`, for a space or an index.
pub data SpaceVariant : Type 0 where
  monostate : SpaceVariant
  name : List ℕ → SpaceVariant
  number : ℕ → SpaceVariant

pub data SelectIterator : Type 0 where
  eq req all lt te ge gt bits_all_set bits_any_set bits_all_not_set : SelectIterator
  overlaps neighbor : SelectIterator

unfoldable pub iterator_number : SelectIterator → ℕ
iterator_number eq = 0
iterator_number req = 1
iterator_number all = 2
iterator_number lt = 3
iterator_number te = 4
iterator_number ge = 5
iterator_number gt = 6
iterator_number bits_all_set = 7
iterator_number bits_any_set = 8
iterator_number bits_all_not_set = 9
iterator_number overlaps = 10
iterator_number neighbor = 11

-- A name is not looked up: it completes with 0.
unfoldable pub get_space_index : SpaceVariant → Result ℕ
get_space_index monostate = fail invalid_argument
get_space_index (number n) = ok n
get_space_index (name s) = ok 0

unfoldable pub get_index_id : SpaceVariant → Result ℕ
get_index_id monostate = fail invalid_argument
get_index_id (number n) = ok n
get_index_id (name s) = ok 0

-- `SelectRequest`.
pub record SelectRequest : Type 0 where
  pub sync : ℕ
  pub space : SpaceVariant
  pub index : SpaceVariant
  pub packer : RequestPacker

-- A completion with an error code and an empty frame.
abbrev pub complete_with : Internal (List ℕ) → ℕ → ErrorCode → Internal (List ℕ)
complete_with s h e = record s {
  completions = s.completions ++ record { caller = h; outcome = fail e } ∷ [];
}

-- The methods of `SelectBuilder`, with their arguments.
pub data Choice : Type 0 where
  with_index : SpaceVariant → Choice
  with_limit with_offset : ℕ → Choice
  with_iterator : SelectIterator → Choice
  with_key with_after_position with_after_tuple : List ℕ → Choice
  with_fetch_position : Bool → Choice

module _ (c : Msgpack) where
  open c use {pack_uint, pack_map, pack_bool, pack_string}

  -- The constructors of `SelectBuilder`; without an index it is the empty one.
  unfoldable pub new_builder : SpaceVariant → SpaceVariant → ℕ → SelectRequest
  new_builder space index id = record {
    sync = id;
    space = space;
    index = index;
    packer = begin_map (start_request c id select);
  }

  abbrev pub add : SelectRequest → FieldType → List ℕ → SelectRequest
  add r f value = record r { packer = pack_field c r.packer f value }

  unfoldable pub choose : SelectRequest → Choice → SelectRequest
  unfolding iterator_number
  choose r (with_index i) = record r { index = i }
  choose r (with_limit n) = add r limit (pack_uint n)
  choose r (with_offset n) = add r offset (pack_uint n)
  choose r (with_iterator i) = add r iterator (pack_uint (iterator_number i))
  choose r (with_key k) = add r key k
  choose r (with_after_position p) = add r after_position (pack_string p)
  choose r (with_after_tuple t) = add r after_tuple t
  choose r (with_fetch_position b) = add r fetch_position (pack_bool b)

  unfoldable pub choose_all : SelectRequest → List Choice → SelectRequest
  unfolding choose
  choose_all r [] = r
  choose_all r (x ∷ xs) = choose_all (choose r x) xs

  -- `get_select_builder`.
  unfoldable pub get_select_builder :
      Internal (List ℕ) → SpaceVariant → SpaceVariant → SelectRequest × Internal (List ℕ)
  unfolding new_builder
  get_select_builder s space index =
      let (id, s') = generate_id s in (new_builder space index id, s')

  -- `select`, for the handler `h`. The index of the request is not used.
  unfoldable pub send_select : Internal (List ℕ) → SelectRequest → ℕ → Option (Internal (List ℕ))
  unfolding get_space_index
  send_select s r h = elim (get_space_index r.space) [
    | ok n ↦ finalize_map (pack_field c r.packer space_id (pack_uint n)) >>= λ p.
        some (send_request s r.sync (finalize p).stream h)
    | fail e ↦ some (complete_with s h e)
    | abort ↦ none
  ]

  -- What `insert`, `replace` and `remove` do with their packer.
  unfoldable pub send_to_space :
      Internal (List ℕ) → ℕ → SpaceVariant → RequestPacker → ℕ → Option (Internal (List ℕ))
  unfolding get_space_index
  send_to_space s id space p h = elim (get_space_index space) [
    | ok n ↦ some (send_request s id (finalize (pack_field c p space_id (pack_uint n))).stream h)
    | fail e ↦ some (complete_with s h e)
    | abort ↦ none
  ]

  unfoldable pub send_insert :
      Internal (List ℕ) → SpaceVariant → List ℕ → ℕ → Option (Internal (List ℕ))
  unfolding send_to_space
  send_insert s space value h =
      let (id, s') = generate_id s in
      send_to_space s' id space
        (pack_field c (pack (start_request c id insert) (pack_map 2)) tuple value) h

  unfoldable pub send_replace :
      Internal (List ℕ) → SpaceVariant → List ℕ → ℕ → Option (Internal (List ℕ))
  unfolding send_to_space
  send_replace s space value h =
      let (id, s') = generate_id s in
      send_to_space s' id space
        (pack_field c (pack (start_request c id replace) (pack_map 2)) tuple value) h

  unfoldable pub send_remove :
      Internal (List ℕ) → SpaceVariant → List ℕ → ℕ → Option (Internal (List ℕ))
  unfolding send_to_space
  send_remove s space value h =
      let (id, s') = generate_id s in
      send_to_space s' id space
        (pack_field c (pack (start_request c id delete) (pack_map 2)) key value) h
