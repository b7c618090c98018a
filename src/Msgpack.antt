-- ===== src/Msgpack.antt =====
-- The msgpack library as its clients see it: a third-party library, so a parameter.
pub mod Small
use tntpp.Common.{ℕ, ◌+◌, ◌^◌, ◌<◌, ◌≡◌, Bool, Option, some, List, [], ◌∷◌, ◌++◌, map, length}

pub record Msgpack : Type 1 where
  -- `msgpack::object`.
  pub Object : Type 0
  -- What `packer.pack` of an unsigned integer, a `bool` and a string, and `packer.pack_map` and
  -- `packer.pack_array` append to the stream.
  pub pack_uint : ℕ → List ℕ
  pub pack_bool : Bool → List ℕ
  pub pack_string : List ℕ → List ℕ
  pub pack_map : ℕ → List ℕ
  pub pack_array : ℕ → List ℕ
  -- `msgpack::unpack` at offset 0: the object and the new offset; `none` is an exception that is no
  -- `bad_cast`.
  pub unpack : List ℕ → Option (Object × ℕ)
  -- The content of an object of type MAP, and of one of type POSITIVE_INTEGER.
  pub as_map : Object → Option (List (Object × Object))
  pub as_uint : Object → Option ℕ
  -- `convert` to `uint64_t` and to `std::string`; `none` is `type_error`, a `bad_cast`.
  pub to_uint : Object → Option ℕ
  pub to_string : Object → Option (List ℕ)

-- Every number of a list of pairs fits in 64 bits.
abbrev pub Fits : List (ℕ × ℕ) → Type 0
Fits [] = Unit
Fits ((k, v) ∷ kvs) = (k < 2 ^ 64) × (v < 2 ^ 64) × Fits kvs

-- The entries of a map of integers, packed one after another.
abbrev pub packed : Msgpack → List (ℕ × ℕ) → List ℕ
packed c [] = []
packed c ((k, v) ∷ kvs) = c.pack_uint k ++ (c.pack_uint v ++ packed c kvs)

-- msgpack reads back what it packed: a map from integers to integers, whatever follows it.
pub record ReadsBack (c : Msgpack) : Type 0 where
  pub uint : ℕ → c.Object
  pub as_uint-uint : (n : ℕ) → c.as_uint (uint n) ≡ some n
  pub to_uint-uint : (n : ℕ) → c.to_uint (uint n) ≡ some n
  pub table : List (ℕ × ℕ) → c.Object
  pub as_map-table :
      (kvs : List (ℕ × ℕ)) → c.as_map (table kvs) ≡ some (map (λ p. (uint p.0, uint p.1)) kvs)
  pub unpack-packed :
      (kvs : List (ℕ × ℕ)) (rest : List ℕ)
      → Fits kvs
      → c.unpack ((c.pack_map (length kvs) ++ packed c kvs) ++ rest)
        ≡ some (table kvs, length (c.pack_map (length kvs) ++ packed c kvs))
