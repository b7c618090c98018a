-- ===== src/Msgpack/Small.antt =====
-- A small codec that meets the assumptions on msgpack: integers and maps of integers, each integer
-- one number, a map the number 0x80 + n and then its n entries.
use tntpp.Common.{
  ℕ, zero, suc, ◌+◌, ◌-◌, ◌≡◌, refl, ap, Option, none, some, List, [], ◌∷◌, ◌++◌, map, arith, leb,
  if◌then◌else◌, length, ◌>>=◌,
}
use tntpp.Msgpack.{Msgpack, ReadsBack, Fits, packed}

pub data Small : Type 0 where
  num : ℕ → Small
  table : List (ℕ × ℕ) → Small

abbrev pub read_pairs : ℕ → List ℕ → Option (List (ℕ × ℕ))
read_pairs zero bs = some []
read_pairs (suc n) [] = none
read_pairs (suc n) (k ∷ []) = none
read_pairs (suc n) (k ∷ v ∷ bs) = read_pairs n bs >>= λ kvs. some ((k, v) ∷ kvs)

abbrev pub read_table : ℕ → List ℕ → Option (Small × ℕ)
read_table n bs = read_pairs n bs >>= λ kvs. some (table kvs, suc (n + n))

abbrev pub read_small : List ℕ → Option (Small × ℕ)
read_small [] = none
read_small (b ∷ bs) = if leb 0x80 b then read_table (b - 0x80) bs else some (num b, 1)

abbrev pub map_of : Small → Option (List (Small × Small))
map_of (num n) = none
map_of (table kvs) = some (map (λ p. (num p.0, num p.1)) kvs)

abbrev pub num_of : Small → Option ℕ
num_of (num n) = some n
num_of (table kvs) = none

abbrev pub small : Msgpack
small = record {
  Object = Small;
  pack_uint = λ n. n ∷ [];
  pack_bool = λ b. (if b then 1 else 0) ∷ [];
  pack_string = λ s. length s ∷ s;
  pack_map = λ n. (0x80 + n) ∷ [];
  pack_array = λ n. (0x90 + n) ∷ [];
  unpack = read_small;
  as_map = map_of;
  as_uint = num_of;
  to_uint = num_of;
  to_string = λ o. num_of o >>= λ n. some (n ∷ []);
}

read_pairs-packed :
    (kvs : List (ℕ × ℕ)) (rest : List ℕ)
    → read_pairs (length kvs) (packed small kvs ++ rest) ≡ some kvs
read_pairs-packed [] rest = refl
read_pairs-packed ((k, v) ∷ kvs) rest =
    ap (λ o. o >>= λ l. some ((k, v) ∷ l)) (read_pairs-packed kvs rest)

length-packed : (kvs : List (ℕ × ℕ)) → length (packed small kvs) ≡ length kvs + length kvs
length-packed [] = omega arith
length-packed ((k, v) ∷ kvs) = omega (arith, length-packed kvs)

read_small-packed :
    (kvs : List (ℕ × ℕ)) (rest : List ℕ)
    → Fits kvs
    → read_small (((0x80 + length kvs) ∷ packed small kvs) ++ rest)
      ≡ some (table kvs, length ((0x80 + length kvs) ∷ packed small kvs))
read_small-packed kvs rest f = ground (arith, back, read_pairs-packed kvs rest, length-packed kvs)
  where
    back : 0x80 + length kvs - 0x80 ≡ length kvs
    back = omega arith

pub small-ReadsBack : ReadsBack small
small-ReadsBack = record {
  uint = num;
  as_uint-uint = λ n. refl;
  to_uint-uint = λ n. refl;
  table = table;
  as_map-table = λ kvs. refl;
  unpack-packed = read_small-packed;
}
