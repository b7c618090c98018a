-- ===== src/Common/Bytes.antt =====
-- Unsigned integers as big-endian bytes: `boost::endian::native_to_big` and `big_to_native` over
-- the object representation of the integer.
use Prim.Native.Nat.{ℕ, ◌+◌, ◌*◌, ◌/◌, ◌%◌, ◌^◌, ◌<◌}
use mathlib.Core.Path.{◌≡◌}
use mathlib.Core.List.{List, [], ◌∷◌}
use native.Mathlib.Omega.{arith}

-- The object representation of a big-endian `uint16_t` and of a big-endian `uint32_t`.
abbrev pub be16 : ℕ → List ℕ
be16 n = (n / 256 % 256) ∷ (n % 256) ∷ []

abbrev pub be32 : ℕ → List ℕ
be32 n = (n / 16777216 % 256) ∷ (n / 65536 % 256) ∷ (n / 256 % 256) ∷ (n % 256) ∷ []

-- The number whose big-endian bytes these are.
abbrev pub be_from : ℕ → List ℕ → ℕ
be_from acc [] = acc
be_from acc (b ∷ bs) = be_from (acc * 256 + b) bs

abbrev pub be_value : List ℕ → ℕ
be_value bs = be_from 0 bs

pub be_value-be32 : (n : ℕ) → n < 2 ^ 32 → be_value (be32 n) ≡ n
be_value-be32 n h = omega arith

pub be_value-be16 : (n : ℕ) → n < 2 ^ 16 → be_value (be16 n) ≡ n
be_value-be16 n h = omega arith
