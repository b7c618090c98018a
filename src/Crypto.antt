-- ===== src/Crypto.antt =====
-- include/tarantool_connector/detail/tntpp_crypto.h: the scrambled password of an authentication
-- request. SHA-1 (detail/sha1.h, a copy of a public-domain library), Boost's `trim` and its base64
-- iterators are parameters. `none` is an exception or undefined behaviour.
pub mod Accepted
pub mod Small
use Prim.Native.Nat.{bit_xor}
use tntpp.Common.{
  ℕ, ◌+◌, ◌-◌, ◌%◌, ◌^◌, ◌<◌, ◌≤◌, ◌≡◌, Option, none, some, List, [], ◌∷◌, ◌++◌, map, leb, ◌==◌,
  if◌then◌else◌, length, take, ◌>>=◌, ◌>>◌, require,
}

-- `SHA1_CTX` with its functions. `update` also gives the memory behind its argument afterwards: it
-- works in place on the blocks of the caller.
pub record Sha1 : Type 1 where
  pub Context : Type 0
  pub init : Context
  pub update : Context → List ℕ → ℕ → Context × List ℕ
  pub final : Context → List ℕ

-- `boost::algorithm::trim`, and what the base64 iterators give for a text; `none` is an exception.
pub record Base64 : Type 0 where
  pub trim : List ℕ → List ℕ
  pub decode : List ℕ → Option (List ℕ)

-- A context holds what it has absorbed; the digest is a function of that, of 20 bytes. The first
-- `len` bytes at the argument are absorbed; up to 64 bytes are left as they were.
pub record IsSha1 (d : Sha1) : Type 0 where
  pub hash : List ℕ → List ℕ
  pub absorbed : d.Context → List ℕ
  pub absorbed-init : absorbed d.init ≡ []
  pub absorbed-update :
      (c : d.Context) (bs : List ℕ) (len : ℕ)
      → len ≤ length bs
      → len < 2 ^ 32
      → absorbed (d.update c bs len).0 ≡ absorbed c ++ take len bs
  pub kept : (c : d.Context) (bs : List ℕ) (len : ℕ) → len ≤ 64 → (d.update c bs len).1 ≡ bs
  pub final-hash : (c : d.Context) → d.final c ≡ hash (absorbed c)
  pub length-hash : (m : List ℕ) → length (hash m) ≡ 20

abbrev pub scramble_size : ℕ
scramble_size = 20

-- `std::count` of '='.
unfoldable pub count_padding : List ℕ → ℕ
count_padding [] = 0
count_padding (x ∷ xs) = (if x == 61 then 1 else 0) + count_padding xs

-- `std::replace` of '=' by 'A'.
unfoldable pub replace_padding : List ℕ → List ℕ
replace_padding xs = map (λ x. if x == 61 then 65 else x) xs

-- `out[i] = hash1[i] ^ out[i]`.
unfoldable pub xor_bytes : List ℕ → List ℕ → List ℕ
xor_bytes [] ys = []
xor_bytes (x ∷ xs) [] = []
xor_bytes (x ∷ xs) (y ∷ ys) = bit_xor x y ∷ xor_bytes xs ys

unfoldable pub decoded_salt : Base64 → List ℕ → Option (List ℕ)
unfolding count_padding replace_padding
decoded_salt b salt =
    let text = b.trim salt in
    do
      bytes ← b.decode (replace_padding text)
      require (leb (count_padding text) (length bytes))
      some (take (length bytes - count_padding text) bytes)

module _ (d : Sha1) (b : Base64) where
  open d use {Context, init, update, final}

  -- `SHA1Update` of `len` bytes, which must be there.
  unfoldable pub absorb : Context → List ℕ → ℕ → Option (Context × List ℕ)
  absorb c bs len = do require (leb len (length bs)); some (update c bs len)

  -- The scrambled password, and the caller's password afterwards. The length is cut to 32 bits.
  unfoldable pub scramble_password : List ℕ → List ℕ → Option (List ℕ × List ℕ)
  unfolding absorb decoded_salt
  scramble_password password salt = do
    decoded ← decoded_salt b salt
    (c1, password') ← absorb init password (length password % 2 ^ 32)
    let hash1 = final c1
    (c2, hash1') ← absorb init hash1 scramble_size
    let hash2 = final c2
    (c3, decoded') ← absorb init decoded scramble_size
    (c4, hash2') ← absorb c3 hash2 scramble_size
    some (xor_bytes hash1' (final c4), password')
