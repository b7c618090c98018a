-- ===== src/Crypto/Small.antt =====
-- A small digest that meets the assumptions on SHA-1, and a codec that leaves a text as it is, but
-- for `A`, which is 0.
use tntpp.Common.{
  ℕ, ◌+◌, ◌*◌, ◌%◌, ◌≡◌, refl, some, List, [], ◌∷◌, ◌++◌, map, ◌==◌, if◌then◌else◌, length, take,
  replicate, length-replicate,
}
use tntpp.Crypto.{Sha1, Base64, IsSha1}

-- The sum of the bytes with their places, twenty times.
abbrev weigh : ℕ → List ℕ → ℕ
weigh n [] = n % 256
weigh n (x ∷ xs) = weigh (n * 3 + x + 1) xs

abbrev pub digest : List ℕ → List ℕ
digest m = replicate 20 (weigh 7 m)

abbrev pub small_sha1 : Sha1
small_sha1 = record {
  Context = List ℕ;
  init = [];
  update = λ c bs len. (c ++ take len bs, bs);
  final = digest;
}

pub length-digest : (m : List ℕ) → length (digest m) ≡ 20
length-digest m = length-replicate 20 (weigh 7 m)

abbrev pub small_sha1-IsSha1 : IsSha1 small_sha1
small_sha1-IsSha1 = record {
  hash = digest;
  absorbed = λ c. c;
  absorbed-init = refl;
  absorbed-update = λ c bs len h lt. refl;
  kept = λ c bs len h. refl;
  final-hash = λ c. refl;
  length-hash = length-digest;
}

abbrev pub plain : Base64
plain = record { trim = λ s. s; decode = λ s. some (map (λ x. if x == 65 then 0 else x) s) }
