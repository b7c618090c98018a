-- ===== src/Logger/Tests.antt =====
-- Names of files on small paths.
use tntpp.Common.{ℕ, suc, ◌≡◌, ◌≢◌, refl, some, Option, List, [], ◌∷◌, arith}
use tntpp.Logger.{last_index, rfind, separator, strip_filename}
use tntpp.Logger.BaseName.{base_name, strip_filename-base_name}

-- "/a/b.c".
abbrev path : List ℕ
path = 47 ∷ 97 ∷ 47 ∷ 98 ∷ 46 ∷ 99 ∷ []

stripped : strip_filename path ≡ 98 ∷ 46 ∷ 99 ∷ []
unfolding strip_filename rfind separator last_index
stripped = refl

-- "/b" is left as it is.
kept : strip_filename (47 ∷ 98 ∷ []) ≡ 47 ∷ 98 ∷ []
unfolding strip_filename rfind separator last_index
kept = refl

not_first : (o : Option ℕ) (i : ℕ) → o ≡ some (suc i) → o ≢ some 0
not_first o i e h = ground arith

strip_filename-base_name_example : strip_filename path ≡ base_name path
unfolding last_index
strip_filename-base_name_example =
    strip_filename-base_name path (omega arith) (not_first (some 2) 1 refl) (λ h. ground arith)
