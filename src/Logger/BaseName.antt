-- ===== src/Logger/BaseName.antt =====
-- include/tarantool_connector/tntpp_cout_logger.h: `strip_filename` against the name of a file in its
-- path.
use tntpp.Common.{
  ℕ, zero, suc, ◌≡◌, ◌≢◌, ◌<◌, refl, sym, Option, none, some, List, [], ◌∷◌, ◌==◌, if◌then◌else◌,
  length, drop, arith, Bool-cases, inl, inr, false,
}
use tntpp.Logger.{npos, last_index, rfind, separator, strip_filename}

-- What stands behind the last occurrence of a byte.
unfoldable pub after_last : ℕ → List ℕ → Option (List ℕ)
after_last c [] = none
after_last c (x ∷ xs) = elim (after_last c xs) [
  | none ↦ if x == c then some xs else none
  | some r ↦ some r
]

-- The last component of a path: behind the last slash, or if there is none the last backslash.
unfoldable pub base_name : List ℕ → List ℕ
unfolding after_last
base_name s = elim (after_last 47 s) [
  | none ↦ elim (after_last 92 s) [ none ↦ s | some r ↦ r ]
  | some r ↦ r
]

-- How the two ways to look for a byte agree.
abbrev Agrees : List ℕ → Option ℕ → Option (List ℕ) → Type 0
Agrees s none none = Unit
Agrees s none (some r) = ⊥
Agrees s (some i) none = ⊥
Agrees s (some i) (some r) = (i < length s) × (r ≡ drop (suc i) s)

last_index-Agrees : (c : ℕ) (s : List ℕ) → Agrees s (last_index c s) (after_last c s)
unfolding last_index after_last
last_index-Agrees c [] = tt
last_index-Agrees c (x ∷ xs) = go (last_index c xs) (after_last c xs) (last_index-Agrees c xs)
  where
    go :
        (i : Option ℕ) (r : Option (List ℕ))
        → Agrees xs i r
        → Agrees
            (x ∷ xs)
            (elim i [ none ↦ if x == c then some 0 else none | some j ↦ some (suc j) ])
            (elim r [ none ↦ if x == c then some xs else none | some q ↦ some q ])
    go none none h = elim (Bool-cases (x == c)) [
      | inl e ↦ rw e (omega arith, refl)
      | inr e ↦ rw e tt
    ]
    go none (some r) h = absurd h
    go (some i) none h = absurd h
    go (some i) (some r) (lt, e) = (omega arith, e)

-- What the separator's place is worth for a byte whose last occurrence is not the first byte.
abbrev Finds : List ℕ → ℕ → Option (List ℕ) → Type 0
Finds s sep none = sep ≡ 0
Finds s sep (some r) = (0 < sep) × (drop sep s ≡ r)

separator-Finds :
    (c : ℕ) (s : List ℕ)
    → length s < npos
    → last_index c s ≢ some 0
    → Finds s (separator (rfind c s)) (after_last c s)
unfolding rfind separator
separator-Finds c s lt ne = go (last_index c s) (after_last c s) ne (last_index-Agrees c s)
  where
    go :
        (i : Option ℕ) (r : Option (List ℕ))
        → i ≢ some 0
        → Agrees s i r
        → Finds s (separator (elim i [ none ↦ npos | some j ↦ j ])) r
    go none none n h = refl
    go none (some r) n h = absurd h
    go (some i) none n h = absurd h
    go (some zero) (some r) n h = absurd (n refl)
    go (some (suc i)) (some r) n (l, e) =
        let place : separator (suc i) ≡ suc (suc i) = ground arith in rw place (omega arith, sym e)

-- If a path has less than 2^64 - 1 bytes and neither its last slash nor its last backslash is its
-- first byte, `strip_filename` gives the last component of the path.
pub strip_filename-base_name :
    (s : List ℕ)
    → length s < npos
    → last_index 47 s ≢ some 0
    → last_index 92 s ≢ some 0
    → strip_filename s ≡ base_name s
unfolding strip_filename base_name
strip_filename-base_name s lt n m =
    go (after_last 47 s) (after_last 92 s) (separator-Finds 47 s lt n) (separator-Finds 92 s lt m)
  where
    go :
        (r q : Option (List ℕ))
        → Finds s (separator (rfind 47 s)) r
        → Finds s (separator (rfind 92 s)) q
        → strip_filename s ≡ elim r [ none ↦ elim q [ none ↦ s | some x ↦ x ] | some x ↦ x ]
    go none none e k = rw (e, strip_filename, k) refl
    go none (some q) e (lt', k) = rw (e, strip_filename) k
    go (some r) q (lt', e) k =
        let ne : (separator (rfind 47 s) == 0) ≡ false = ground arith in rw (ne, strip_filename) e
