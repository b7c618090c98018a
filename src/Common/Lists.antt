-- ===== src/Common/Lists.antt =====
-- Lists measured and cut by native numbers, under the library's names, and the regions of a block
-- of memory: `slice` reads one and `write_at` is `memcpy` into one.
use Prim.Native.Nat.{ℕ, zero, suc, ◌+◌, ◌-◌, ◌≤◌, min}
use Prim.Native.Nat.add
use mathlib.Core.Path.{◌≡◌, refl, ap, sym, ◌∙◌}
use mathlib.Core.Logic.{◌⊎◌, inl, inr}
use mathlib.Core.List.{List, [], ◌∷◌, ◌++◌}
use native.Mathlib.Omega.{arith}

module _ {ℓ} {A : Type ℓ} where
  abbrev pub length : List A → ℕ
  length [] = 0
  length (x ∷ xs) = suc (length xs)

  abbrev pub take : ℕ → List A → List A
  take zero xs = []
  take (suc n) [] = []
  take (suc n) (x ∷ xs) = x ∷ take n xs

  abbrev pub drop : ℕ → List A → List A
  drop zero xs = xs
  drop (suc n) [] = []
  drop (suc n) (x ∷ xs) = drop n xs

  abbrev pub replicate : ℕ → A → List A
  replicate zero a = []
  replicate (suc n) a = a ∷ replicate n a

  abbrev pub get_or : List A → ℕ → A → A
  get_or [] i d = d
  get_or (x ∷ xs) zero d = x
  get_or (x ∷ xs) (suc i) d = get_or xs i d

  pub length-append : (xs ys : List A) → length (xs ++ ys) ≡ length xs + length ys
  length-append [] ys = omega arith
  length-append (x ∷ xs) ys = omega (arith, length-append xs ys)

  pub length-take : (n : ℕ) (xs : List A) → length (take n xs) ≡ min n (length xs)
  length-take zero xs = omega arith
  length-take (suc n) [] = omega arith
  length-take (suc n) (x ∷ xs) = omega (arith, length-take n xs)

  pub length-drop : (n : ℕ) (xs : List A) → length (drop n xs) ≡ length xs - n
  length-drop zero xs = omega arith
  length-drop (suc n) [] = omega arith
  length-drop (suc n) (x ∷ xs) = omega (arith, length-drop n xs)

  pub length-replicate : (n : ℕ) (a : A) → length (replicate n a) ≡ n
  length-replicate zero a = refl
  length-replicate (suc n) a = ap suc (length-replicate n a)

  pub take-append-drop : (n : ℕ) (xs : List A) → take n xs ++ drop n xs ≡ xs
  take-append-drop zero xs = refl
  take-append-drop (suc n) [] = refl
  take-append-drop (suc n) (x ∷ xs) = ap (λ l. x ∷ l) (take-append-drop n xs)

  pub take-length : (xs ys : List A) → take (length xs) (xs ++ ys) ≡ xs
  take-length [] ys = refl
  take-length (x ∷ xs) ys = ap (λ l. x ∷ l) (take-length xs ys)

  pub drop-length : (xs ys : List A) → drop (length xs) (xs ++ ys) ≡ ys
  drop-length [] ys = refl
  drop-length (x ∷ xs) ys = drop-length xs ys

  pub take_append : (n : ℕ) (xs ys : List A) → n ≤ length xs → take n (xs ++ ys) ≡ take n xs
  take_append zero xs ys h = refl
  take_append (suc n) [] ys h = absurd (omega arith)
  take_append (suc n) (x ∷ xs) ys h = ap (λ l. x ∷ l) (take_append n xs ys (omega arith))

  pub drop_append : (n : ℕ) (xs ys : List A) → n ≤ length xs → drop n (xs ++ ys) ≡ drop n xs ++ ys
  drop_append zero xs ys h = refl
  drop_append (suc n) [] ys h = absurd (omega arith)
  drop_append (suc n) (x ∷ xs) ys h = drop_append n xs ys (omega arith)

  -- `n` elements from offset `i`.
  abbrev pub slice : ℕ → ℕ → List A → List A
  slice i n xs = take n (drop i xs)

  -- Copies `src` over the elements of `dst` from offset `i`; what would fall past the end is lost.
  abbrev pub write_at : ℕ → List A → List A → List A
  write_at i src [] = []
  write_at zero [] (d ∷ dst) = d ∷ dst
  write_at zero (s ∷ src) (d ∷ dst) = s ∷ write_at zero src dst
  write_at (suc i) src (d ∷ dst) = d ∷ write_at i src dst

  pub length-write_at : (i : ℕ) (src dst : List A) → length (write_at i src dst) ≡ length dst
  length-write_at i src [] = refl
  length-write_at zero [] (d ∷ dst) = refl
  length-write_at zero (s ∷ src) (d ∷ dst) = ap suc (length-write_at zero src dst)
  length-write_at (suc i) src (d ∷ dst) = ap suc (length-write_at i src dst)

  -- What lies before the written region keeps its value.
  pub slice-write_at_before :
      (i n k : ℕ) (src dst : List A) → i + n ≤ k → slice i n (write_at k src dst) ≡ slice i n dst
  slice-write_at_before i n k src [] h = refl
  slice-write_at_before zero zero k src (d ∷ dst) h = refl
  slice-write_at_before zero (suc n) zero src (d ∷ dst) h = absurd (omega arith)
  slice-write_at_before zero (suc n) (suc k) src (d ∷ dst) h =
      ap (λ l. d ∷ l) (slice-write_at_before zero n k src dst (omega arith))
  slice-write_at_before (suc i) n zero src (d ∷ dst) h = absurd (omega arith)
  slice-write_at_before (suc i) n (suc k) src (d ∷ dst) h =
      slice-write_at_before i n k src dst (omega arith)

  -- A write that fits is read back.
  pub slice-write_at_self :
      (i : ℕ) (src dst : List A)
      → i + length src ≤ length dst
      → slice i (length src) (write_at i src dst) ≡ src
  slice-write_at_self zero [] [] h = refl
  slice-write_at_self (suc i) [] [] h = refl
  slice-write_at_self zero (s ∷ src) [] h = absurd (omega arith)
  slice-write_at_self (suc i) (s ∷ src) [] h = absurd (omega arith)
  slice-write_at_self zero [] (d ∷ dst) h = refl
  slice-write_at_self zero (s ∷ src) (d ∷ dst) h =
      ap (λ l. s ∷ l) (slice-write_at_self zero src dst (omega arith))
  slice-write_at_self (suc i) src (d ∷ dst) h = slice-write_at_self i src dst (omega arith)

  pub take-nil : (n : ℕ) → take n [] ≡ []
  take-nil zero = refl
  take-nil (suc n) = refl

  pub take_add : (m n : ℕ) (xs : List A) → take (m + n) xs ≡ take m xs ++ take n (drop m xs)
  take_add zero n xs = rw add.zero
  take_add (suc m) zero [] = rw add.suc
  take_add (suc m) (suc n) [] = rw add.suc
  take_add (suc m) n (x ∷ xs) = rw add.suc (ap (λ l. x ∷ l) (take_add m n xs))

  pub drop_add : (i m : ℕ) (xs : List A) → drop (i + m) xs ≡ drop m (drop i xs)
  drop_add zero m xs = rw add.zero
  drop_add (suc i) zero [] = rw add.suc
  drop_add (suc i) (suc m) [] = rw add.suc
  drop_add (suc i) m (x ∷ xs) = rw add.suc (drop_add i m xs)

  -- Two regions side by side.
  pub slice_add :
      (i m n : ℕ) (xs : List A) → slice i (m + n) xs ≡ slice i m xs ++ slice (i + m) n xs
  slice_add i m n xs = rw (drop_add i m xs) (take_add m n (drop i xs))

  pub length-slice : (i n : ℕ) (xs : List A) → i + n ≤ length xs → length (slice i n xs) ≡ n
  length-slice i n xs h = omega (arith, length-take n (drop i xs), length-drop i xs)

  -- A region of a region.
  pub slice-slice : (i n m : ℕ) (xs : List A) → m ≤ n → take m (slice i n xs) ≡ slice i m xs
  slice-slice i n m xs h = take_take m n (drop i xs) h
    where
      take_take : (m n : ℕ) (ys : List A) → m ≤ n → take m (take n ys) ≡ take m ys
      take_take zero n ys h = refl
      take_take (suc m) zero ys h = absurd (omega arith)
      take_take (suc m) (suc n) [] h = refl
      take_take (suc m) (suc n) (y ∷ ys) h = ap (λ l. y ∷ l) (take_take m n ys (omega arith))

  pub take_all : (n : ℕ) (xs : List A) → length xs ≤ n → take n xs ≡ xs
  take_all zero [] h = refl
  take_all zero (x ∷ xs) h = absurd (omega arith)
  take_all (suc n) [] h = refl
  take_all (suc n) (x ∷ xs) h = ap (λ l. x ∷ l) (take_all n xs (omega arith))

  pub drop-take : (k n : ℕ) (xs : List A) → drop k (take n xs) ≡ take (n - k) (drop k xs)
  drop-take zero n xs = ap (λ j. take j xs) {x = n} {y = n - 0} (omega arith)
  drop-take (suc k) zero xs =
      ap (λ j. take j (drop (suc k) xs)) {x = 0} {y = 0 - suc k} (omega arith)
  drop-take (suc k) (suc n) [] = sym (take-nil (suc n - suc k))
  drop-take (suc k) (suc n) (x ∷ xs) =
      drop-take k n xs ∙ ap (λ j. take j (drop k xs)) {x = n - k} {y = suc n - suc k} (omega arith)

  pub write_at-nil : (xs : List A) → write_at 0 [] xs ≡ xs
  write_at-nil [] = refl
  write_at-nil (x ∷ xs) = refl

  pub write_at-append :
      (xs ys zs : List A) → write_at (length xs) ys (xs ++ zs) ≡ xs ++ write_at 0 ys zs
  write_at-append [] ys zs = refl
  write_at-append (x ∷ xs) ys zs = ap (λ l. x ∷ l) (write_at-append xs ys zs)

  pub append-injective :
      (xs xs' ys ys' : List A)
      → xs ++ ys ≡ xs' ++ ys'
      → length xs ≡ length xs'
      → (xs ≡ xs') × (ys ≡ ys')
  append-injective [] [] ys ys' e l = (refl, e)
  append-injective [] (x ∷ xs') ys ys' e l = absurd (omega arith)
  append-injective (x ∷ xs) [] ys ys' e l = absurd (omega arith)
  append-injective (x ∷ xs) (x' ∷ xs') ys ys' e l =
      let (p, q) = append-injective xs xs' ys ys' (cc) (omega arith) in (cc, q)

  pub List-cases : (xs : List A) → (xs ≡ []) ⊎ ((x : A) × (r : List A) × (xs ≡ x ∷ r))
  List-cases [] = inl refl
  List-cases (x ∷ xs) = inr (x, xs, refl)
