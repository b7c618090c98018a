-- ===== src/Framing/Bytes.antt =====
-- include/tarantool_connector/detail/tntpp_iproto_framing.h: the bytes of a stream.
use Prim.Native.Nat.{bit_and}
use tntpp.Common.{
  ℕ, ◌^◌, ◌<◌, ◌≡◌, refl, sym, subst, ap, ◌∙◌, true, List, [], ◌∷◌, ◌++◌, append_assoc, arith, ltb,
  length, be_value, below, below_lem,
}

-- Each number is a byte.
abbrev pub AreBytes : List ℕ → Type 0
AreBytes [] = Unit
AreBytes (b ∷ bs) = (b < 256) × AreBytes bs

pub AreBytes-append : (xs ys : List ℕ) → AreBytes (xs ++ ys) → AreBytes xs × AreBytes ys
AreBytes-append [] ys h = (tt, h)
AreBytes-append (x ∷ xs) ys (p, h) = let (a, b) = AreBytes-append xs ys h in ((p, a), b)

-- One, two and four bytes.
pub be_value_one : (xs : List ℕ) → length xs ≡ 1 → AreBytes xs → be_value xs < 256
be_value_one [] e h = absurd (omega arith)
be_value_one (a ∷ []) e (p, _) = omega arith
be_value_one (a ∷ b ∷ xs) e h = absurd (omega arith)

pub be_value_two : (xs : List ℕ) → length xs ≡ 2 → AreBytes xs → be_value xs < 2 ^ 16
be_value_two [] e h = absurd (omega arith)
be_value_two (a ∷ []) e h = absurd (omega arith)
be_value_two (a ∷ b ∷ []) e (p, (q, _)) = omega arith
be_value_two (a ∷ b ∷ c ∷ xs) e h = absurd (omega arith)

pub be_value_four : (xs : List ℕ) → length xs ≡ 4 → AreBytes xs → be_value xs < 2 ^ 32
be_value_four [] e h = absurd (omega arith)
be_value_four (a ∷ []) e h = absurd (omega arith)
be_value_four (a ∷ b ∷ []) e h = absurd (omega arith)
be_value_four (a ∷ b ∷ c ∷ []) e h = absurd (omega arith)
be_value_four (a ∷ b ∷ c ∷ d ∷ []) e (p, (q, (r, (s, _)))) = omega arith
be_value_four (a ∷ b ∷ c ∷ d ∷ x ∷ xs) e h = absurd (omega arith)

low_table : below 256 (λ b. ltb (bit_and b 0b01111111) 128) ≡ true
low_table = refl

pub low_lt : (b : ℕ) → b < 256 → bit_and b 0b01111111 < 2 ^ 32
low_lt b h =
    let e = below_lem 256 (λ x. ltb (bit_and x 0b01111111) 128) b low_table h in ground arith

-- What is left of some bytes.
abbrev pub IsRest : List ℕ → List ℕ → Type 0
IsRest whole rest = AreBytes whole × (read : List ℕ) × (whole ≡ read ++ rest)

-- Some of it is read.
pub IsRest-append :
    (whole rest xs ys : List ℕ)
    → rest ≡ xs ++ ys
    → IsRest whole rest
    → AreBytes xs × IsRest whole ys
IsRest-append whole rest xs ys e (b, pre, q) =
    let all : whole ≡ pre ++ (xs ++ ys) = q ∙ ap (λ l. pre ++ l) e in
    let (_, c) = AreBytes-append pre (xs ++ ys) (subst AreBytes all b) in
    let (m, _) = AreBytes-append xs ys c in (m, (b, pre ++ xs, all ∙ sym (append_assoc pre xs ys)))
