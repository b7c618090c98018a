-- ===== src/Common/Bits.antt =====
-- Tests at every number below a bound, and exclusive or.
use Prim.Native.Nat.{
  ℕ, zero, suc, ◌+◌, ◌*◌, ◌/◌, ◌%◌, ◌≤◌, ◌<◌, bit_xor, digits, differ, bit_xor-bitwise,
}
use mathlib.Core.Path.{◌≡◌, refl, ◌∙◌}
use mathlib.Core.Bool.{Bool, true, ◌&&◌}
use native.Mathlib.Omega.{arith}

abbrev pub below : ℕ → (ℕ → Bool) → Bool
below zero p = true
below (suc n) p = p n && below n p

pub below_lem : (n : ℕ) (p : ℕ → Bool) (x : ℕ) → below n p ≡ true → x < n → p x ≡ true
below_lem zero p x h lt = absurd (omega arith)
below_lem (suc n) p x h lt = ground (arith, below_lem n p x)

abbrev xor_digits : ℕ → ℕ → ℕ → ℕ
xor_digits fuel x y = digits (λ k. k) differ fuel x y

-- Any fuel from the first number on gives the same.
more_fuel : (f g x y : ℕ) → x ≤ f → x ≤ g → xor_digits f x y ≡ xor_digits g x y
more_fuel (suc f) (suc g) (suc x) y le le' =
    omega (arith, more_fuel f g (suc x / 2) (y / 2) (omega arith) (omega arith))
more_fuel (suc f) (suc g) zero y le le' = refl
more_fuel (suc f) zero zero y le le' = refl
more_fuel zero (suc g) zero y le le' = refl
more_fuel zero zero zero y le le' = refl
more_fuel zero g (suc x) y le le' = absurd (omega arith)
more_fuel (suc f) zero (suc x) y le le' = absurd (omega arith)

differ_bits : (p q : ℕ) → p < 2 → q < 2 → (differ p q < 2) × (differ (differ p q) q ≡ p)
differ_bits zero zero h k = omega arith
differ_bits zero (suc zero) h k = omega arith
differ_bits (suc zero) zero h k = omega arith
differ_bits (suc zero) (suc zero) h k = omega arith
differ_bits zero (suc (suc q)) h k = absurd (omega arith)
differ_bits (suc zero) (suc (suc q)) h k = absurd (omega arith)
differ_bits (suc (suc p)) q h k = absurd (omega arith)

differ_zero : (q : ℕ) → q < 2 → differ 0 q ≡ q
differ_zero zero h = refl
differ_zero (suc q) h = refl

bit_xor_step : (a b : ℕ) → bit_xor a b ≡ bit_xor (a / 2) (b / 2) * 2 + differ (a % 2) (b % 2)
bit_xor_step zero b =
    omega (arith, bit_xor-bitwise 0 b, bit_xor-bitwise 0 (b / 2), differ_zero (b % 2) (omega arith))
bit_xor_step (suc a) b = omega (
  arith,
  bit_xor-bitwise (suc a) b,
  bit_xor-bitwise (suc a / 2) (b / 2),
  more_fuel a (suc a / 2) (suc a / 2) (b / 2) (omega arith) (omega arith),
)

bit_xor_twice : (n a b : ℕ) → a + b ≤ n → bit_xor (bit_xor a b) b ≡ a
bit_xor_twice zero zero zero h = refl
bit_xor_twice zero (suc a) b h = absurd (omega arith)
bit_xor_twice zero zero (suc b) h = absurd (omega arith)
bit_xor_twice (suc n) a b h =
    let (lt, back) = differ_bits (a % 2) (b % 2) (omega arith) (omega arith) in
    let half : bit_xor a b / 2 ≡ bit_xor (a / 2) (b / 2) = omega (arith, bit_xor_step a b) in
    let low : bit_xor a b % 2 ≡ differ (a % 2) (b % 2) = omega (arith, bit_xor_step a b) in
    bit_xor_step (bit_xor a b) b
    ∙ rw (half, low, back, bit_xor_twice n (a / 2) (b / 2) (omega arith)) (omega arith)

pub bit_xor-bit_xor : (a b : ℕ) → bit_xor (bit_xor a b) b ≡ a
bit_xor-bit_xor a b = bit_xor_twice (a + b) a b (omega arith)
