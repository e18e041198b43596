-- ===== src/Wire/Bits.antt =====
-- What `|` and `^` of two numbers say of them when the result is zero.
use Prim.Native.Nat.{digits, bitwise, differ, bit_or-bitwise, bit_xor-bitwise}
use native.Mathlib.Nat.{le_refl}
use undergroundbb.Base.{
  ℕ, zero, suc, ◌+◌, ◌*◌, ◌/◌, ◌%◌, ◌≤◌, max, bit_or, bit_xor, ◌≡◌, refl, arith,
}

module _ (z : ℕ → ℕ) (f : ℕ → ℕ → ℕ) where
  fuel_irrelevant : (n m a b : ℕ) → a ≤ n → a ≤ m → digits z f n a b ≡ digits z f m a b
  fuel_irrelevant zero zero a b p q = refl
  fuel_irrelevant zero (suc m) zero b p q = refl
  fuel_irrelevant zero (suc m) (suc a) b p q = absurd (omega arith)
  fuel_irrelevant (suc n) zero zero b p q = refl
  fuel_irrelevant (suc n) zero (suc a) b p q = absurd (omega arith)
  fuel_irrelevant (suc n) (suc m) zero b p q = refl
  fuel_irrelevant (suc n) (suc m) (suc a) b p q =
      rw (fuel_irrelevant n m (suc a / 2) (b / 2) (omega arith) (omega arith))

  lowest_digit :
      (a b : ℕ)
      → bitwise z f (suc a) b ≡ bitwise z f (suc a / 2) (b / 2) * 2 + f (suc a % 2) (b % 2)
  lowest_digit a b =
      omega (arith, fuel_irrelevant a (suc a / 2) (suc a / 2) (b / 2) (omega arith) (le_refl _))

bit_or_digit : (a b : ℕ) → bit_or a b ≡ bit_or (a / 2) (b / 2) * 2 + max (a % 2) (b % 2)
bit_or_digit zero b = simp bit_or-bitwise (omega arith)
bit_or_digit (suc a) b = simp bit_or-bitwise (lowest_digit (λ y. y) max a b)

differ_of_zero : (b : ℕ) → differ 0 b ≡ b
differ_of_zero b = refl

bit_xor_digit : (a b : ℕ) → bit_xor a b ≡ bit_xor (a / 2) (b / 2) * 2 + differ (a % 2) (b % 2)
bit_xor_digit zero b = simp bit_xor-bitwise (omega arith)
bit_xor_digit (suc a) b = simp bit_xor-bitwise (lowest_digit (λ y. y) differ a b)

differ-eq-zero : (x y : ℕ) → differ x y ≡ 0 → x ≡ y
differ-eq-zero zero y h = omega arith
differ-eq-zero (suc x) zero h = omega arith
differ-eq-zero (suc x) (suc y) h = omega (arith, differ-eq-zero x y h)

differ_self : (x : ℕ) → differ x x ≡ 0
differ_self zero = refl
differ_self (suc x) = differ_self x

xor-eq-zero_fuel : (n a b : ℕ) → a ≤ n → b ≤ n → bit_xor a b ≡ 0 → a ≡ b
xor-eq-zero_fuel zero a b p q h = omega arith
xor-eq-zero_fuel (suc n) a b p q h = omega (
  arith,
  bit_xor_digit a b,
  xor-eq-zero_fuel n (a / 2) (b / 2) (omega arith) (omega arith) (omega (arith, bit_xor_digit a b)),
  differ-eq-zero (a % 2) (b % 2) (omega (arith, bit_xor_digit a b)),
)

pub bit_xor-eq-zero : (a b : ℕ) → bit_xor a b ≡ 0 → a ≡ b
bit_xor-eq-zero a b h = xor-eq-zero_fuel (a + b) a b (omega arith) (omega arith) h

xor_self_fuel : (n a : ℕ) → a ≤ n → bit_xor a a ≡ 0
xor_self_fuel zero zero p = refl
xor_self_fuel zero (suc a) p = absurd (omega arith)
xor_self_fuel (suc n) zero p = refl
xor_self_fuel (suc n) (suc a) p = omega (
  arith,
  bit_xor_digit (suc a) (suc a),
  xor_self_fuel n (suc a / 2) (omega arith),
  differ_self (suc a % 2),
)

pub bit_xor_self : (a : ℕ) → bit_xor a a ≡ 0
bit_xor_self a = xor_self_fuel a a (le_refl a)

or-eq-zero_fuel : (n a b : ℕ) → a ≤ n → b ≤ n → bit_or a b ≡ 0 → (a ≡ 0) × (b ≡ 0)
or-eq-zero_fuel zero a b p q h = omega arith
or-eq-zero_fuel (suc n) a b p q h = omega (
  arith,
  bit_or_digit a b,
  or-eq-zero_fuel n (a / 2) (b / 2) (omega arith) (omega arith) (omega (arith, bit_or_digit a b)),
)

pub bit_or-eq-zero : (a b : ℕ) → bit_or a b ≡ 0 → (a ≡ 0) × (b ≡ 0)
bit_or-eq-zero a b h = or-eq-zero_fuel (a + b) a b (omega arith) (omega arith) h
