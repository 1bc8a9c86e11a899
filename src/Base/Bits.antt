-- ===== src/Base/Bits.antt =====
-- Bit operations on two odd words, by the digit recursion that the native operations stand for.
use Prim.Native.Nat.{
  ℕ, zero, suc, ◌+◌, ◌*◌, ◌/◌, ◌%◌, ◌^◌, ◌≤◌, ◌<◌, min, max, bit_and, bit_or, bit_xor, digits,
  bitwise, bit_and-bitwise, bit_or-bitwise, bit_xor-bitwise, differ,
}
use mathlib.Core.Path.{◌≡◌, refl, ◌∙◌, ap}
use native.Mathlib.Nat.{pow-suc}
use native.Mathlib.Omega.{arith}

module _ (rest : ℕ → ℕ) (bit : ℕ → ℕ → ℕ) where
  -- Fuel beyond the first number changes nothing.
  surplus : (x y a b : ℕ) → a ≤ x → a ≤ y → digits rest bit x a b ≡ digits rest bit y a b
  surplus zero zero a b p q = refl
  surplus zero (suc y) zero b p q = refl
  surplus zero (suc y) (suc a) b p q = absurd (omega arith)
  surplus (suc x) zero zero b p q = refl
  surplus (suc x) zero (suc a) b p q = absurd (omega arith)
  surplus (suc x) (suc y) zero b p q = refl
  surplus (suc x) (suc y) (suc a) b p q =
      let half = surplus x y (suc a / 2) (b / 2) (omega arith) (omega arith) in
      ap (λ (t : ℕ). t * 2 + bit (suc a % 2) (b % 2)) half

  lowest_digit :
      (a b : ℕ)
      → bitwise rest bit (suc a) b
        ≡ bitwise rest bit (suc a / 2) (b / 2) * 2 + bit (suc a % 2) (b % 2)
  lowest_digit a b =
      ap (λ (t : ℕ). t * 2 + bit (suc a % 2) (b % 2))
        (surplus a (suc a / 2) (suc a / 2) (b / 2) (omega arith) (omega arith))

odd_suc : (a : ℕ) → 2 * a + 1 ≡ suc (2 * a)
odd_suc a = omega arith

-- The bits above the lowest of two odd numbers are those of their halves.
odd_digits :
    (rest : ℕ → ℕ) (bit : ℕ → ℕ → ℕ) (a b : ℕ)
    → bitwise rest bit (2 * a + 1) (2 * b + 1) ≡ bitwise rest bit a b * 2 + bit 1 1
odd_digits rest bit a b =
    let half_a : suc (2 * a) / 2 ≡ a = omega arith in
    let half_b : (2 * b + 1) / 2 ≡ b = omega arith in
    let low_a : suc (2 * a) % 2 ≡ 1 = omega arith in
    let low_b : (2 * b + 1) % 2 ≡ 1 = omega arith in
    rw (odd_suc a)
      (lowest_digit rest bit (2 * a) (2 * b + 1) ∙ rw (half_a, half_b, low_a, low_b) refl)

pub bit_and-odd : (a b : ℕ) → bit_and (2 * a + 1) (2 * b + 1) ≡ 2 * bit_and a b + 1
bit_and-odd a b = omega (
  arith,
  odd_digits (λ y. 0) min a b,
  bit_and-bitwise (2 * a + 1) (2 * b + 1),
  bit_and-bitwise a b,
)

pub bit_or-odd : (a b : ℕ) → bit_or (2 * a + 1) (2 * b + 1) ≡ 2 * bit_or a b + 1
bit_or-odd a b =
    omega (
      arith,
      odd_digits (λ y. y) max a b,
      bit_or-bitwise (2 * a + 1) (2 * b + 1),
      bit_or-bitwise a b,
    )

pub bit_xor-odd : (a b : ℕ) → bit_xor (2 * a + 1) (2 * b + 1) ≡ 2 * bit_xor a b
bit_xor-odd a b = omega (
  arith,
  odd_digits (λ y. y) differ a b,
  bit_xor-bitwise (2 * a + 1) (2 * b + 1),
  bit_xor-bitwise a b,
)

or_with_zero : (n a : ℕ) → a ≤ n → digits (λ y. y) max n a 0 ≡ a
or_with_zero zero zero h = refl
or_with_zero zero (suc a) h = absurd (omega arith)
or_with_zero (suc n) zero h = refl
or_with_zero (suc n) (suc a) h = omega (arith, or_with_zero n (suc a / 2) (omega arith))

and_with_zero : (n a : ℕ) → digits (λ y. 0) min n a 0 ≡ 0
and_with_zero zero a = refl
and_with_zero (suc n) zero = refl
and_with_zero (suc n) (suc a) = omega (arith, and_with_zero n (suc a / 2))

pub bit_or-one : (a : ℕ) → bit_or a 1 ≡ 2 * (a / 2) + 1
bit_or-one zero = refl
bit_or-one (suc a) = omega (
  arith,
  lowest_digit (λ y. y) max a 1,
  bit_or-bitwise (suc a) 1,
  or_with_zero (suc a / 2) (suc a / 2) (omega arith),
)

pub bit_and-one : (a : ℕ) → bit_and a 1 ≡ a % 2
bit_and-one zero = refl
bit_and-one (suc a) = omega (
  arith,
  lowest_digit (λ y. 0) min a 1,
  bit_and-bitwise (suc a) 1,
  and_with_zero (suc a / 2) (suc a / 2),
)

-- Two numbers of `k` binary digits give one of `k` digits.
module _ (rest : ℕ → ℕ) (bit : ℕ → ℕ → ℕ) (rest_le : (c : ℕ) → rest c ≤ c)
    (bit_le : (x y : ℕ) → x ≤ 1 → y ≤ 1 → bit x y ≤ 1) where
  digits-lt : (k n a b : ℕ) → a < 2 ^ k → b < 2 ^ k → digits rest bit n a b < 2 ^ k
  digits-lt k zero a b p q = omega (arith, rest_le b)
  digits-lt k (suc n) zero b p q = omega (arith, rest_le b)
  digits-lt zero (suc n) (suc a) b p q = absurd (omega arith)
  digits-lt (suc k) (suc n) (suc a) b p q =
      let double = pow-suc 2 k in
      let high = digits-lt k n (suc a / 2) (b / 2) (omega arith) (omega arith) in
      omega (arith, bit_le (suc a % 2) (b % 2) (omega arith) (omega arith))

differ-le : (x y : ℕ) → x ≤ 1 → y ≤ 1 → differ x y ≤ 1
differ-le zero y p q = q
differ-le (suc x) zero p q = p
differ-le (suc zero) (suc y) p q = omega arith
differ-le (suc (suc x)) (suc y) p q = absurd (omega arith)

pub bit_and-lt : (k a b : ℕ) → a < 2 ^ k → b < 2 ^ k → bit_and a b < 2 ^ k
bit_and-lt k a b p q =
    rw (bit_and-bitwise a b)
      (digits-lt (λ y. 0) min (λ c. omega arith) (λ x y h g. omega arith) k a a b p q)

pub bit_or-lt : (k a b : ℕ) → a < 2 ^ k → b < 2 ^ k → bit_or a b < 2 ^ k
bit_or-lt k a b p q =
    rw (bit_or-bitwise a b)
      (digits-lt (λ y. y) max (λ c. omega arith) (λ x y h g. omega arith) k a a b p q)

pub bit_xor-lt : (k a b : ℕ) → a < 2 ^ k → b < 2 ^ k → bit_xor a b < 2 ^ k
bit_xor-lt k a b p q =
    rw (bit_xor-bitwise a b) (digits-lt (λ y. y) differ (λ c. omega arith) differ-le k a a b p q)
