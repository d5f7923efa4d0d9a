-- ===== src/Base/Bits.antt =====
-- Bitwise `&` and `|` of numbers as arithmetic.
use Prim.Native.Nat.{ℕ, zero, suc, ◌+◌, ◌-◌, ◌*◌, ◌/◌, ◌%◌, ◌^◌, ◌≤◌, ◌<◌, min, max}
use Prim.Native.Nat.{bit_and, bit_or, digits, bitwise, bit_and-bitwise, bit_or-bitwise}
use mathlib.Core.Path.{◌≡◌, refl, ap, ◌∙◌}
use native.Mathlib.Nat.{le_refl, div-div-eq-div-mul, pow-suc, one-le-pow}
use native.Mathlib.Omega.{arith}

-- Enough fuel for the digits is any fuel.
module _ (z : ℕ → ℕ) (f : ℕ → ℕ → ℕ) where
  digits_any_fuel : (n m a b : ℕ) → a ≤ n → a ≤ m → digits z f n a b ≡ digits z f m a b
  digits_any_fuel zero zero a b p q = refl
  digits_any_fuel zero (suc m) zero b p q = refl
  digits_any_fuel zero (suc m) (suc a) b p q = absurd (omega arith)
  digits_any_fuel (suc n) zero zero b p q = refl
  digits_any_fuel (suc n) zero (suc a) b p q = absurd (omega arith)
  digits_any_fuel (suc n) (suc m) zero b p q = refl
  digits_any_fuel (suc n) (suc m) (suc a) b p q =
      rw (digits_any_fuel n m (suc a / 2) (b / 2) (omega arith) (omega arith))

  pub bitwise_low :
      (x y : ℕ)
      → bitwise z f (suc x) y ≡ bitwise z f (suc x / 2) (y / 2) * 2 + f (suc x % 2) (y % 2)
  bitwise_low x y =
      omega (arith, digits_any_fuel x (suc x / 2) (suc x / 2) (y / 2) (omega arith) (le_refl _))

pub bit_or_low : (a b : ℕ) → bit_or a b ≡ bit_or (a / 2) (b / 2) * 2 + max (a % 2) (b % 2)
bit_or_low zero b = simp bit_or-bitwise (omega arith)
bit_or_low (suc a) b = simp bit_or-bitwise (bitwise_low (λ y. y) max a b)

pub bit_and_low : (a b : ℕ) → bit_and a b ≡ bit_and (a / 2) (b / 2) * 2 + min (a % 2) (b % 2)
bit_and_low zero b = simp bit_and-bitwise (omega arith)
bit_and_low (suc a) b = simp bit_and-bitwise (bitwise_low (λ y. 0) min a b)

bit_or-zero_below : (n a : ℕ) → a ≤ n → bit_or a 0 ≡ a
bit_or-zero_below n zero h = refl
bit_or-zero_below zero (suc a) h = absurd (omega arith)
bit_or-zero_below (suc n) (suc a) h =
    omega (arith, bit_or_low (suc a) 0, bit_or-zero_below n (suc a / 2) (omega arith))

bit_and-zero_below : (n a : ℕ) → a ≤ n → bit_and a 0 ≡ 0
bit_and-zero_below n zero h = refl
bit_and-zero_below zero (suc a) h = absurd (omega arith)
bit_and-zero_below (suc n) (suc a) h =
    omega (arith, bit_and_low (suc a) 0, bit_and-zero_below n (suc a / 2) (omega arith))

pub bit_or-zero : (a : ℕ) → bit_or a 0 ≡ a
bit_or-zero a = bit_or-zero_below a a (le_refl a)

pub bit_and-zero : (a : ℕ) → bit_and a 0 ≡ 0
bit_and-zero a = bit_and-zero_below a a (le_refl a)

pub double_pow : (q k : ℕ) → q * 2 ^ suc k ≡ 2 * (q * 2 ^ k)
double_pow q k = omega (arith, ap (λ (t : ℕ). q * t) (pow-suc 2 k))

-- A shifted value and one that fits below it join to their sum.
pub bit_or_sum : (k q r : ℕ) → r < 2 ^ k → bit_or (q * 2 ^ k) r ≡ q * 2 ^ k + r
bit_or_sum zero q r fits = ground (arith, bit_or-zero q)
bit_or_sum (suc k) q r fits = ground (
  arith,
  pow-suc 2 k,
  double_pow q k,
  bit_or_low (q * 2 ^ suc k) r,
  bit_or_sum k q (r / 2) (omega (arith, pow-suc 2 k)),
)

mask_of_sum : (k q r : ℕ) → r < 2 ^ k → bit_and (q * 2 ^ k + r) (2 ^ k - 1) ≡ r
mask_of_sum zero q r fits = ground (arith, bit_and-zero (q * 1 + r))
mask_of_sum (suc k) q r fits = ground (
  arith,
  pow-suc 2 k,
  one-le-pow k 2,
  double_pow q k,
  bit_and_low (q * 2 ^ suc k + r) (2 ^ suc k - 1),
  mask_of_sum k q (r / 2) (omega (arith, pow-suc 2 k)),
)

-- A mask of `k` ones is the remainder by `2 ^ k`.
pub bit_and_mask : (k a : ℕ) → bit_and a (2 ^ k - 1) ≡ a % 2 ^ k
bit_and_mask k a = ground (arith, one-le-pow k 2, mask_of_sum k (a / 2 ^ k) (a % 2 ^ k))

-- A single bit taken out.
pub bit_and_bit : (k a : ℕ) → bit_and a (2 ^ k) ≡ a / 2 ^ k % 2 * 2 ^ k
bit_and_bit zero a = omega (arith, bit_and_low a 1, bit_and-zero (a / 2))
bit_and_bit (suc k) a = ground (
  arith,
  pow-suc 2 k,
  double_pow (a / 2 ^ suc k % 2) k,
  bit_and_low a (2 ^ suc k),
  bit_and_bit k (a / 2),
  half_div a k,
)
  where
    half_div : (x n : ℕ) → x / 2 / 2 ^ n ≡ x / 2 ^ suc n
    half_div x n = div-div-eq-div-mul x 2 (2 ^ n) ∙ ap (λ t. x / t) (omega (arith, pow-suc 2 n))
