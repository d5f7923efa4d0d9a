-- ===== src/Base/Xor.antt =====
-- Bitwise `^` of numbers: its laws, and its bound.
use Prim.Native.Nat.{
  ℕ, zero, suc, ◌+◌, ◌*◌, ◌/◌, ◌%◌, ◌^◌, ◌≤◌, ◌<◌, bit_xor, bit_xor-bitwise, differ,
}
use mathlib.Core.Path.{◌≡◌, refl, sym, ap, ap₂, ◌∙◌}
use native.Mathlib.Nat.{pow-suc, one-le-pow}
use native.Mathlib.Omega.{arith}
use libltntstools.Base.Bits.{bitwise_low, double_pow}

differ_parity : (x y : ℕ) → x < 2 → y < 2 → differ x y ≡ (x + y) % 2
differ_parity zero y h k = omega arith
differ_parity (suc zero) zero h k = refl
differ_parity (suc zero) (suc zero) h k = refl
differ_parity (suc zero) (suc (suc y)) h k = absurd (omega arith)
differ_parity (suc (suc x)) y h k = absurd (omega arith)

pub bit_xor_low : (a b : ℕ) → bit_xor a b ≡ bit_xor (a / 2) (b / 2) * 2 + (a + b) % 2
bit_xor_low zero b = simp bit_xor-bitwise (omega arith)
bit_xor_low (suc a) b = simp bit_xor-bitwise (
    omega (
      arith,
      bitwise_low (λ y. y) differ a b,
      differ_parity (suc a % 2) (b % 2) (omega arith) (omega arith),
    ))

pub bit_xor_zero : (n a : ℕ) → a ≤ n → bit_xor a 0 ≡ a
bit_xor_zero n zero h = refl
bit_xor_zero zero (suc a) h = absurd (omega arith)
bit_xor_zero (suc n) (suc a) h =
    omega (arith, bit_xor_low (suc a) 0, bit_xor_zero n (suc a / 2) (omega arith))

xor_self_below : (n a : ℕ) → a ≤ n → bit_xor a a ≡ 0
xor_self_below n zero h = refl
xor_self_below zero (suc a) h = absurd (omega arith)
xor_self_below (suc n) (suc a) h =
    omega (arith, bit_xor_low (suc a) (suc a), xor_self_below n (suc a / 2) (omega arith))

pub zero-bit_xor : (b : ℕ) → bit_xor 0 b ≡ b
zero-bit_xor b = bit_xor-bitwise 0 b

pub bit_xor-zero : (a : ℕ) → bit_xor a 0 ≡ a
bit_xor-zero a = bit_xor_zero a a (omega arith)

pub bit_xor_self : (a : ℕ) → bit_xor a a ≡ 0
bit_xor_self a = xor_self_below a a (omega arith)

pub bit_xor-lt : (k a b : ℕ) → a < 2 ^ k → b < 2 ^ k → bit_xor a b < 2 ^ k
bit_xor-lt zero a b h g = rw (zero_of a h, zero_of b g) (omega arith)
  where
    zero_of : (x : ℕ) → x < 2 ^ 0 → x ≡ 0
    zero_of x p = omega arith
bit_xor-lt (suc k) a b h g = omega (
  arith,
  pow-suc 2 k,
  bit_xor_low a b,
  bit_xor-lt k (a / 2) (b / 2) (omega (arith, pow-suc 2 k)) (omega (arith, pow-suc 2 k)),
)

pub half-bit_xor : (a b : ℕ) → bit_xor a b / 2 ≡ bit_xor (a / 2) (b / 2)
half-bit_xor a b = omega (arith, bit_xor_low a b)

xor_comm_below : (n a b : ℕ) → a ≤ n → b ≤ n → bit_xor a b ≡ bit_xor b a
xor_comm_below zero zero zero h g = refl
xor_comm_below zero zero (suc b) h g = absurd (omega arith)
xor_comm_below zero (suc a) b h g = absurd (omega arith)
xor_comm_below (suc n) a b h g = omega (
  arith,
  bit_xor_low a b,
  bit_xor_low b a,
  xor_comm_below n (a / 2) (b / 2) (omega arith) (omega arith),
)

pub bit_xor_comm : (a b : ℕ) → bit_xor a b ≡ bit_xor b a
bit_xor_comm a b = xor_comm_below (a + b) a b (omega arith) (omega arith)

xor_assoc_below :
    (n a b c : ℕ) → a ≤ n → b ≤ n → c ≤ n → bit_xor (bit_xor a b) c ≡ bit_xor a (bit_xor b c)
xor_assoc_below zero zero zero zero h g l = refl
xor_assoc_below zero zero zero (suc c) h g l = absurd (omega arith)
xor_assoc_below zero zero (suc b) c h g l = absurd (omega arith)
xor_assoc_below zero (suc a) b c h g l = absurd (omega arith)
xor_assoc_below (suc n) a b c h g l = omega (
  arith,
  bit_xor_low (bit_xor a b) c,
  bit_xor_low a (bit_xor b c),
  bit_xor_low a b,
  bit_xor_low b c,
  ap (λ t. bit_xor t (c / 2)) (half-bit_xor a b),
  ap (λ t. bit_xor (a / 2) t) (half-bit_xor b c),
  xor_assoc_below n (a / 2) (b / 2) (c / 2) (omega arith) (omega arith) (omega arith),
)

pub bit_xor_assoc : (a b c : ℕ) → bit_xor (bit_xor a b) c ≡ bit_xor a (bit_xor b c)
bit_xor_assoc a b c = xor_assoc_below (a + b + c) a b c (omega arith) (omega arith) (omega arith)

xor_both : (a a' b b' : ℕ) → a ≡ a' → b ≡ b' → bit_xor a b ≡ bit_xor a' b'
xor_both a a' b b' p q = ap₂ bit_xor p q

-- A shift to the left goes over both sides.
pub bit_xor-shift : (k a b : ℕ) → bit_xor (a * 2 ^ k) (b * 2 ^ k) ≡ bit_xor a b * 2 ^ k
bit_xor-shift zero a b =
    xor_both (a * 2 ^ 0) a (b * 2 ^ 0) b (omega arith) (omega arith) ∙ omega arith
bit_xor-shift (suc k) a b =
    ap₂ bit_xor (double_pow a k) (double_pow b k)
    ∙ omega (
      arith,
      bit_xor_low (2 * (a * 2 ^ k)) (2 * (b * 2 ^ k)),
      xor_both (2 * (a * 2 ^ k) / 2) (a * 2 ^ k) (2 * (b * 2 ^ k) / 2) (b * 2 ^ k) (omega arith)
          (omega arith),
      bit_xor-shift k a b,
      double_pow (bit_xor a b) k,
    )

-- Values in separate bits join to their sum.
pub bit_xor_sum : (k q r : ℕ) → r < 2 ^ k → bit_xor (q * 2 ^ k) r ≡ q * 2 ^ k + r
bit_xor_sum zero q r h = ground (arith, bit_xor-zero q)
bit_xor_sum (suc k) q r h = ground (
  arith,
  double_pow q k,
  bit_xor_low (q * 2 ^ suc k) r,
  bit_xor_sum k q (r / 2) (omega (arith, pow-suc 2 k)),
)

pub bit_xor_swap :
    (a b c d : ℕ) → bit_xor (bit_xor a b) (bit_xor c d) ≡ bit_xor (bit_xor a c) (bit_xor b d)
bit_xor_swap a b c d =
    bit_xor_assoc a b (bit_xor c d)
    ∙ ap (bit_xor a)
        (sym (bit_xor_assoc b c d) ∙ ap (λ t. bit_xor t d) (bit_xor_comm b c) ∙ bit_xor_assoc c b d)
    ∙ sym (bit_xor_assoc a c (bit_xor b d))

-- The high bits and the low bits of both sides are joined apart.
pub bit_xor_split :
    (k a b : ℕ)
    → bit_xor a b ≡ bit_xor (a / 2 ^ k) (b / 2 ^ k) * 2 ^ k + bit_xor (a % 2 ^ k) (b % 2 ^ k)
bit_xor_split k a b =
    xor_both a (bit_xor (a / 2 ^ k * 2 ^ k) (a % 2 ^ k)) b (bit_xor (b / 2 ^ k * 2 ^ k) (b % 2 ^ k))
      (parts a) (parts b)
    ∙ bit_xor_swap (a / 2 ^ k * 2 ^ k) (a % 2 ^ k) (b / 2 ^ k * 2 ^ k) (b % 2 ^ k)
    ∙ ap (λ t. bit_xor t (bit_xor (a % 2 ^ k) (b % 2 ^ k)))
        (bit_xor-shift k (a / 2 ^ k) (b / 2 ^ k))
    ∙ bit_xor_sum k (bit_xor (a / 2 ^ k) (b / 2 ^ k)) (bit_xor (a % 2 ^ k) (b % 2 ^ k))
        (bit_xor-lt k (a % 2 ^ k) (b % 2 ^ k) (low a) (low b))
  where
    low : (x : ℕ) → x % 2 ^ k < 2 ^ k
    low x = omega (arith, one-le-pow k 2)

    parts : (x : ℕ) → x ≡ bit_xor (x / 2 ^ k * 2 ^ k) (x % 2 ^ k)
    parts x = ground (arith, one-le-pow k 2, bit_xor_sum k (x / 2 ^ k) (x % 2 ^ k) (low x))
