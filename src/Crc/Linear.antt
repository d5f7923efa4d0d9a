-- ===== src/Crc/Linear.antt =====
-- The serial register is linear over `^`, and loses nothing.
use libltntstools.Base.{
  ℕ, zero, suc, ◌+◌, ◌*◌, ◌/◌, ◌%◌, ◌^◌, ◌<◌, ◌≡◌, refl, sym, ap, ap₂, ◌∙◌, u32, ltb, if◌then◌else◌,
  bit_xor, arith,
}
use native.Mathlib.Nat.{one-le-pow}
use libltntstools.Base.Bits.{double_pow}
use libltntstools.Base.Xor.{
  bit_xor_split, bit_xor-lt, bit_xor_low, bit_xor_swap, bit_xor_self, bit_xor-zero, bit_xor_assoc,
  zero-bit_xor, bit_xor-shift,
}
use libltntstools.Crc.Serial.{shift_bit, shift_bits}

pub shift_bit-lt : (x : ℕ) → x < 2 ^ 32 → shift_bit x < 2 ^ 32
unfolding shift_bit
shift_bit-lt x h =
    ground (arith, bit_xor-lt 32 (x * 2 % 2 ^ 32) 0x04c11db7 (omega arith) (omega arith))

pub shift_bits-lt : (n x : ℕ) → x < 2 ^ 32 → shift_bits n x < 2 ^ 32
unfolding shift_bits
shift_bits-lt zero x h = h
shift_bits-lt (suc n) x h = shift_bits-lt n (shift_bit x) (shift_bit-lt x h)

pub eq_of_xor : (x y : ℕ) → bit_xor x y ≡ 0 → x ≡ y
eq_of_xor x y e =
    sym (bit_xor-zero x)
    ∙ ap (bit_xor x) (sym (bit_xor_self y))
    ∙ sym (bit_xor_assoc x y y)
    ∙ ap (λ t. bit_xor t y) e
    ∙ zero-bit_xor y

-- The register doubled, without its top bit.
doubled : (x y : ℕ) → bit_xor x y * 2 % 2 ^ 32 ≡ bit_xor (x * 2 % 2 ^ 32) (y * 2 % 2 ^ 32)
doubled x y = omega (
  arith,
  bit_xor-shift 1 x y,
  bit_xor_split 32 (x * 2) (y * 2),
  bit_xor-lt 32 (x * 2 % 2 ^ 32) (y * 2 % 2 ^ 32) (omega arith) (omega arith),
)

-- What a step takes away.
taken : ℕ → ℕ
taken x = if ltb x (2 ^ 31) then 0 else 0x04c11db7

shift_bit_parts : (x : ℕ) → shift_bit x ≡ bit_xor (u32 (x * 2)) (taken x)
unfolding shift_bit taken
shift_bit_parts x = ground (arith, bit_xor-zero (x * 2))

top_bit : (x y : ℕ) → x < 2 ^ 32 → y < 2 ^ 32 → bit_xor x y / 2 ^ 31 ≡ (x / 2 ^ 31 + y / 2 ^ 31) % 2
top_bit x y h k = ground (
  arith,
  bit_xor_split 31 x y,
  bit_xor-lt 31 (x % 2 ^ 31) (y % 2 ^ 31) (omega arith) (omega arith),
  bit_xor_low (x / 2 ^ 31) (y / 2 ^ 31),
  bit_xor-lt 0 (x / 2 ^ 31 / 2) (y / 2 ^ 31 / 2) (omega arith) (omega arith),
)

taken_linear :
    (x y : ℕ) → x < 2 ^ 32 → y < 2 ^ 32 → taken (bit_xor x y) ≡ bit_xor (taken x) (taken y)
unfolding taken
taken_linear x y h k = ground (arith, top_bit x y h k)

pub shift_bit_linear :
    (x y : ℕ)
    → x < 2 ^ 32
    → y < 2 ^ 32
    → shift_bit (bit_xor x y) ≡ bit_xor (shift_bit x) (shift_bit y)
shift_bit_linear x y h k =
    shift_bit_parts (bit_xor x y)
    ∙ ap₂ bit_xor (doubled x y) (taken_linear x y h k)
    ∙ bit_xor_swap (u32 (x * 2)) (u32 (y * 2)) (taken x) (taken y)
    ∙ sym (ap₂ bit_xor (shift_bit_parts x) (shift_bit_parts y))

pub shift_bits_linear :
    (n x y : ℕ)
    → x < 2 ^ 32
    → y < 2 ^ 32
    → shift_bits n (bit_xor x y) ≡ bit_xor (shift_bits n x) (shift_bits n y)
unfolding shift_bits
shift_bits_linear zero x y h k = refl
shift_bits_linear (suc n) x y h k =
    ap (shift_bits n) (shift_bit_linear x y h k)
    ∙ shift_bits_linear n (shift_bit x) (shift_bit y) (shift_bit-lt x h) (shift_bit-lt y k)

shift_bit_low : (x : ℕ) → x < 2 ^ 31 → shift_bit x ≡ x * 2
unfolding shift_bit
shift_bit_low x h = ground arith

-- Bits below the top shift up unchanged.
pub shift_bits_low : (n x : ℕ) → x * 2 ^ n < 2 ^ 32 → shift_bits n x ≡ x * 2 ^ n
unfolding shift_bits
shift_bits_low zero x h = omega arith
shift_bits_low (suc n) x h =
    ap (shift_bits n) (shift_bit_low x (grind (arith, double_pow x n, one-le-pow n 2)))
    ∙ shift_bits_low n (x * 2)
        (omega (arith, double_pow x n, ap (λ (t : ℕ). t * 2) {x = x * 2 ^ n} refl))
    ∙ omega (arith, double_pow x n)

shift_bit_zero : (x : ℕ) → x < 2 ^ 32 → shift_bit x ≡ 0 → x ≡ 0
unfolding shift_bit
shift_bit_zero x h e = ground (arith, bit_xor_low (u32 (x * 2)) 0x04c11db7)

pub shift_bits_zero : (n x : ℕ) → x < 2 ^ 32 → shift_bits n x ≡ 0 → x ≡ 0
unfolding shift_bits
shift_bits_zero zero x h e = e
shift_bits_zero (suc n) x h e =
    shift_bit_zero x h (shift_bits_zero n (shift_bit x) (shift_bit-lt x h) e)

-- Equal registers after the same number of steps were equal before.
pub shift_bits_injective :
    (n x y : ℕ) → x < 2 ^ 32 → y < 2 ^ 32 → shift_bits n x ≡ shift_bits n y → x ≡ y
shift_bits_injective n x y h k e = eq_of_xor x y (
    shift_bits_zero n (bit_xor x y) (bit_xor-lt 32 x y h k) (
      shift_bits_linear n x y h k
      ∙ ap (λ t. bit_xor t (shift_bits n y)) e
      ∙ bit_xor_self (shift_bits n y)))
