-- ===== src/Crc/Detect.antt =====
-- What the check accepts: sections that end in their own CRC, and no others.
use libltntstools.Base.{
  ℕ, zero, suc, ◌+◌, ◌*◌, ◌^◌, ◌≤◌, ◌<◌, ◌≡◌, refl, sym, ap, ◌∙◌, bit_xor, true, some, List, [],
  ◌∷◌, ◌++◌, length, arith, length-append,
}
use mathlib.Core.Logic.{◌↔◌}
use libltntstools.Base.Byte.{IsBytes, append-IsBytes}
use libltntstools.Base.Xor.{bit_xor_sum, bit_xor-lt, bit_xor_assoc, bit_xor_self}
use libltntstools.Crc.{crc_loop, check_crc32, get_crc32}
use libltntstools.Crc.Serial.{shift_bit, shift_bits, serial_step, serial}
use libltntstools.Crc.Linear.{shift_bits_linear, shift_bits_low, shift_bits_zero, eq_of_xor}
use libltntstools.Crc.Equiv.{crc_loop-eq-serial, serial-lt}

serial-append : (crc : ℕ) (xs ys : List ℕ) → serial crc (xs ++ ys) ≡ serial (serial crc xs) ys
unfolding serial
serial-append crc [] ys = refl
serial-append crc (x ∷ xs) ys = serial-append (serial_step crc x) xs ys

add_bits : (m n x : ℕ) → shift_bits n (shift_bits m x) ≡ shift_bits (m + n) x
unfolding shift_bits
add_bits zero n x = ap (λ k. shift_bits k x) {x = n} {y = 0 + n} (omega arith)
add_bits (suc m) n x =
    add_bits m n (shift_bit x)
    ∙ ap (λ k. shift_bits k x) {x = suc (m + n)} {y = suc m + n} (omega arith)

-- A byte that comes in after `m` bits could have come in before them, further down.
late_byte :
    (m b k x : ℕ)
    → x < 2 ^ 32
    → b * 2 ^ k * 2 ^ m ≡ b * 2 ^ 24
    → b < 256
    → b * 2 ^ k < 2 ^ 32
    → serial_step (shift_bits m x) b ≡ shift_bits (m + 8) (bit_xor x (b * 2 ^ k))
unfolding serial_step
late_byte m b k x h e s f =
    ap (shift_bits 8) (
      ap (bit_xor (shift_bits m x)) (sym e ∙ sym (shift_bits_low m (b * 2 ^ k) (omega (arith, e))))
      ∙ sym (shift_bits_linear m x (b * 2 ^ k) h f))
    ∙ add_bits m 8 (bit_xor x (b * 2 ^ k))

-- Four bytes, the most significant first.
abbrev pub word_of : ℕ → ℕ → ℕ → ℕ → ℕ
word_of b₁ b₂ b₃ b₄ = b₁ * 2 ^ 24 + (b₂ * 2 ^ 16 + (b₃ * 2 ^ 8 + b₄))

module _ (crc b₁ b₂ b₃ b₄ : ℕ) (h : crc < 2 ^ 32) (h₁ : b₁ < 256) (h₂ : b₂ < 256) (h₃ : b₃ < 256)
    (h₄ : b₄ < 256) where
  x₁ : ℕ
  x₁ = bit_xor crc (b₁ * 2 ^ 24)

  x₂ : ℕ
  unfolding x₁
  x₂ = bit_xor x₁ (b₂ * 2 ^ 16)

  x₃ : ℕ
  unfolding x₂
  x₃ = bit_xor x₂ (b₃ * 2 ^ 8)

  x₁-lt : x₁ < 2 ^ 32
  unfolding x₁
  x₁-lt = bit_xor-lt 32 crc (b₁ * 2 ^ 24) h (omega arith)

  x₂-lt : x₂ < 2 ^ 32
  unfolding x₂
  x₂-lt = bit_xor-lt 32 x₁ (b₂ * 2 ^ 16) x₁-lt (omega arith)

  x₃-lt : x₃ < 2 ^ 32
  unfolding x₃
  x₃-lt = bit_xor-lt 32 x₂ (b₃ * 2 ^ 8) x₂-lt (omega arith)

  -- The word, joined by `^`.
  joined : bit_xor x₃ (b₄ * 2 ^ 0) ≡ bit_xor crc (word_of b₁ b₂ b₃ b₄)
  unfolding x₃ x₂ x₁
  joined =
      ap (bit_xor x₃) {x = b₄ * 2 ^ 0} {y = b₄} (omega arith)
      ∙ bit_xor_assoc x₂ (b₃ * 2 ^ 8) b₄
      ∙ ap (bit_xor x₂) (bit_xor_sum 8 b₃ b₄ h₄)
      ∙ bit_xor_assoc x₁ (b₂ * 2 ^ 16) (b₃ * 2 ^ 8 + b₄)
      ∙ ap (bit_xor x₁) (bit_xor_sum 16 b₂ (b₃ * 2 ^ 8 + b₄) (omega arith))
      ∙ bit_xor_assoc crc (b₁ * 2 ^ 24) (b₂ * 2 ^ 16 + (b₃ * 2 ^ 8 + b₄))
      ∙ ap (bit_xor crc) (bit_xor_sum 24 b₁ (b₂ * 2 ^ 16 + (b₃ * 2 ^ 8 + b₄)) (omega arith))

  first_step : serial_step crc b₁ ≡ shift_bits 8 x₁
  unfolding serial_step x₁
  first_step = refl

  serial_four :
      serial crc (b₁ ∷ b₂ ∷ b₃ ∷ b₄ ∷ []) ≡ shift_bits 32 (bit_xor crc (word_of b₁ b₂ b₃ b₄))
  unfolding serial x₃ x₂ x₁
  serial_four =
      ap (λ t. serial_step (serial_step (serial_step t b₂) b₃) b₄) first_step
      ∙ ap (λ t. serial_step (serial_step t b₃) b₄)
          (late_byte 8 b₂ 16 x₁ x₁-lt (omega arith) h₂ (omega arith))
      ∙ ap (λ t. serial_step t b₄) (late_byte 16 b₃ 8 x₂ x₂-lt (omega arith) h₃ (omega arith))
      ∙ late_byte 24 b₄ 0 x₃ x₃-lt (omega arith) h₄ (omega arith)
      ∙ ap (shift_bits 32) joined

  serial_four_iff : (serial crc (b₁ ∷ b₂ ∷ b₃ ∷ b₄ ∷ []) ≡ 0) ↔ (crc ≡ word_of b₁ b₂ b₃ b₄)
  serial_four_iff = (
    λ e. eq_of_xor crc (word_of b₁ b₂ b₃ b₄) (
        shift_bits_zero 32 (bit_xor crc (word_of b₁ b₂ b₃ b₄))
          (bit_xor-lt 32 crc (word_of b₁ b₂ b₃ b₄) h (omega arith)) (sym serial_four ∙ e)),
    λ e.
        serial_four
        ∙ ap (shift_bits 32) (ap (bit_xor crc) (sym e) ∙ bit_xor_self crc)
        ∙ shift_bits_low 32 0 (omega arith),
  )

-- A section of at least five bytes passes `check_crc32` exactly when its last four bytes, the most
-- significant first, are what `get_crc32` gives for the bytes before them.
pub check_crc32_iff :
    (xs : List ℕ) (b₁ b₂ b₃ b₄ : ℕ)
    → 1 ≤ length xs
    → IsBytes xs
    → IsBytes (b₁ ∷ b₂ ∷ b₃ ∷ b₄ ∷ [])
    → (check_crc32 (some (xs ++ b₁ ∷ b₂ ∷ b₃ ∷ b₄ ∷ [])) ≡ true)
      ↔ (get_crc32 (some xs) ≡ some (word_of b₁ b₂ b₃ b₄))
unfolding check_crc32 get_crc32
check_crc32_iff xs b₁ b₂ b₃ b₄ long bytes (h₁, (h₂, (h₃, (h₄, _)))) = (
  λ e. ground (arith, whole, start, (serial_four_iff crc b₁ b₂ b₃ b₄ crc-lt h₁ h₂ h₃ h₄).0, size),
  λ e. ground (arith, whole, start, (serial_four_iff crc b₁ b₂ b₃ b₄ crc-lt h₁ h₂ h₃ h₄).1, size),
)
  where
    crc : ℕ
    crc = serial 0xffffffff xs

    start : crc_loop 0xffffffff xs ≡ crc
    start = crc_loop-eq-serial 0xffffffff xs (omega arith) bytes

    crc-lt : crc < 2 ^ 32
    crc-lt = serial-lt 0xffffffff xs (omega arith) bytes

    size : length (xs ++ b₁ ∷ b₂ ∷ b₃ ∷ b₄ ∷ []) ≡ length xs + 4
    size = omega (arith, length-append xs (b₁ ∷ b₂ ∷ b₃ ∷ b₄ ∷ []))

    whole : crc_loop 0xffffffff (xs ++ b₁ ∷ b₂ ∷ b₃ ∷ b₄ ∷ []) ≡ serial crc (b₁ ∷ b₂ ∷ b₃ ∷ b₄ ∷ [])
    whole =
        crc_loop-eq-serial 0xffffffff (xs ++ b₁ ∷ b₂ ∷ b₃ ∷ b₄ ∷ []) (omega arith)
          (append-IsBytes xs (b₁ ∷ b₂ ∷ b₃ ∷ b₄ ∷ []) bytes (h₁, (h₂, (h₃, (h₄, tt)))))
        ∙ serial-append 0xffffffff xs (b₁ ∷ b₂ ∷ b₃ ∷ b₄ ∷ [])
