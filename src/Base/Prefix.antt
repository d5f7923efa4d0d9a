-- ===== src/Base/Prefix.antt =====
-- The first bits of a buffer of bytes as a number, the most significant bit first.
use native.Mathlib.Decide.{dec_lt}
use native.Mathlib.Nat.{pow-suc, one-le-pow}
use libltntstools.Base.Bits.{double_pow}
use libltntstools.Base.{ℕ, zero, suc, ◌+◌, ◌-◌, ◌*◌, ◌/◌, ◌%◌, ◌^◌, ◌<◌, ◌≡◌, ap, ap₂, ◌∙◌, arith}

-- The first `n` bytes.
unfoldable pub big_endian : (ℕ → ℕ) → ℕ → ℕ
big_endian buf zero = 0
big_endian buf (suc n) = big_endian buf n * 256 + buf n

pub big_endian-suc : (buf : ℕ → ℕ) (n : ℕ) → big_endian buf (n + 1) ≡ big_endian buf n * 256 + buf n
unfolding big_endian
big_endian-suc buf n = ap (big_endian buf) {x = n + 1} {y = suc n} (omega arith)

-- The first `8 * q + r` bits, for `r` below 8.
unfoldable pub prefix_at : (ℕ → ℕ) → ℕ → ℕ → ℕ
prefix_at buf q r = big_endian buf q * 2 ^ r + buf q / 2 ^ (8 - r)

-- The first `n` bits.
unfoldable pub prefix : (ℕ → ℕ) → ℕ → ℕ
unfolding prefix_at
prefix buf n = prefix_at buf (n / 8) (n % 8)

-- Bit `n`.
unfoldable pub bit_at : (ℕ → ℕ) → ℕ → ℕ
bit_at buf n = buf (n / 8) / 2 ^ (7 - n % 8) % 2

-- A fact on each number below 8.
pub below_8 {ℓ} :
    (P : ℕ → Type ℓ) → P 0 → P 1 → P 2 → P 3 → P 4 → P 5 → P 6 → P 7 → (r : ℕ) → r < 8 → P r
below_8 P p₀ p₁ p₂ p₃ p₄ p₅ p₆ p₇ zero h = p₀
below_8 P p₀ p₁ p₂ p₃ p₄ p₅ p₆ p₇ (suc zero) h = p₁
below_8 P p₀ p₁ p₂ p₃ p₄ p₅ p₆ p₇ (suc (suc zero)) h = p₂
below_8 P p₀ p₁ p₂ p₃ p₄ p₅ p₆ p₇ (suc (suc (suc zero))) h = p₃
below_8 P p₀ p₁ p₂ p₃ p₄ p₅ p₆ p₇ (suc (suc (suc (suc zero)))) h = p₄
below_8 P p₀ p₁ p₂ p₃ p₄ p₅ p₆ p₇ (suc (suc (suc (suc (suc zero))))) h = p₅
below_8 P p₀ p₁ p₂ p₃ p₄ p₅ p₆ p₇ (suc (suc (suc (suc (suc (suc zero)))))) h = p₆
below_8 P p₀ p₁ p₂ p₃ p₄ p₅ p₆ p₇ (suc (suc (suc (suc (suc (suc (suc zero))))))) h = p₇
below_8 P p₀ p₁ p₂ p₃ p₄ p₅ p₆ p₇ (suc (suc (suc (suc (suc (suc (suc (suc r)))))))) h =
    absurd (omega (arith, h))

prefix_at-next :
    (buf : ℕ → ℕ) (q : ℕ)
    → buf q < 256
    → (r : ℕ) → r < 8
    → r < 7
    → prefix_at buf q (r + 1) ≡ prefix_at buf q r * 2 + buf q / 2 ^ (7 - r) % 2
unfolding prefix_at
prefix_at-next buf q byte =
    below_8 (λ r. r < 7 → prefix_at buf q (r + 1) ≡ prefix_at buf q r * 2 + buf q / 2 ^ (7 - r) % 2)
      (λ h. omega (arith, byte)) (λ h. omega (arith, byte)) (λ h. omega (arith, byte))
      (λ h. omega (arith, byte)) (λ h. omega (arith, byte)) (λ h. omega (arith, byte))
      (λ h. omega (arith, byte)) (λ h. absurd (omega (arith, h)))

prefix_at-byte :
    (buf : ℕ → ℕ) (q : ℕ)
    → buf q < 256
    → buf (q + 1) < 256
    → prefix_at buf (q + 1) 0 ≡ prefix_at buf q 7 * 2 + buf q / 2 ^ (7 - 7) % 2
unfolding prefix_at
prefix_at-byte buf q byte next = omega (arith, byte, next, big_endian-suc buf q)

-- Each further bit doubles the number and adds the bit.
pub prefix-suc :
    (buf : ℕ → ℕ) (n : ℕ)
    → ((i : ℕ) → buf i < 256)
    → prefix buf (n + 1) ≡ prefix buf n * 2 + bit_at buf n
unfolding prefix bit_at
prefix-suc buf n byte = elim (dec_lt (n % 8) 7) [
  | yes h ↦
      place (n / 8) (n % 8 + 1) (omega (arith, h)) (omega (arith, h))
      ∙ prefix_at-next buf (n / 8) (byte (n / 8)) (n % 8) (omega arith) h
  | no h ↦
      place (n / 8 + 1) 0 (omega (arith, h)) (omega (arith, h))
      ∙ prefix_at-byte buf (n / 8) (byte (n / 8)) (byte (n / 8 + 1))
      ∙ ap (λ r. prefix_at buf (n / 8) r * 2 + buf (n / 8) / 2 ^ (7 - r) % 2) {x = 7} {y = n % 8}
          (omega (arith, h))
]
  where
    place :
        (q r : ℕ)
        → (n + 1) / 8 ≡ q
        → (n + 1) % 8 ≡ r
        → prefix_at buf ((n + 1) / 8) ((n + 1) % 8) ≡ prefix_at buf q r
    place q r e f = ap₂ (prefix_at buf) e f

-- The `n` bits from bit `p` on are the number `v`.
unfoldable pub Reads : (ℕ → ℕ) → ℕ → ℕ → ℕ → Type 0
Reads buf p n v = (prefix buf (p + n) ≡ prefix buf p * 2 ^ n + v) × (v < 2 ^ n)

pub bit_at-small : (buf : ℕ → ℕ) (n : ℕ) → bit_at buf n < 2
unfolding bit_at
bit_at-small buf n = omega arith

module _ (buf : ℕ → ℕ) (p : ℕ) (byte : (i : ℕ) → buf i < 256) where
  pub Reads-none : Reads buf p 0 0
  unfolding Reads
  Reads-none = (ap (prefix buf) {x = p + 0} {y = p} (omega arith) ∙ omega arith, omega arith)

  pub Reads-suc : (n v : ℕ) → Reads buf p n v → Reads buf p (suc n) (v * 2 + bit_at buf (p + n))
  unfolding Reads
  Reads-suc n v k = (
    ap (prefix buf) {x = p + suc n} {y = p + n + 1} (omega arith)
        ∙ prefix-suc buf (p + n) byte
        ∙ omega (arith, k.0, double_pow (prefix buf p) n),
    omega (arith, k.1, bit_at-small buf (p + n), pow-suc 2 n),
  )

  pub Reads-some : (n : ℕ) → (v : ℕ) × Reads buf p n v
  Reads-some zero = (0, Reads-none)
  Reads-some (suc n) = let (v, k) = Reads-some n in (v * 2 + bit_at buf (p + n), Reads-suc n v k)

  pub Reads-one : Reads buf p 1 1 → bit_at buf p ≡ 1
  unfolding Reads
  Reads-one k = omega (arith, k.0, prefix-suc buf p byte)

-- A number that starts with a zero bit and ends with a one.
pub Reads-zero :
    (buf : ℕ → ℕ) (p : ℕ)
    → ((i : ℕ) → buf i < 256)
    → (n : ℕ) → Reads buf p (suc (suc n)) 1
    → (bit_at buf p ≡ 0) × Reads buf (p + 1) (suc n) 1
unfolding Reads
Reads-zero buf p byte n k =
    let next = prefix-suc buf p byte in
    let (r, j) = Reads-some buf (p + 1) byte (suc n) in
    let same : prefix buf (p + 1 + suc n) ≡ prefix buf p * 2 ^ (suc (suc n)) + 1 =
      ap (prefix buf) {x = p + 1 + suc n} {y = p + suc (suc n)} (omega arith) ∙ k.0 in
    let double : (prefix buf p * 2) * 2 ^ suc n ≡ prefix buf p * 2 ^ (suc (suc n)) =
      omega (arith, double_pow (prefix buf p) (suc n)) in
    let wide : 1 < 2 ^ suc n = omega (arith, pow-suc 2 n, one-le-pow n 2 (omega arith)) in
    elim (dec_lt (bit_at buf p) 1) [
      | yes h ↦
          (let e : prefix buf (p + 1) ≡ prefix buf p * 2 = omega (arith, next, h) in
            let m = ap (λ x. x * 2 ^ suc n) e in
            (omega (arith, h), (omega (arith, m, same, double, j.0), wide)))
      | no h ↦
          (let e : prefix buf (p + 1) ≡ prefix buf p * 2 + 1 =
              omega (arith, next, h, bit_at-small buf p) in
            let m : prefix buf (p + 1) * 2 ^ suc n ≡ (prefix buf p * 2) * 2 ^ suc n + 2 ^ suc n =
              ap (λ x. x * 2 ^ suc n) e ∙ omega arith in
            absurd (omega (arith, m, same, double, j.0, wide)))
    ]

-- A whole byte.
pub Reads-byte :
    (buf : ℕ → ℕ) (p q : ℕ) → p ≡ q * 8 → buf q < 256 → buf (q + 1) < 256 → Reads buf p 8 (buf q)
unfolding Reads prefix prefix_at
Reads-byte buf p q e byte next = (
  ap₂ (prefix_at buf) {x = (p + 8) / 8} {y = q + 1} {u = (p + 8) % 8} {v = 0} (omega (arith, e))
        (omega (arith, e))
      ∙ omega (arith, byte, next, big_endian-suc buf q)
      ∙ ap (λ t. t * 2 ^ 8 + buf q) {x = prefix_at buf q 0} {y = prefix_at buf (p / 8) (p % 8)}
          (ap₂ (prefix_at buf) {x = q} {y = p / 8} {u = 0} {v = p % 8} (omega (arith, e))
            (omega (arith, e))),
  omega (arith, byte),
)

-- At a whole number of bytes, the bits are those bytes.
pub prefix-bytes : (buf : ℕ → ℕ) (q : ℕ) → buf q < 256 → prefix buf (q * 8) ≡ big_endian buf q
unfolding prefix prefix_at
prefix-bytes buf q byte =
    ap₂ (prefix_at buf) {x = q * 8 / 8} {y = q} {u = q * 8 % 8} {v = 0} (omega arith) (omega arith)
    ∙ omega (arith, byte)
