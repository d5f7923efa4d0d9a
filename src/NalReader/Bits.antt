-- ===== src/NalReader/Bits.antt =====
-- The bits that the NAL reader returns are those of the bytes, read as one number.
use native.Mathlib.Decide.{dec_lt}
use native.Mathlib.Nat.{pow-le-pow_right}
use libltntstools.Base.{
  ℕ, zero, suc, ◌+◌, ◌-◌, ◌*◌, ◌/◌, ◌%◌, ◌^◌, ◌≤◌, ◌<◌, ◌≡◌, ap, ap₂, ◌∙◌, subst, arith, u32,
  bit_or, none, some,
}
use libltntstools.Base.Bits.{bit_and_mask, bit_or_sum}
use libltntstools.Base.Prefix.{Reads, Reads-none, Reads-suc, bit_at, bit_at-small}
use libltntstools.NalReader.{bits_in, NalBitReader, at, read_bit, read_loop, read_bits}

module _ (br : NalBitReader) (p : ℕ) where
  pub read_bit_lem : p < bits_in br → read_bit (at br p) ≡ (some (bit_at br.bytes p), at br (p + 1))
  unfolding read_bit bit_at
  read_bit_lem h = ground (arith, h, bit_and_mask 1 (br.bytes (p / 8) / 2 ^ (7 - p % 8)))

  pub read_bit_end : bits_in br ≤ p → read_bit (at br p) ≡ (none, at br p)
  unfolding read_bit
  read_bit_end h = ground (arith, h)

module _ (br : NalBitReader) (p n result : ℕ) where
  pub read_loop_more :
      (h : p < bits_in br)
      → read_loop (suc n) result (at br p)
        ≡ read_loop n (bit_or (u32 (result * 2)) (bit_at br.bytes p)) (at br (p + 1))
  unfolding read_loop
  read_loop_more h =
      rw (read_loop, read_bit_lem br p h)
        (ap (λ s. read_loop n (bit_or (u32 (result * 2)) (bit_at br.bytes p)) s.1)
          (read_bit_lem br p h))

  read_loop_end : bits_in br ≤ p → read_loop (suc n) result (at br p) ≡ (0xffffffff, at br p)
  unfolding read_loop
  read_loop_end h =
      rw (read_loop, read_bit_end br p h) (ap (λ s. (0xffffffff, s.1)) (read_bit_end br p h))

shifted : (k n r b : ℕ) → k + n < 32 → r < 2 ^ k → b < 2 → bit_or (u32 (r * 2)) b ≡ r * 2 + b
shifted k n r b h small bit =
    ap (λ t. bit_or t b) {x = u32 (r * 2)} {y = r * 2}
      (omega
        (arith, small, pow-le-pow_right {n = 2} (omega arith) {i = k} {j = 31} (omega (arith, h))))
    ∙ bit_or_sum 1 r b bit

pub read_loop_lem :
    (br : NalBitReader) (p k n r : ℕ)
    → ((i : ℕ) → br.bytes i < 256)
    → k + n ≤ 32
    → p + k + n ≤ bits_in br
    → Reads br.bytes p k r
    → (v : ℕ) × (read_loop n r (at br (p + k)) ≡ (v, at br (p + k + n)))
      × Reads br.bytes p (k + n) v
unfolding read_loop Reads
read_loop_lem br p k zero r byte fits inside rd = (
  r,
  ap (λ q. (r, at br q)) {x = p + k} {y = p + k + 0} (omega arith),
  subst (λ m. Reads br.bytes p m r) {x = k} {y = k + 0} (omega arith) rd,
)
read_loop_lem br p k (suc n) r byte fits inside rd =
    let b = bit_at br.bytes (p + k) in
    let (v, e, w) =
      read_loop_lem br p (suc k) n (r * 2 + b) byte (omega (arith, fits)) (omega (arith, inside))
        (Reads-suc br.bytes p byte k r rd) in
    (
      v,
      read_loop_more br (p + k) n r (omega (arith, inside))
          ∙ ap₂ (λ x q. read_loop n x (at br q)) {x = bit_or (u32 (r * 2)) b} {y = r * 2 + b}
              {u = p + k + 1} {v = p + suc k}
              (shifted k n r b (omega (arith, fits)) rd.1 (bit_at-small br.bytes (p + k)))
              (omega arith)
          ∙ e
          ∙ ap (λ q. (v, at br q)) {x = p + suc k + n} {y = p + k + suc n} (omega arith),
      subst (λ m. Reads br.bytes p m v) {x = suc k + n} {y = k + suc n} (omega arith) w,
    )

module _ (br : NalBitReader) (p n : ℕ) where
  pub read_bits-inside :
      ((i : ℕ) → br.bytes i < 256)
      → n ≤ 32
      → p + n ≤ bits_in br
      → (v : ℕ) × (read_bits (at br p) n ≡ (v, at br (p + n))) × Reads br.bytes p n v
  unfolding read_bits
  read_bits-inside byte fits inside =
      let (v, e, w) =
        read_loop_lem br p 0 n 0 byte (omega (arith, fits)) (omega (arith, inside))
          (Reads-none br.bytes p byte) in
      (
        v,
        ap (λ q. read_loop n 0 (at br q)) {x = p} {y = p + 0} (omega arith)
            ∙ e
            ∙ ap (λ q. (v, at br q)) {x = p + 0 + n} {y = p + n} (omega arith),
        subst (λ m. Reads br.bytes p m v) {x = 0 + n} {y = n} (omega arith) w,
      )

pub bits_in_lem : (br : NalBitReader) → br.size < 2 ^ 28 → bits_in br ≡ br.size * 8
unfolding bits_in
bits_in_lem br h = ground (arith, h)

-- Where `n` bits, at most 32, are left in a buffer of fewer than 2^28 bytes, `NALBitReader_read_bits`
-- returns the number that they make in the bytes, the most significant bit first, and moves past them.
pub read_bits_lem :
    (br : NalBitReader) (p n : ℕ)
    → ((i : ℕ) → br.bytes i < 256)
    → br.size < 2 ^ 28
    → n ≤ 32
    → p + n ≤ br.size * 8
    → (v : ℕ) × (read_bits (at br p) n ≡ (v, at br (p + n))) × Reads br.bytes p n v
read_bits_lem br p n byte small fits inside =
    read_bits-inside br p n byte fits (omega (arith, bits_in_lem br small, inside))

read_loop_short :
    (br : NalBitReader) (p n r : ℕ)
    → p ≤ bits_in br
    → bits_in br < p + n
    → read_loop n r (at br p) ≡ (0xffffffff, at br (bits_in br))
read_loop_short br p zero r inside short = absurd (omega (arith, inside, short))
read_loop_short br p (suc n) r inside short = elim (dec_lt p (bits_in br)) [
  | yes h ↦
      read_loop_more br p n r h
      ∙ read_loop_short br (p + 1) n (bit_or (u32 (r * 2)) (bit_at br.bytes p)) (omega (arith, h))
          (omega (arith, short))
  | no h ↦
      read_loop_end br p n r (omega (arith, h))
      ∙ ap (λ q. (0xffffffff, at br q)) {x = p} {y = bits_in br} (omega (arith, h, inside))
]

-- Where fewer bits are left than it is asked for, `NALBitReader_read_bits` returns 0xffffffff at
-- the end of the bytes.
pub read_bits_short :
    (br : NalBitReader) (p n : ℕ)
    → p ≤ bits_in br
    → bits_in br < p + n
    → read_bits (at br p) n ≡ (0xffffffff, at br (bits_in br))
unfolding read_bits
read_bits_short br p n inside short = read_loop_short br p n 0 inside short
