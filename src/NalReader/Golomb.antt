-- ===== src/NalReader/Golomb.antt =====
-- Exp-Golomb codes: the reader gives back the number that a codeword stands for.
use native.Mathlib.Decide.{dec_lt}
use native.Mathlib.Nat.{pow-le-pow_right}
use libltntstools.Base.{
  ℕ, zero, suc, ◌+◌, ◌-◌, ◌*◌, ◌^◌, ◌≤◌, ◌<◌, ◌≡◌, refl, ap, ap₂, ◌∙◌, arith, u32, ltb,
  if◌then◌else◌, none, some, Bool, false,
}
use libltntstools.Base.Int.{ℤ, pos, negsuc}
use libltntstools.Base.Prefix.{Reads, Reads-zero, Reads-one, bit_at}
use libltntstools.NalReader.{
  bits_in, NalBitReader, at, read_bits, zeros_loop, leading_zeros, to_int, read_info, read_ue,
  se_of, read_se,
}
use libltntstools.NalReader.Bits.{
  read_bit_lem, read_bit_end, read_bits-inside, bits_in_lem, read_bits_short,
}

module _ (br : NalBitReader) (fuel count p : ℕ) (h : p < bits_in br) where
  zeros_loop_zero :
      bit_at br.bytes p ≡ 0
      → zeros_loop (suc fuel) count (at br p) ≡ zeros_loop fuel (count + 1) (at br (p + 1))
  unfolding zeros_loop
  zeros_loop_zero e =
      rw (zeros_loop, read_bit_lem br p h, e)
        (ap (λ s. zeros_loop fuel (count + 1) s.1) (read_bit_lem br p h))

  zeros_loop_one :
      bit_at br.bytes p ≡ 1 → zeros_loop (suc fuel) count (at br p) ≡ (some count, at br (p + 1))
  unfolding zeros_loop
  zeros_loop_one e =
      rw (zeros_loop, read_bit_lem br p h, e) (ap (λ s. (some count, s.1)) (read_bit_lem br p h))

zeros_loop_stop :
    (br : NalBitReader) (fuel count p : ℕ)
    → bits_in br ≤ p
    → zeros_loop (suc fuel) count (at br p) ≡ (none, at br p)
unfolding zeros_loop
zeros_loop_stop br fuel count p h =
    rw (zeros_loop, read_bit_end br p h) (ap (λ s. (none, s.1)) (read_bit_end br p h))

-- `z` zeros and a one: the loop counts the zeros.
zeros_loop_lem :
    (br : NalBitReader) (z fuel count p : ℕ)
    → ((i : ℕ) → br.bytes i < 256)
    → z < fuel
    → p + z < bits_in br
    → Reads br.bytes p (suc z) 1
    → zeros_loop fuel count (at br p) ≡ (some (count + z), at br (p + z + 1))
zeros_loop_lem br z zero count p byte enough inside rd = absurd (omega (arith, enough))
zeros_loop_lem br zero (suc fuel) count p byte enough inside rd =
    zeros_loop_one br fuel count p (omega (arith, inside)) (Reads-one br.bytes p byte rd)
    ∙ ap₂ (λ c q. (some c, at br q)) {x = count} {y = count + 0} {u = p + 1} {v = p + 0 + 1}
        (omega arith) (omega arith)
zeros_loop_lem br (suc z) (suc fuel) count p byte enough inside rd =
    let k = Reads-zero br.bytes p byte z rd in
    zeros_loop_zero br fuel count p (omega (arith, inside)) k.0
    ∙ zeros_loop_lem br z fuel (count + 1) (p + 1) byte (omega (arith, enough))
        (omega (arith, inside)) k.1
    ∙ ap₂ (λ c q. (some c, at br q)) {x = count + 1 + z} {y = count + suc z} {u = p + 1 + z + 1}
        {v = p + suc z + 1} (omega arith) (omega arith)

-- The codeword of `code` at bit `p`: where 2^z ≤ code + 1 < 2^(z + 1), `z` zeros, a one, and the `z` low
-- bits of code + 1.
pub record IsCodeword (br : NalBitReader) (p z code : ℕ) : Type 0 where
  pub ones_up : 2 ^ z ≤ code + 1
  pub head : Reads br.bytes p (suc z) 1
  pub tail : Reads br.bytes (p + z + 1) z (code + 1 - 2 ^ z)
  pub small : br.size < 2 ^ 28
  pub room : p + z + 1 + z ≤ br.size * 8

room-bits_in :
    {br : NalBitReader} {p z code : ℕ} → IsCodeword br p z code → p + z + 1 + z ≤ bits_in br
room-bits_in {br = br} w = omega (arith, bits_in_lem br w.small, w.room)

read_ue-none :
    (br : NalBitReader) (p q : ℕ)
    → zeros_loop (bits_in br - p + 1) 0 (at br p) ≡ (none, at br q)
    → read_ue (at br p) ≡ (negsuc 0, at br q)
unfolding read_ue leading_zeros read_info
read_ue-none br p q e = ap (λ s. read_info s.0 s.1) e

module _ (br : NalBitReader) (p z q : ℕ) where
  pub read_ue_zeros :
      zeros_loop (bits_in br - p + 1) 0 (at br p) ≡ (some (0 + z), at br q)
      → read_ue (at br p) ≡ read_info (some z) (at br q)
  unfolding read_ue leading_zeros
  read_ue_zeros e =
      ap (λ s. read_info s.0 s.1) e
      ∙ ap (λ n. read_info (some n) (at br q)) {x = 0 + z} {y = z} (omega arith)

if_no {ℓ} : {A : Type ℓ} (x y : A) (b : Bool) → b ≡ false → (if b then x else y) ≡ y
if_no x y b e = rw (e) refl

read_info_bits :
    (br : NalBitReader) (q z v last : ℕ)
    → z < 32
    → read_bits (at br q) z ≡ (v, at br last)
    → read_info (some z) (at br q) ≡ (to_int (u32 (2 ^ z - 1 + v)), at br last)
unfolding read_info
read_info_bits br q z v last h e =
    if_no _ _ (ltb 31 z) (ground (arith, h)) ∙ ap (λ s. (to_int (u32 (2 ^ z - 1 + s.0)), s.1)) e

-- A codeword of at most 30 leading zeros in a buffer of fewer than 2^28 bytes is read as the number it stands
-- for, and the reader moves past it.
pub read_ue_lem :
    (br : NalBitReader) (p z code : ℕ)
    → ((i : ℕ) → br.bytes i < 256)
    → z ≤ 30
    → IsCodeword br p z code
    → read_ue (at br p) ≡ (pos code, at br (p + z + 1 + z))
unfolding Reads
read_ue_lem br p z code byte narrow w =
    let e =
      zeros_loop_lem br z (bits_in br - p + 1) 0 p byte (omega (arith, room-bits_in w))
        (omega (arith, room-bits_in w)) w.head in
    let (v, f, k) =
      read_bits-inside br (p + z + 1) z byte (omega (arith, narrow)) (room-bits_in w) in
    let small : 2 ^ z ≤ 2 ^ 30 = pow-le-pow_right {n = 2} (omega arith) {i = z} {j = 30} narrow in
    let same : v ≡ code + 1 - 2 ^ z = omega (arith, k.0, w.tail.0) in
    read_ue_zeros br p z (p + z + 1) e
    ∙ read_info_bits br (p + z + 1) z v (p + z + 1 + z) (omega (arith, narrow)) f
    ∙ ap (λ c. (c, at br (p + z + 1 + z))) (ground (arith, same, small, w.ones_up, w.tail.1))

-- The signed values in the order of their codes: 0, 1, -1, 2, -2 and so on.
abbrev pub code_of : ℤ → ℕ
code_of (pos zero) = 0
code_of (pos (suc n)) = 2 * n + 1
code_of (negsuc n) = 2 * n + 2

se_of-code_of : (x : ℤ) → code_of x < 2 ^ 31 - 1 → se_of (pos (code_of x)) ≡ x
se_of-code_of (pos zero) h = refl
se_of-code_of (pos (suc n)) h = ground (arith, h)
se_of-code_of (negsuc n) h = ground (arith, h)

-- The codeword of a signed value's code, of at most 30 leading zeros in a buffer of fewer than 2^28 bytes, is read by
-- `NALBitReader_read_se` as that value, and the reader moves past it.
pub read_se_lem :
    (br : NalBitReader) (p z : ℕ) (x : ℤ)
    → ((i : ℕ) → br.bytes i < 256)
    → z ≤ 30
    → IsCodeword br p z (code_of x)
    → read_se (at br p) ≡ (x, at br (p + z + 1 + z))
unfolding read_se Reads
read_se_lem br p z x byte narrow w =
    let small : 2 ^ z ≤ 2 ^ 30 = pow-le-pow_right {n = 2} (omega arith) {i = z} {j = 30} narrow in
    ap (λ s. (se_of s.0, s.1)) (read_ue_lem br p z (code_of x) byte narrow w)
    ∙ ap (λ c. (c, at br (p + z + 1 + z))) (se_of-code_of x (omega (arith, w.tail.1, small)))

zeros_loop_end :
    (br : NalBitReader) (fuel count p : ℕ)
    → p ≤ bits_in br
    → bits_in br - p < fuel
    → ((i : ℕ) → p ≤ i → i < bits_in br → bit_at br.bytes i ≡ 0)
    → zeros_loop fuel count (at br p) ≡ (none, at br (bits_in br))
zeros_loop_end br zero count p inside enough zeros = absurd (omega (arith, enough))
zeros_loop_end br (suc fuel) count p inside enough zeros = elim (dec_lt p (bits_in br)) [
  | yes h ↦
      zeros_loop_zero br fuel count p h (zeros p (omega arith) h)
      ∙ zeros_loop_end br fuel (count + 1) (p + 1) (omega (arith, h)) (omega (arith, enough))
          (λ i j k. zeros i (omega (arith, j)) k)
  | no h ↦
      zeros_loop_stop br fuel count p (omega (arith, h))
      ∙ ap (λ q. (none, at br q)) {x = p} {y = bits_in br} (omega (arith, h, inside))
]

-- Where only zero bits are left, or none, `NALBitReader_read_ue` returns -1, its error, at the end of the
-- bytes, and `NALBitReader_read_se` returns 0, which is also the value of a codeword.
pub read_ue_end :
    (br : NalBitReader) (p : ℕ)
    → p ≤ bits_in br
    → ((i : ℕ) → p ≤ i → i < bits_in br → bit_at br.bytes i ≡ 0)
    → (read_ue (at br p) ≡ (negsuc 0, at br (bits_in br)))
      × (read_se (at br p) ≡ (pos 0, at br (bits_in br)))
unfolding read_se
read_ue_end br p inside zeros =
    let e =
      read_ue-none br p (bits_in br)
        (zeros_loop_end br (bits_in br - p + 1) 0 p inside (omega arith) zeros) in
    (e, ap (λ s. (se_of s.0, s.1)) e)

-- In a buffer of bytes, a codeword of at most 30 leading zeros whose low bits the buffer does not
-- hold in full is read as 2^z - 2 for its
-- `z` zeros, and not as the error -1.
pub read_ue_truncated :
    (br : NalBitReader) (p z : ℕ)
    → ((i : ℕ) → br.bytes i < 256)
    → z ≤ 30
    → Reads br.bytes p (suc z) 1
    → p + z + 1 ≤ bits_in br
    → bits_in br < p + z + 1 + z
    → read_ue (at br p) ≡ (pos (2 ^ z - 2), at br (bits_in br))
unfolding Reads
read_ue_truncated br p z byte narrow head inside short =
    let e =
      zeros_loop_lem br z (bits_in br - p + 1) 0 p byte (omega (arith, inside))
        (omega (arith, inside)) head in
    let small : 2 ^ z ≤ 2 ^ 30 = pow-le-pow_right {n = 2} (omega arith) {i = z} {j = 30} narrow in
    let large : 2 ≤ 2 ^ z =
      pow-le-pow_right {n = 2} (omega arith) {i = 1} {j = z} (omega (arith, inside, short)) in
    read_ue_zeros br p z (p + z + 1) e
    ∙ read_info_bits br (p + z + 1) z 0xffffffff (bits_in br) (omega (arith, narrow))
        (read_bits_short br (p + z + 1) z inside short)
    ∙ ap (λ c. (c, at br (bits_in br))) (ground (arith, small, large))
