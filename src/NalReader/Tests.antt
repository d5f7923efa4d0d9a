-- ===== src/NalReader/Tests.antt =====
-- Runs of the NAL reader, and the theorems at concrete bytes.
use libltntstools.Base.{
  ℕ, zero, suc, ◌+◌, ◌-◌, ◌/◌, ◌%◌, ap, ◌∙◌, ◌^◌, ◌<◌, ◌≤◌, ◌≡◌, refl, arith, true,
}
use libltntstools.Base.Int.{pos}
use libltntstools.Base.Prefix.{Reads, prefix, prefix_at, big_endian, bit_at}
use libltntstools.NalReader.{
  NalBitReader, bits_in, at, read_bit, read_loop, read_bits, read_info, leading_zeros, zeros_loop,
  read_ue, read_se, read_te, read_me, skip_bits, skip_to_byte_aligned,
}
use libltntstools.NalReader.Bits.{read_bits_lem}
use libltntstools.NalReader.Golomb.{IsCodeword, read_ue_lem, read_se_lem}

abbrev first_byte : ℕ → ℕ → ℕ
first_byte x zero = x
first_byte x (suc i) = 0

first_byte-small : (x i : ℕ) → x < 256 → first_byte x i < 256
first_byte-small x zero h = h
first_byte-small x (suc i) h = omega arith

-- 0011 0000 0000 0000
abbrev sample : NalBitReader
sample = record { bytes = first_byte 0x30; size = 2; bit_pos = 0 }

-- 0000 0001 and nothing behind it
abbrev cut_short : NalBitReader
cut_short = record { bytes = first_byte 1; size = 1; bit_pos = 0 }

abbrev zeros : NalBitReader
zeros = record { bytes = first_byte 0; size = 1; bit_pos = 0 }

read_ue-sample : (read_ue (at sample 0)).0 ≡ pos 5
unfolding read_ue leading_zeros zeros_loop read_info read_bits read_loop read_bit bits_in
read_ue-sample = refl

read_me-sample : (read_me (at sample 0) true).0 ≡ pos 27
unfolding read_me read_ue leading_zeros zeros_loop read_info read_bits read_loop read_bit bits_in
read_me-sample = refl

read_te-sample : (read_te (at sample 2) (pos 1)).0 ≡ pos 0
unfolding read_te read_ue leading_zeros zeros_loop read_info read_bits read_loop read_bit bits_in
read_te-sample = refl

aligned-sample : (skip_to_byte_aligned (at sample 3)).bit_pos ≡ 8
unfolding skip_to_byte_aligned skip_bits read_bit bits_in
aligned-sample = refl

sample-word : (code : ℕ) → code ≡ 5 → IsCodeword sample 0 2 code
unfolding Reads prefix prefix_at big_endian
sample-word code e = record {
  ones_up = omega (arith, e);
  head = (refl, omega arith);
  tail = (omega (arith, e), omega (arith, e));
  small = omega arith;
  room = omega arith;
}

read_bits_lem_example :
    (v : ℕ) × (read_bits (at sample 2) 3 ≡ (v, at sample (2 + 3))) × Reads (first_byte 0x30) 2 3 v
read_bits_lem_example =
    read_bits_lem sample 2 3 (λ i. first_byte-small 0x30 i (omega arith)) (omega arith)
      (omega arith) (omega arith)

read_ue_lem_example : read_ue (at sample 0) ≡ (pos 5, at sample 5)
read_ue_lem_example =
    read_ue_lem sample 0 2 5 (λ i. first_byte-small 0x30 i (omega arith)) (omega arith)
      (sample-word 5 refl)

read_se_lem_example : read_se (at sample 0) ≡ (pos 3, at sample 5)
read_se_lem_example =
    read_se_lem sample 0 2 (pos 3) (λ i. first_byte-small 0x30 i (omega arith)) (omega arith)
      (sample-word 5 refl)

zeros-bits : (i : ℕ) → 0 ≤ i → i < 8 → bit_at (first_byte 0) i ≡ 0
unfolding bit_at
zeros-bits i h k = ap (λ b. b / 2 ^ (7 - i % 8) % 2) (blank (i / 8)) ∙ zero_shift (7 - i % 8)
  where
    blank : (j : ℕ) → first_byte 0 j ≡ 0
    blank zero = refl
    blank (suc j) = refl

    zero_shift : (n : ℕ) → 0 / 2 ^ n % 2 ≡ 0
    zero_shift n = omega arith

cut_short-head : Reads (first_byte 1) 0 8 1
unfolding Reads prefix prefix_at big_endian
cut_short-head = (refl, omega arith)
