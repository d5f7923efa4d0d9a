-- ===== src/NalReader.antt =====
-- src/nal_bitreader.c: bits and Exp-Golomb codes read from a NAL unit. `int` values are integers,
-- and a sum or shift of them wraps as 32 bits of two's complement do.
pub mod Bits
pub mod Golomb
pub mod Tables
mod Tests
use libltntstools.Base.{
  ℕ, zero, suc, ◌+◌, ◌-◌, ◌*◌, ◌/◌, ◌%◌, ◌^◌, ltb, leb, ◌==◌, ◌||◌, not, if◌then◌else◌, bit_and,
  bit_or, u32, Bool, true, false, Option, none, some, List, [], ◌∷◌, get_or,
}
use libltntstools.Base.Int.{ℤ, pos, negsuc, sub_ℕ, lt_ℤ}

pub record NalBitReader : Type 0 where
  pub bytes : ℕ → ℕ
  pub size : ℕ
  pub bit_pos : ℕ

-- `NALBitReader_init`
unfoldable pub init : (ℕ → ℕ) → ℕ → NalBitReader
init bytes size = record { bytes = bytes; size = size; bit_pos = 0 }

abbrev pub at : NalBitReader → ℕ → NalBitReader
at br p = record { bytes = br.bytes; size = br.size; bit_pos = p }

-- `br->size * 8` as an `int`; a negative value is below every position, as 0 is.
unfoldable pub bits_in : NalBitReader → ℕ
bits_in br = let bits = u32 (br.size * 8) in if ltb bits (2 ^ 31) then bits else 0

-- `NALBitReader_read_bit`: `none` is -1.
pub read_bit : NalBitReader → Option ℕ × NalBitReader
unfolding bits_in
read_bit br = if leb (bits_in br) br.bit_pos then (none, br) else (
  some (bit_and (br.bytes (br.bit_pos / 8) / 2 ^ (7 - br.bit_pos % 8)) 0x01),
  at br (br.bit_pos + 1),
)

-- `NALBitReader_skip_bits`
pub skip_bits : ℕ → NalBitReader → NalBitReader
unfolding read_bit
skip_bits zero br = br
skip_bits (suc n) br = skip_bits n (read_bit br).1

-- `NALBitReader_skip_to_byte_aligned`
pub skip_to_byte_aligned : NalBitReader → NalBitReader
unfolding skip_bits
skip_to_byte_aligned br = if br.bit_pos % 8 == 0 then br else skip_bits (8 - br.bit_pos % 8) br

-- The loop of `NALBitReader_read_bits`, with `n` rounds left.
pub read_loop : ℕ → ℕ → NalBitReader → ℕ × NalBitReader
unfolding read_bit
read_loop zero result br = (result, br)
read_loop (suc n) result br =
    let (bit, next) = read_bit br in
    elim bit [ none ↦ (0xffffffff, next) | some b ↦ read_loop n (bit_or (u32 (result * 2)) b) next ]

-- `NALBitReader_read_bits`
pub read_bits : NalBitReader → ℕ → ℕ × NalBitReader
unfolding read_loop
read_bits br n = read_loop n 0 br

-- The value of 32 bits as an `int`.
abbrev pub to_int : ℕ → ℤ
to_int x = if ltb x (2 ^ 31) then pos x else sub_ℕ x (2 ^ 32)

-- The loop of `NALBitReader_read_ue`: `leadingZeroBits` at its end, and `none` for -1. The fuel is
-- more than the bits that are left.
pub zeros_loop : ℕ → ℕ → NalBitReader → Option ℕ × NalBitReader
unfolding read_bit
zeros_loop zero count br = (none, br)
zeros_loop (suc fuel) count br =
    let (bit, next) = read_bit br in
    elim bit [
      | none ↦ (none, next)
      | some b ↦ if b == 0 then zeros_loop fuel (count + 1) next else (some count, next)
    ]

pub leading_zeros : NalBitReader → Option ℕ × NalBitReader
unfolding zeros_loop bits_in
leading_zeros br = zeros_loop (bits_in br - br.bit_pos + 1) 0 br

-- `NALBitReader_read_ue`, behind its loop.
pub read_info : Option ℕ → NalBitReader → ℤ × NalBitReader
unfolding read_bits
read_info none br = (negsuc 0, br)
read_info (some z) br =
    if ltb 31 z
    then (negsuc 0, br)
    else (let (info, last) = read_bits br z in (to_int (u32 (2 ^ z - 1 + info)), last))

-- `NALBitReader_read_ue`
pub read_ue : NalBitReader → ℤ × NalBitReader
unfolding leading_zeros read_info
read_ue br = let (zeros, next) = leading_zeros br in read_info zeros next

-- `codeNum & 1`, `(codeNum + 1) >> 1` and `-(codeNum >> 1)`
abbrev pub se_of : ℤ → ℤ
se_of (pos k) =
    if k % 2 == 1
    then (if k == 2 ^ 31 - 1 then negsuc (2 ^ 30 - 1) else pos ((k + 1) / 2))
    else sub_ℕ 0 (k / 2)
se_of (negsuc k) = if k % 2 == 0 then sub_ℕ 0 (k / 2) else pos (k / 2 + 1)

-- `NALBitReader_read_se`
pub read_se : NalBitReader → ℤ × NalBitReader
unfolding read_ue
read_se br = let (code, next) = read_ue br in (se_of code, next)

abbrev pub cbp_inter : List ℕ
cbp_inter =
    0 ∷ 16 ∷ 1 ∷ 2 ∷ 4 ∷ 8 ∷ 32 ∷ 3 ∷ 5 ∷ 10 ∷ 12 ∷ 15 ∷ 47 ∷ 7 ∷ 11 ∷ 13 ∷ 14 ∷ 6 ∷ 9 ∷ 31 ∷ 35
    ∷ 37 ∷ 42 ∷ 44 ∷ 33 ∷ 34 ∷ 36 ∷ 40 ∷ 39 ∷ 43 ∷ 45 ∷ 46 ∷ 17 ∷ 18 ∷ 20 ∷ 24 ∷ 19 ∷ 21 ∷ 26 ∷ 28
    ∷ 23 ∷ 27 ∷ 29 ∷ 30 ∷ 22 ∷ 25 ∷ 38 ∷ 41 ∷ []

abbrev pub cbp_intra : List ℕ
cbp_intra =
    47 ∷ 31 ∷ 15 ∷ 0 ∷ 23 ∷ 27 ∷ 29 ∷ 30 ∷ 7 ∷ 11 ∷ 13 ∷ 14 ∷ 39 ∷ 43 ∷ 45 ∷ 46 ∷ 16 ∷ 3 ∷ 5 ∷ 10
    ∷ 12 ∷ 19 ∷ 21 ∷ 26 ∷ 28 ∷ 35 ∷ 37 ∷ 42 ∷ 44 ∷ 1 ∷ 2 ∷ 4 ∷ 8 ∷ 17 ∷ 18 ∷ 20 ∷ 24 ∷ 6 ∷ 9 ∷ 22
    ∷ 25 ∷ 32 ∷ 33 ∷ 34 ∷ 36 ∷ 40 ∷ 38 ∷ 41 ∷ []

-- `NALBitReader_read_me`; `intra` is the flag as a Boolean.
abbrev pub me_of : Bool → ℤ → ℤ
me_of intra (pos k) =
    if leb 48 k
    then negsuc 0
    else pos (if intra then get_or cbp_intra k 0 else get_or cbp_inter k 0)
me_of intra (negsuc k) = negsuc 0

pub read_me : NalBitReader → Bool → ℤ × NalBitReader
unfolding read_ue
read_me br intra = let (code, next) = read_ue br in (me_of intra code, next)

-- `NALBitReader_read_te`
pub read_te : NalBitReader → ℤ → ℤ × NalBitReader
unfolding read_bit read_ue
read_te br max_val =
    if lt_ℤ max_val (pos 1)
    then (pos 0, br)
    else if lt_ℤ (pos 1) max_val
    then read_ue br
    else (let (bit, next) = read_bit br in
        elim bit [ none ↦ (negsuc 0, next) | some b ↦ (pos (if b == 0 then 1 else 0), next) ])
