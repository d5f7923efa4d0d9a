-- ===== src/Crc/Equiv.antt =====
-- The table-driven routine is the serial one.
use libltntstools.Base.{
  ℕ, ◌*◌, ◌/◌, ◌%◌, ◌^◌, ◌<◌, ◌≡◌, refl, sym, ap, ap₂, ◌∙◌, ◌==◌, u32, bit_xor, true, List, [], ◌∷◌,
  get_or, arith, ==→eq,
}
use libltntstools.Base.Byte.{all_below, all_below_sound, IsBytes}
use libltntstools.Base.Xor.{bit_xor_sum, bit_xor-lt, bit_xor_assoc, bit_xor_comm, bit_xor-shift}
use libltntstools.Crc.{crc32_table, crc_step, crc_loop}
use libltntstools.Crc.Serial.{shift_bit, shift_bits, serial_step, serial}
use libltntstools.Crc.Linear.{shift_bits-lt, shift_bits_linear, shift_bits_low}

entries_agree : all_below 256 (λ i. get_or crc32_table i 0 == shift_bits 8 (i * 2 ^ 24)) ≡ true
unfolding all_below crc32_table shift_bits shift_bit
entries_agree = refl

-- Each entry of the table is the remainder of its index, shifted in serially.
pub crc32_table_lem : (i : ℕ) → i < 256 → get_or crc32_table i 0 ≡ shift_bits 8 (i * 2 ^ 24)
crc32_table_lem i h = ==→eq _ _ (
    all_below_sound 256 (λ k. get_or crc32_table k 0 == shift_bits 8 (k * 2 ^ 24)) i entries_agree
      h)

-- The register with a byte put in at its top, parted at that byte.
register_parts :
    (crc p : ℕ)
    → crc < 2 ^ 32
    → bit_xor crc (p * 2 ^ 24) ≡ bit_xor (crc % 2 ^ 24) (bit_xor (crc / 2 ^ 24) p * 2 ^ 24)
register_parts crc p h =
    ap (λ t. bit_xor t (p * 2 ^ 24)) (parts ∙ bit_xor_comm (crc / 2 ^ 24 * 2 ^ 24) (crc % 2 ^ 24))
    ∙ bit_xor_assoc (crc % 2 ^ 24) (crc / 2 ^ 24 * 2 ^ 24) (p * 2 ^ 24)
    ∙ ap (bit_xor (crc % 2 ^ 24)) (bit_xor-shift 24 (crc / 2 ^ 24) p)
  where
    parts : crc ≡ bit_xor (crc / 2 ^ 24 * 2 ^ 24) (crc % 2 ^ 24)
    parts = omega (arith, bit_xor_sum 24 (crc / 2 ^ 24) (crc % 2 ^ 24) (omega arith))

pub crc_step-eq-serial_step :
    (crc p : ℕ) → crc < 2 ^ 32 → p < 256 → crc_step crc p ≡ serial_step crc p
unfolding crc_step serial_step
crc_step-eq-serial_step crc p h k =
    ap₂ bit_xor low (crc32_table_lem index index_lt)
    ∙ sym (
        shift_bits_linear 8 (crc % 2 ^ 24) (index * 2 ^ 24) (omega arith) (omega (arith, index_lt)))
    ∙ ap (shift_bits 8) (sym (register_parts crc p h))
  where
    index : ℕ
    index = bit_xor (crc / 2 ^ 24) p

    index_lt : index < 256
    index_lt = bit_xor-lt 8 (crc / 2 ^ 24) p (omega arith) k

    low : u32 (crc * 2 ^ 8) ≡ shift_bits 8 (crc % 2 ^ 24)
    low = omega (arith, shift_bits_low 8 (crc % 2 ^ 24) (omega arith))

pub serial_step-lt : (crc p : ℕ) → crc < 2 ^ 32 → p < 256 → serial_step crc p < 2 ^ 32
unfolding serial_step
serial_step-lt crc p h k =
    shift_bits-lt 8 (bit_xor crc (p * 2 ^ 24)) (bit_xor-lt 32 crc (p * 2 ^ 24) h (omega arith))

-- On bytes, the table-driven loop ends in the register that the serial division by the generator
-- polynomial ends in, from every register of 32 bits.
pub crc_loop-eq-serial :
    (crc : ℕ) (buf : List ℕ) → crc < 2 ^ 32 → IsBytes buf → crc_loop crc buf ≡ serial crc buf
unfolding crc_loop serial
crc_loop-eq-serial crc [] h k = refl
crc_loop-eq-serial crc (p ∷ ps) h (k, ks) =
    ap (λ c. crc_loop c ps) (crc_step-eq-serial_step crc p h k)
    ∙ crc_loop-eq-serial (serial_step crc p) ps (serial_step-lt crc p h k) ks

pub serial-lt : (crc : ℕ) (buf : List ℕ) → crc < 2 ^ 32 → IsBytes buf → serial crc buf < 2 ^ 32
unfolding serial
serial-lt crc [] h k = h
serial-lt crc (p ∷ ps) h (k, ks) = serial-lt (serial_step crc p) ps (serial_step-lt crc p h k) ks
