-- ===== src/Crc/Serial.antt =====
-- The reference: the remainder by the generator polynomial 0x04c11db7, one bit at a time.
use libltntstools.Base.{ℕ, zero, suc, ◌*◌, ◌^◌, ltb, if◌then◌else◌, u32, bit_xor, List, [], ◌∷◌}

-- One bit is shifted out at the top; the polynomial is taken away where it was 1.
unfoldable pub shift_bit : ℕ → ℕ
shift_bit x = if ltb x (2 ^ 31) then x * 2 else bit_xor (u32 (x * 2)) 0x04c11db7

unfoldable pub shift_bits : ℕ → ℕ → ℕ
shift_bits zero x = x
shift_bits (suc n) x = shift_bits n (shift_bit x)

-- A byte comes in at the top.
unfoldable pub serial_step : ℕ → ℕ → ℕ
serial_step crc p = shift_bits 8 (bit_xor crc (p * 2 ^ 24))

unfoldable pub serial : ℕ → List ℕ → ℕ
serial crc [] = crc
serial crc (p ∷ ps) = serial (serial_step crc p) ps
