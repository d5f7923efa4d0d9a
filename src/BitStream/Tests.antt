-- ===== src/BitStream/Tests.antt =====
-- Runs of the bit stream, and its theorems at a concrete buffer.
use libltntstools.Base.{
  ℕ, ◌+◌, ◌-◌, ◌%◌, ◌^◌, ◌≡◌, refl, arith, ◌<◌, Bool, Option, none, some, true, false, List, [],
  ◌∷◌,
}
use libltntstools.Packet.{Pointer}
use libltntstools.BitStream.{
  Context, write_set_buffer, read_set_buffer, write_bits, write_buffer_complete, read_bits,
  read_loop, read_bit, loaded,
}
use libltntstools.BitStream.Reader.{Returns, read_bits-Returns}
use libltntstools.BitStream.Fields.{
  Field, write_fields, read_fields, widths, values, read_fields-write_fields,
}
use libltntstools.BitStream.Writer.{Adds, write_bits-Adds}
use libltntstools.BitStream.Complete.{write_buffer_complete-Adds}

abbrev constant : Pointer
constant i = 0xa5

constant-byte : (i : ℕ) → constant i < 256
constant-byte i = omega arith

-- Three bits into a buffer of four bytes.
abbrev three_bits_in : Context
three_bits_in = record {
  buf = constant;
  buflen = 4;
  buflen_used = 0;
  reg_used = 3;
  reg = 5;
  overrun = false;
}

abbrev fresh : Context
fresh = record {
  buf = constant;
  buflen = 4;
  buflen_used = 0;
  reg_used = 0;
  reg = 0;
  overrun = false;
}

abbrev value : Option (ℕ × Context) → ℕ
value none = 0
value (some (v, c)) = v

abbrev overran : Option (ℕ × Context) → Bool
overran none = false
overran (some (v, c)) = c.overrun

read_bits-fresh : value (read_bits fresh 12) ≡ 0xa5a
unfolding read_bits read_loop read_bit loaded
read_bits-fresh = refl

-- The last byte is flagged as an overrun as soon as a bit of it is read.
read_bits-overran : overran (read_bits fresh 25) ≡ true
unfolding read_bits read_loop read_bit loaded
read_bits-overran = refl

read_bits-Returns_example : Returns (read_bits fresh 12) fresh 0 12
read_bits-Returns_example =
    read_bits-Returns fresh 0 12
      (record { place = omega arith; part = omega arith; held = λ h. absurd (omega (arith, h)) })
      constant-byte (omega arith) (omega arith)

write_bits-Adds_example :
    (c : Context) × (write_bits three_bits_in 0x1ff 9 ≡ some c)
    × Adds three_bits_in c 9 (0x1ff % 2 ^ 9)
write_bits-Adds_example =
    write_bits-Adds three_bits_in 0x1ff 9 (omega arith) (omega arith) (omega arith)

write_buffer_complete-Adds_example :
    (c : Context) × (write_buffer_complete three_bits_in ≡ some c)
    × Adds three_bits_in c (9 - 3) 0
    × (c.buflen_used ≡ 0 + 1)
    × (c.reg_used ≡ 1)
write_buffer_complete-Adds_example =
    write_buffer_complete-Adds three_bits_in (omega arith) (omega arith) (omega arith)

-- Three bits and thirteen.
abbrev two_fields : List Field
two_fields = record { bits = 5; width = 3 } ∷ record { bits = 1000; width = 13 } ∷ []

read_fields-write_fields_example :
    (c : Context) × (d : Context) × (write_fields (write_set_buffer constant 4) two_fields ≡ some c)
    × (read_fields (read_set_buffer c.buf 4) (widths two_fields) ≡ some (values two_fields, d))
read_fields-write_fields_example =
    read_fields-write_fields constant 4 2 two_fields constant-byte (omega arith, (omega arith, tt))
      refl (omega arith)
