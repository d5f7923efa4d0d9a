-- ===== src/BitStream/RoundTrip.antt =====
-- What is written to a buffer is read back from it.
use libltntstools.Base.{ℕ, ◌+◌, ◌*◌, ◌%◌, ◌^◌, ◌≤◌, ◌<◌, ◌≡◌, ap, ◌∙◌, arith, some}
use libltntstools.Base.Prefix.{Reads, prefix, prefix-bytes, big_endian}
use libltntstools.Packet.{Pointer}
use libltntstools.BitStream.{Context, write_set_buffer, read_set_buffer, write_bits, read_bits}
use libltntstools.BitStream.Writer.{written, write_bits-Adds}
use libltntstools.BitStream.Reader.{read_bits-Returns}

-- A number of whole bytes written and read is the same.
same_number :
    (c : Context) (q total v : ℕ)
    → ((i : ℕ) → c.buf i < 256)
    → c.buflen_used * 8 + c.reg_used ≡ q * 8
    → c.reg_used < 8
    → written c ≡ total
    → Reads c.buf 0 (q * 8) v
    → v ≡ total
unfolding Reads big_endian
same_number c q total v small width part number rd =
    let used : c.buflen_used ≡ q = omega (arith, width, part) in
    let none_held : c.reg_used ≡ 0 = omega (arith, width, part) in
    let zero_prefix : prefix c.buf 0 ≡ 0 = prefix-bytes c.buf 0 (small 0) in
    let start : prefix c.buf 0 * 2 ^ (q * 8) ≡ 0 =
      ap (λ t. t * 2 ^ (q * 8)) zero_prefix ∙ omega arith in
    let total_bytes : written c ≡ big_endian c.buf q =
      ap (λ r. big_endian c.buf c.buflen_used * 2 ^ r + c.reg % 2 ^ r) none_held
      ∙ omega arith
      ∙ ap (big_endian c.buf) used in
    let end : prefix c.buf (0 + q * 8) ≡ prefix c.buf (q * 8) = ap (prefix c.buf) (omega arith) in
    omega (arith, rd.0, start, end, prefix-bytes c.buf q (small q), total_bytes, number)

-- At most 64 bits that fill whole bytes of a buffer of bytes, written from its start with
-- `klbs_write_bits`, are the bits that `klbs_read_bits` then reads from its start.
pub read_bits-write_bits :
    (buf : Pointer) (length_bytes bits q : ℕ)
    → ((i : ℕ) → buf i < 256)
    → q ≤ length_bytes
    → q ≤ 8
    → (c d : Context) × (write_bits (write_set_buffer buf length_bytes) bits (q * 8) ≡ some c)
      × (read_bits (read_set_buffer c.buf length_bytes) (q * 8) ≡ some (bits % 2 ^ (q * 8), d))
unfolding write_set_buffer read_set_buffer Reads big_endian
read_bits-write_bits buf length_bytes bits q byte room fits =
    let (c, e, k) =
      write_bits-Adds (write_set_buffer buf length_bytes) bits (q * 8) (omega (arith, fits))
        (omega arith) (omega (arith, room)) in
    let small = k.bytes byte in
    let (v, d, f, rd, at_end, same) =
      read_bits-Returns (read_set_buffer c.buf length_bytes) 0 (q * 8)
        (record { place = omega arith; part = omega arith; held = λ h. absurd (omega (arith, h)) })
        small (omega (arith, fits)) (omega (arith, room)) in
    (
      c,
      d,
      e,
      f
          ∙ ap (λ n. some (n, d))
              (same_number c q (bits % 2 ^ (q * 8)) v small (k.width ∙ omega arith) k.part
                (k.number ∙ omega arith) rd),
    )
