-- ===== src/BitStream.antt =====
-- src/libltntstools/klbitstream_readwriter.h: bits written to and read from a buffer, with the
-- overrun macros as the file sets them: an overrun is flagged and the call goes on. `none` is an
-- assertion that fails or an access past the end of the buffer, which C leaves undefined.
pub mod Reader
pub mod Writer
pub mod Complete
pub mod RoundTrip
pub mod Fields
mod Tests
use libltntstools.Base.{
  ℕ, zero, suc, ◌+◌, ◌-◌, ◌*◌, ◌/◌, ◌%◌, ◌^◌, ltb, leb, ◌==◌, ◌&&◌, ◌||◌, if◌then◌else◌, bit_and,
  bit_or, u8, u32, u64, Bool, true, false, Option, none, some,
}
use libltntstools.Packet.{Pointer, poke}

infixl 5 ◌>>=◌
abbrev ◌>>=◌ {ℓ κ} : {A : Type ℓ} {B : Type κ} → Option A → (A → Option B) → Option B
none >>= f = none
some a >>= f = f a

pub record Context : Type 0 where
  pub buf : Pointer
  pub buflen : ℕ
  pub buflen_used : ℕ
  pub reg_used : ℕ
  pub reg : ℕ
  pub overrun : Bool

-- `klbs_init`, `klbs_write_set_buffer` and `klbs_read_set_buffer`
unfoldable pub write_set_buffer : Pointer → ℕ → Context
write_set_buffer buf length_bytes = record {
  buf = buf;
  buflen = length_bytes;
  buflen_used = 0;
  reg_used = 0;
  reg = 0;
  overrun = false;
}

unfoldable pub read_set_buffer : Pointer → ℕ → Context
unfolding write_set_buffer
read_set_buffer buf length_bytes = write_set_buffer buf length_bytes

-- The test that follows each bit.
abbrev pub flagged : Context → Context
flagged ctx = record ctx { overrun = if leb ctx.buflen ctx.buflen_used then true else ctx.overrun }

-- The shift of `klbs_write_bit`.
abbrev pub shifted_in : Context → ℕ → Context
shifted_in ctx bit =
    if ltb ctx.reg_used 8
    then record ctx { reg = bit_or (u8 (ctx.reg * 2)) (bit_and bit 1); reg_used = ctx.reg_used + 1 }
    else ctx

-- `klbs_write_bit`
pub write_bit : Context → ℕ → Option Context
write_bit ctx bit =
    let c = shifted_in (flagged ctx) bit in
    if ltb ctx.buflen ctx.buflen_used
    then none
    else if c.reg_used == 8
    then (if leb c.buflen c.buflen_used
        then none
        else some (record c {
          buf = poke c.buf c.buflen_used c.reg;
          buflen_used = c.buflen_used + 1;
          reg_used = 0;
        }))
    else some c

-- The loop of `klbs_write_byte_stuff`; the fuel is the bits of a byte.
pub write_stuff_loop : ℕ → Context → ℕ → Option Context
unfolding write_bit
write_stuff_loop zero ctx bit = some ctx
write_stuff_loop (suc fuel) ctx bit =
    if ctx.reg_used == 0
    then some ctx
    else (do c ← write_bit ctx bit; write_stuff_loop fuel (flagged c) bit)

-- `klbs_write_byte_stuff`
pub write_byte_stuff : Context → ℕ → Option Context
unfolding write_stuff_loop
write_byte_stuff ctx bit = write_stuff_loop 8 ctx bit

-- `klbs_write_bits`; a shift by 64 or more is undefined, and the fault is `none`.
pub write_bits : Context → ℕ → ℕ → Option Context
unfolding write_bit
write_bits ctx bits zero = some ctx
write_bits ctx bits (suc i) =
    if leb 64 i then none else (do c ← write_bit ctx (bits / 2 ^ i); write_bits (flagged c) bits i)

-- `n` rounds of the loop of `klbs_write_buffer_complete`.
pub complete_loop : ℕ → Context → Option Context
unfolding write_bit
complete_loop zero ctx = some ctx
complete_loop (suc n) ctx = (do c ← write_bit ctx 0; complete_loop n (flagged c))

-- `klbs_write_buffer_complete`
pub write_buffer_complete : Context → Option Context
unfolding complete_loop
write_buffer_complete ctx =
    if ctx.reg_used == 0 then some ctx else complete_loop (9 - ctx.reg_used) ctx

-- The register filled from the buffer, in `klbs_read_bit`.
pub loaded : Context → Option Context
loaded ctx =
    if ctx.reg_used == 0
    then (if leb ctx.buflen ctx.buflen_used
        then none
        else some (record ctx {
          reg = ctx.buf ctx.buflen_used;
          buflen_used = ctx.buflen_used + 1;
          reg_used = 8;
        }))
    else some
        (record ctx { overrun = if ltb ctx.buflen ctx.buflen_used then true else ctx.overrun })

-- `klbs_read_bit`
pub read_bit : Context → Option (ℕ × Context)
unfolding loaded
read_bit ctx = (do
  c ← loaded ctx
  some (
      if leb c.reg_used 8
      then (
        if bit_and c.reg 0x80 == 0 then 0 else 1,
        record c { reg = u8 (c.reg * 2); reg_used = c.reg_used - 1 },
      )
      else (0, c)))

-- `klbs_read_byte_aligned`
pub read_byte_aligned : Context → Option (ℕ × Context)
read_byte_aligned ctx =
    if leb ctx.buflen ctx.buflen_used
    then none
    else some (ctx.buf ctx.buflen_used, record ctx { buflen_used = ctx.buflen_used + 1 })

-- `n` rounds of the loop of `klbs_read_bits`.
pub read_loop : ℕ → ℕ → Context → Option (ℕ × Context)
unfolding read_bit
read_loop zero bits ctx = some (bits, ctx)
read_loop (suc n) bits ctx = (do
  (b, c) ← read_bit ctx
  read_loop n (bit_or (u64 (bits * 2)) b) (flagged c))

-- `klbs_read_bits`
pub read_bits : Context → ℕ → Option (ℕ × Context)
unfolding read_loop read_byte_aligned
read_bits ctx bitcount =
    if (bitcount == 8) && (ctx.reg_used == 0)
    then read_byte_aligned ctx
    else read_loop bitcount 0 ctx

-- `klbs_peek_bits`
pub peek_bits : Context → ℕ → Option (ℕ × Context)
unfolding read_bits
peek_bits ctx bitcount =
    let c = record ctx {
      overrun = if leb ctx.buflen (u32 (ctx.buflen_used + bitcount)) then true else ctx.overrun;
    } in
    (do (v, copy) ← read_bits c bitcount; some (v, c))

-- The loop of `klbs_read_byte_stuff`; the fuel is the bits of a byte.
pub read_stuff_loop : ℕ → Context → Option Context
unfolding read_bit
read_stuff_loop zero ctx = some ctx
read_stuff_loop (suc fuel) ctx =
    if ctx.reg_used == 0
    then some ctx
    else (do (b, c) ← read_bit ctx; read_stuff_loop fuel (flagged c))

-- `klbs_read_byte_stuff`
pub read_byte_stuff : Context → Option Context
unfolding read_stuff_loop
read_byte_stuff ctx = read_stuff_loop 8 ctx

-- `klbs_bitmove`: the destination and the source.
pub bitmove : Context → Context → ℕ → Option (Context × Context)
unfolding write_bit read_bit
bitmove dst src zero = some (dst, src)
bitmove dst src (suc bits) = (do (b, s) ← read_bit src; d ← write_bit dst b; bitmove d s bits)

-- `klbs_bitcopy`: the destination and the source, which differs from before in its flag only.
pub bitcopy : Context → Context → ℕ → Option (Context × Context)
unfolding bitmove
bitcopy dst src bits =
    let over = leb src.buflen (src.buflen_used + bits) || leb dst.buflen (dst.buflen_used + bits) in
    (do
      (d, copy) ← bitmove (record dst { overrun = over || dst.overrun }) src bits
      some (d, record src { overrun = over || src.overrun }))
