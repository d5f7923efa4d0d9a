-- ===== src/BitStream/Complete.antt =====
-- What `klbs_write_buffer_complete` adds.
use libltntstools.Base.{
  ℕ, zero, suc, ◌+◌, ◌-◌, ◌*◌, ◌/◌, ◌^◌, ◌≤◌, ◌<◌, ◌≡◌, refl, sym, ap, ◌∙◌, arith, some,
}
use libltntstools.BitStream.{
  Context, flagged, write_bit, write_bits, complete_loop, write_buffer_complete,
}
use libltntstools.BitStream.Writer.{Adds, write_bits-Adds, write_bit-Adds, write_bits_more}

complete_loop_more :
    (ctx c : Context) (n : ℕ)
    → write_bit ctx 0 ≡ some c
    → complete_loop (suc n) ctx ≡ complete_loop n (flagged c)
unfolding complete_loop
complete_loop_more ctx c n e = rw (complete_loop, e) refl

complete_loop-eq-write_bits :
    (n : ℕ) (ctx : Context)
    → n ≤ 64
    → ctx.reg_used < 8
    → ctx.buflen_used * 8 + ctx.reg_used + n ≤ ctx.buflen * 8
    → complete_loop n ctx ≡ write_bits ctx 0 n
unfolding complete_loop write_bits
complete_loop-eq-write_bits zero ctx short part room = refl
complete_loop-eq-write_bits (suc n) ctx short part room =
    let (c, e, k) = write_bit-Adds ctx 0 part (omega (arith, room)) in
    complete_loop_more ctx c n e
    ∙ complete_loop-eq-write_bits n (flagged c) (omega (arith, short)) k.part
        (omega (arith, k.width, k.sized, room))
    ∙ sym (
        write_bits_more ctx c 0 n (omega (arith, short))
          (ap (write_bit ctx) {x = 0 / 2 ^ n} {y = 0} (omega arith) ∙ e))

-- In the middle of a byte, with a byte to spare, `klbs_write_buffer_complete` adds one zero bit more
-- than the byte lacks: the byte is stored, and one bit is left in the register.
pub write_buffer_complete-Adds :
    (ctx : Context)
    → 0 < ctx.reg_used
    → ctx.reg_used < 8
    → ctx.buflen_used + 2 ≤ ctx.buflen
    → (c : Context) × (write_buffer_complete ctx ≡ some c)
      × Adds ctx c (9 - ctx.reg_used) 0
      × (c.buflen_used ≡ ctx.buflen_used + 1)
      × (c.reg_used ≡ 1)
unfolding write_buffer_complete
write_buffer_complete-Adds ctx held part room =
    let n = 9 - ctx.reg_used in
    let (c, e, k) = write_bits-Adds ctx 0 n (omega arith) part (omega (arith, held, part, room)) in
    (
      c,
      ground (
        arith,
        held,
        complete_loop-eq-write_bits n ctx (omega arith) part (omega (arith, held, part, room)) ∙ e,
      ),
      record {
        number = k.number ∙ omega arith;
        width = k.width;
        part = k.part;
        sized = k.sized;
        bytes = k.bytes;
      },
      omega (arith, k.width, k.part, held, part),
      omega (arith, k.width, k.part, held, part),
    )
