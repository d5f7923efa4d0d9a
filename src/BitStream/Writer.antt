-- ===== src/BitStream/Writer.antt =====
-- The bits that the writer has taken are the bytes of the buffer and the low bits of the register.
use native.Mathlib.Decide.{dec_lt}
use native.Mathlib.Nat.{pow-suc, mod-add-div, div-div-eq-div-mul}
use libltntstools.Base.{
  leb, false, ℕ, zero, suc, ◌+◌, ◌*◌, ◌/◌, ◌%◌, ◌^◌, ◌≤◌, ◌<◌, ◌≡◌, refl, sym, ap, ap₂, ◌∙◌, arith,
  u8, bit_and, bit_or, some,
}
use libltntstools.Base.Bits.{bit_and_mask, bit_or_sum, double_pow}
use libltntstools.Base.Prefix.{big_endian, big_endian-suc, below_8}
use libltntstools.Packet.{Pointer, poke}
use libltntstools.BitStream.{Context, flagged, write_bit, write_bits}

-- The bits written so far, as one number.
abbrev pub written : Context → ℕ
written ctx = big_endian ctx.buf ctx.buflen_used * 2 ^ ctx.reg_used + ctx.reg % 2 ^ ctx.reg_used

-- The context that `n` more bits, the number `v`, lead to.
pub record Adds (ctx c : Context) (n v : ℕ) : Type 0 where
  pub number : written c ≡ written ctx * 2 ^ n + v
  pub width : c.buflen_used * 8 + c.reg_used ≡ ctx.buflen_used * 8 + ctx.reg_used + n
  pub part : c.reg_used < 8
  pub sized : c.buflen ≡ ctx.buflen
  pub bytes : ((i : ℕ) → ctx.buf i < 256) → (i : ℕ) → c.buf i < 256

big_endian-poke :
    (buf : Pointer) (n q x : ℕ) → n ≤ q → big_endian (poke buf q x) n ≡ big_endian buf n
unfolding big_endian
big_endian-poke buf zero q x h = refl
big_endian-poke buf (suc n) q x h =
    ap₂ (λ a b. a * 256 + b) (big_endian-poke buf n q x (omega (arith, h))) (ground (arith, h))

-- The register takes one bit.
shift_in : (reg bit : ℕ) → bit_or (u8 (reg * 2)) (bit_and bit 1) ≡ reg % 128 * 2 + bit % 2
shift_in reg bit =
    ap₂ bit_or {x = u8 (reg * 2)} {y = reg % 128 * 2 ^ 1} {u = bit_and bit 1} {v = bit % 2}
      (omega arith) (ground (arith, bit_and_mask 1 bit))
    ∙ bit_or_sum 1 (reg % 128) (bit % 2) (omega arith)

low_bits :
    (reg bit e : ℕ) (r : ℕ)
    → r < 8
    → (e * 2 ^ r + reg % 2 ^ r) * 2 + bit % 2
      ≡ e * 2 ^ (r + 1) + (reg % 128 * 2 + bit % 2) % 2 ^ (r + 1)
low_bits reg bit e =
    below_8
      (λ r.
        (e * 2 ^ r + reg % 2 ^ r) * 2 + bit % 2
        ≡ e * 2 ^ (r + 1) + (reg % 128 * 2 + bit % 2) % 2 ^ (r + 1))
      (omega arith) (omega arith) (omega arith) (omega arith) (omega arith) (omega arith)
      (omega arith) (omega arith)

module _ (ctx : Context) (bit : ℕ) (part : ctx.reg_used < 8)
    (room : ctx.buflen_used < ctx.buflen) where
  abbrev taken : ℕ
  taken = ctx.reg % 128 * 2 + bit % 2

  write_bit_part :
      ctx.reg_used < 7
      → write_bit ctx bit
        ≡ some (record ctx { overrun = ctx.overrun; reg = taken; reg_used = ctx.reg_used + 1 })
  unfolding write_bit
  write_bit_part h = ground (arith, part, room, h, shift_in ctx.reg bit)

  write_bit_whole :
      ctx.reg_used ≡ 7
      → write_bit ctx bit
        ≡ some (record ctx {
          buf = poke ctx.buf ctx.buflen_used taken;
          buflen_used = ctx.buflen_used + 1;
          reg_used = 0;
          reg = taken;
        })
  unfolding write_bit
  write_bit_whole h = ground (arith, part, room, h, shift_in ctx.reg bit)

  whole_number :
      ctx.reg_used ≡ 7
      → big_endian (poke ctx.buf ctx.buflen_used taken) (ctx.buflen_used + 1) * 2 ^ 0
          + taken % 2 ^ 0
        ≡ written ctx * 2 ^ 1 + bit % 2
  whole_number e = omega (
    arith,
    big_endian-suc (poke ctx.buf ctx.buflen_used taken) ctx.buflen_used,
    big_endian-poke ctx.buf ctx.buflen_used ctx.buflen_used taken (omega arith),
    poke-same,
    ap (λ r. big_endian ctx.buf ctx.buflen_used * 2 ^ r + ctx.reg % 2 ^ r) e,
  )
    where
      poke-same : poke ctx.buf ctx.buflen_used taken ctx.buflen_used ≡ taken
      poke-same = ground arith

  pub write_bit-Adds : (c : Context) × (write_bit ctx bit ≡ some c) × Adds ctx c 1 (bit % 2)
  unfolding big_endian
  write_bit-Adds = elim (dec_lt ctx.reg_used 7) [
    | yes h ↦ (
      record ctx { overrun = ctx.overrun; reg = taken; reg_used = ctx.reg_used + 1 },
      write_bit_part h,
      record {
        number = sym (low_bits ctx.reg bit (big_endian ctx.buf ctx.buflen_used) ctx.reg_used part);
        width = omega arith;
        part = omega (arith, h);
        sized = refl;
        bytes = λ small. small;
      },
    )
    | no h ↦ (
      record ctx {
        buf = poke ctx.buf ctx.buflen_used taken;
        buflen_used = ctx.buflen_used + 1;
        reg_used = 0;
        reg = taken;
      },
      write_bit_whole (omega (arith, h, part)),
      record {
        number = whole_number (omega (arith, h, part));
        width = omega (arith, h, part);
        part = omega arith;
        sized = refl;
        bytes = λ small i. ground (arith, small i);
      },
    )
  ]

-- One more bit of a number.
mod_double : (x i : ℕ) → x % 2 ^ suc i ≡ (x / 2 ^ i % 2) * 2 ^ i + x % 2 ^ i
mod_double x i = omega (
  arith,
  mod-add-div x (2 ^ suc i),
  mod-add-div x (2 ^ i),
  half x i,
  double_pow (x / 2 ^ suc i) i,
  parts (x / 2 ^ i) (2 ^ i),
  ap (λ q. q * 2 ^ i) (half x i),
  swap (x / 2 ^ suc i) (2 ^ suc i),
  swap (x / 2 ^ i) (2 ^ i),
)
  where
    swap : (a b : ℕ) → b * a ≡ a * b
    swap a b = omega arith

    half : (n k : ℕ) → n / 2 ^ k / 2 ≡ n / 2 ^ suc k
    half n k = div-div-eq-div-mul n (2 ^ k) 2 ∙ ap (λ t. n / t) (omega (arith, pow-suc 2 k))

    parts : (q t : ℕ) → q * t ≡ 2 * (q / 2 * t) + q % 2 * t
    parts q t = ap (λ n. n * t) {x = q} {y = q / 2 * 2 + q % 2} (omega arith) ∙ omega arith

Adds-flagged : (ctx c : Context) (n v : ℕ) → Adds ctx c n v → Adds ctx (flagged c) n v
Adds-flagged ctx c n v k = record {
  number = k.number;
  width = k.width;
  part = k.part;
  sized = k.sized;
  bytes = k.bytes;
}

join_number :
    (wa wb x v w i : ℕ) → wb ≡ wa * 2 + x → w ≡ x * 2 ^ i + v → wb * 2 ^ i + v ≡ wa * 2 ^ suc i + w
join_number wa wb x v w i e f =
    omega (arith, ap (λ t. t * 2 ^ i) e ∙ spread (2 ^ i), f, double_pow wa i)
  where
    spread : (t : ℕ) → (wa * 2 + x) * t ≡ 2 * (wa * t) + x * t
    spread t = omega arith

Adds-join :
    (a b c : Context) (x v w i : ℕ)
    → Adds a b 1 x
    → Adds b c i v
    → w ≡ x * 2 ^ i + v
    → Adds a c (suc i) w
Adds-join a b c x v w i k j e = record {
  number = j.number ∙ join_number (written a) (written b) x v w i k.number e;
  width = omega (arith, k.width, j.width);
  part = j.part;
  sized = j.sized ∙ k.sized;
  bytes = λ small. j.bytes (k.bytes small);
}

pub write_bits_more :
    (ctx c : Context) (bits i : ℕ)
    → i < 64
    → write_bit ctx (bits / 2 ^ i) ≡ some c
    → write_bits ctx bits (suc i) ≡ write_bits (flagged c) bits i
unfolding write_bits
write_bits_more ctx c bits i short e = rw (write_bits, shifts i short, e) refl
  where
    shifts : (j : ℕ) → j < 64 → leb 64 j ≡ false
    shifts j h = ground (arith, h)

-- With fewer than eight bits in the register, and room in the buffer for all the bits,
-- `klbs_write_bits` adds the low `n` bits of its argument, at most 64, to those written before, the
-- most significant first.
pub write_bits-Adds :
    (ctx : Context) (bits n : ℕ)
    → n ≤ 64
    → ctx.reg_used < 8
    → ctx.buflen_used * 8 + ctx.reg_used + n ≤ ctx.buflen * 8
    → (c : Context) × (write_bits ctx bits n ≡ some c) × Adds ctx c n (bits % 2 ^ n)
unfolding write_bits
write_bits-Adds ctx bits zero short part room = (
  ctx,
  refl,
  record {
    number = omega arith;
    width = omega arith;
    part = part;
    sized = refl;
    bytes = λ small. small;
  },
)
write_bits-Adds ctx bits (suc i) short part room =
    let (c, e, k) = write_bit-Adds ctx (bits / 2 ^ i) part (omega (arith, room)) in
    let (d, f, j) =
      write_bits-Adds (flagged c) bits i (omega (arith, short)) k.part
        (omega (arith, k.width, k.sized, room)) in
    (
      d,
      write_bits_more ctx c bits i (omega (arith, short)) e ∙ f,
      Adds-join ctx (flagged c) d (bits / 2 ^ i % 2) (bits % 2 ^ i) (bits % 2 ^ suc i) i
          (Adds-flagged ctx c 1 (bits / 2 ^ i % 2) k) j (mod_double bits i),
    )
