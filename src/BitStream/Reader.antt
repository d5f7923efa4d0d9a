-- ===== src/BitStream/Reader.antt =====
-- The bits that the reader returns are those of the buffer, read as one number.
use native.Mathlib.Nat.{pow-le-pow_right}
use libltntstools.Base.{
  ℕ, zero, suc, ◌+◌, ◌-◌, ◌*◌, ◌/◌, ◌%◌, ◌^◌, ◌≤◌, ◌<◌, ◌≡◌, refl, sym, ap, ◌∙◌, subst, arith, u8,
  u64, ltb, ◌==◌, ◌&&◌, if◌then◌else◌, bit_and, bit_or, Option, some, true, false,
}
use native.Mathlib.Decide.{dec_lt}
use libltntstools.Base.Bits.{bit_and_bit, bit_or_sum}
use libltntstools.Base.Prefix.{
  Reads, Reads-none, Reads-suc, Reads-byte, bit_at, bit_at-small, below_8,
}
use libltntstools.BitStream.{
  Context, flagged, loaded, read_bit, read_loop, read_byte_aligned, read_bits,
}

-- `reg_used` bits of the byte before `buflen_used` are still to come, at the top of the register.
pub record IsAt (ctx : Context) (p : ℕ) : Type 0 where
  pub place : p + ctx.reg_used ≡ ctx.buflen_used * 8
  pub part : ctx.reg_used < 8
  pub held : 0 < ctx.reg_used → ctx.reg ≡ ctx.buf (p / 8) * 2 ^ (8 - ctx.reg_used) % 256

-- The same buffer and length.
pub record SameBuffer (a b : Context) : Type 0 where
  pub bytes : b.buf ≡ a.buf
  pub sized : b.buflen ≡ a.buflen

-- A byte with `s + 1` bits to come, at the top of the register.
top_bit :
    (x s : ℕ) → s < 8 → (if bit_and (x * 2 ^ (7 - s) % 256) 0x80 == 0 then 0 else 1) ≡ x / 2 ^ s % 2
top_bit x s h = ground (arith, bit_and_bit 7 (x * 2 ^ (7 - s) % 256), top x s h)
  where
    top : (y r : ℕ) → r < 8 → y * 2 ^ (7 - r) % 256 / 128 % 2 ≡ y / 2 ^ r % 2
    top y =
        below_8 (λ r. y * 2 ^ (7 - r) % 256 / 128 % 2 ≡ y / 2 ^ r % 2) (omega arith) (omega arith)
          (omega arith) (omega arith) (omega arith) (omega arith) (omega arith) (omega arith)

next_top : (x s : ℕ) → s < 8 → x < 256 → u8 (x * 2 ^ (7 - s) % 256 * 2) ≡ x * 2 ^ (8 - s) % 256
next_top x s h small =
    below_8 (λ r. u8 (x * 2 ^ (7 - r) % 256 * 2) ≡ x * 2 ^ (8 - r) % 256) (omega arith)
      (omega arith) (omega arith) (omega arith) (omega arith) (omega arith) (omega arith)
      (omega arith) s h

module _ (ctx : Context) (p : ℕ) (k : IsAt ctx p) (byte : (i : ℕ) → ctx.buf i < 256)
    (inside : p < ctx.buflen * 8) where
  held_at : 0 < ctx.reg_used → ctx.reg ≡ ctx.buf (p / 8) * 2 ^ (7 - (ctx.reg_used - 1)) % 256
  held_at h =
      k.held h
      ∙ ap (λ e. ctx.buf (p / 8) * 2 ^ e % 256) {x = 8 - ctx.reg_used} {y = 7 - (ctx.reg_used - 1)}
          (omega (arith, h, k.part))

  place_of : (s : ℕ) → s < 8 → (p + s + 1) % 8 ≡ 0 → bit_at ctx.buf p ≡ ctx.buf (p / 8) / 2 ^ s % 2
  unfolding bit_at
  place_of s h e =
      ap (λ j. ctx.buf (p / 8) / 2 ^ j % 2) {x = 7 - p % 8} {y = s} (omega (arith, h, e))

  waiting_bit : 0 < ctx.reg_used → (if bit_and ctx.reg 0x80 == 0 then 0 else 1) ≡ bit_at ctx.buf p
  waiting_bit h =
      ap (λ r. if bit_and r 0x80 == 0 then 0 else 1) (held_at h)
      ∙ top_bit (ctx.buf (p / 8)) (ctx.reg_used - 1) (omega (arith, k.part))
      ∙ sym (place_of (ctx.reg_used - 1) (omega (arith, k.part)) (omega (arith, k.place, h)))

  waiting :
      0 < ctx.reg_used
      → read_bit ctx
        ≡ some (
          bit_at ctx.buf p,
          record ctx {
            overrun = if ltb ctx.buflen ctx.buflen_used then true else ctx.overrun;
            reg = u8 (ctx.reg * 2);
            reg_used = ctx.reg_used - 1;
          },
        )
  unfolding read_bit loaded
  waiting h = ground (arith, h, k.part, waiting_bit h)

  fresh_bit :
      ¬ 0 < ctx.reg_used
      → (if bit_and (ctx.buf ctx.buflen_used) 0x80 == 0 then 0 else 1) ≡ bit_at ctx.buf p
  fresh_bit h =
      ap (λ r. if bit_and r 0x80 == 0 then 0 else 1) {x = ctx.buf ctx.buflen_used}
        {y = ctx.buf (p / 8) * 2 ^ (7 - 7) % 256}
        (ap ctx.buf {x = ctx.buflen_used} {y = p / 8} (omega (arith, h, k.place))
          ∙ omega (arith, byte (p / 8)))
      ∙ top_bit (ctx.buf (p / 8)) 7 (omega arith)
      ∙ sym (place_of 7 (omega arith) (omega (arith, k.place, h)))

  fresh :
      ¬ 0 < ctx.reg_used
      → read_bit ctx
        ≡ some (
          bit_at ctx.buf p,
          record ctx {
            buflen_used = ctx.buflen_used + 1;
            reg = u8 (ctx.buf ctx.buflen_used * 2);
            reg_used = 7;
          },
        )
  unfolding read_bit loaded
  fresh h = ground (arith, h, k.place, inside, fresh_bit h)

  shifted :
      0 < ctx.reg_used
      → 0 < ctx.reg_used - 1
      → u8 (ctx.reg * 2) ≡ ctx.buf ((p + 1) / 8) * 2 ^ (8 - (ctx.reg_used - 1)) % 256
  shifted h m =
      ap (λ r. u8 (r * 2)) (held_at h)
      ∙ next_top (ctx.buf (p / 8)) (ctx.reg_used - 1) (omega (arith, k.part)) (byte (p / 8))
      ∙ ap (λ j. ctx.buf j * 2 ^ (8 - (ctx.reg_used - 1)) % 256) {x = p / 8} {y = (p + 1) / 8}
          (omega (arith, k.place, h, m, k.part))

  shifted_fresh :
      ¬ 0 < ctx.reg_used
      → u8 (ctx.buf ctx.buflen_used * 2) ≡ ctx.buf ((p + 1) / 8) * 2 ^ (8 - 7) % 256
  shifted_fresh h =
      ap (λ j. u8 (ctx.buf j * 2)) {x = ctx.buflen_used} {y = (p + 1) / 8}
        (omega (arith, h, k.place))
      ∙ omega arith

  pub read_bit_lem :
      (c : Context) × (read_bit ctx ≡ some (bit_at ctx.buf p, c))
      × IsAt c (p + 1)
      × SameBuffer ctx c
  unfolding read_bit loaded
  read_bit_lem = elim (dec_lt 0 ctx.reg_used) [
    | yes h ↦ (
      record ctx {
        overrun = if ltb ctx.buflen ctx.buflen_used then true else ctx.overrun;
        reg = u8 (ctx.reg * 2);
        reg_used = ctx.reg_used - 1;
      },
      waiting h,
      record {
        place = omega (arith, k.place, h);
        part = omega (arith, k.part);
        held = λ m. shifted h m;
      },
      record { bytes = refl; sized = refl },
    )
    | no h ↦ (
      record ctx {
        buflen_used = ctx.buflen_used + 1;
        reg = u8 (ctx.buf ctx.buflen_used * 2);
        reg_used = 7;
      },
      fresh h,
      record { place = omega (arith, k.place, h); part = omega arith; held = λ m. shifted_fresh h },
      record { bytes = refl; sized = refl },
    )
  ]

shift_in : (k n r b : ℕ) → k + n < 64 → r < 2 ^ k → b < 2 → bit_or (u64 (r * 2)) b ≡ r * 2 + b
shift_in k n r b h small bit =
    ap (λ t. bit_or t b) {x = u64 (r * 2)} {y = r * 2}
      (omega
        (arith, small, pow-le-pow_right {n = 2} (omega arith) {i = k} {j = 63} (omega (arith, h))))
    ∙ bit_or_sum 1 r b bit

IsAt-flagged : (c : Context) (p : ℕ) → IsAt c p → IsAt (flagged c) p
IsAt-flagged c p k = record { place = k.place; part = k.part; held = k.held }

-- What `n` reads from bit `p` on return, and where they end.
abbrev pub Returns : (Option (ℕ × Context)) → Context → ℕ → ℕ → Type 0
Returns call ctx p n =
    (v : ℕ) × (c : Context) × (call ≡ some (v, c))
    × Reads ctx.buf p n v
    × IsAt c (p + n)
    × SameBuffer ctx c

read_loop_more :
    (ctx c : Context) (n r b : ℕ)
    → read_bit ctx ≡ some (b, c)
    → read_loop (suc n) r ctx ≡ read_loop n (bit_or (u64 (r * 2)) b) (flagged c)
unfolding read_loop
read_loop_more ctx c n r b e = rw (read_loop, e) refl

read_loop_lem :
    (ctx : Context) (p q k n r : ℕ)
    → IsAt ctx q
    → ((i : ℕ) → ctx.buf i < 256)
    → q ≡ p + k
    → k + n ≤ 64
    → p + k + n ≤ ctx.buflen * 8
    → Reads ctx.buf p k r
    → Returns (read_loop n r ctx) ctx p (k + n)
unfolding read_loop Reads
read_loop_lem ctx p q k zero r here byte e fits inside rd = (
  r,
  ctx,
  refl,
  subst (λ m. Reads ctx.buf p m r) {x = k} {y = k + 0} (omega arith) rd,
  subst (IsAt ctx) (omega (arith, e)) here,
  record { bytes = refl; sized = refl },
)
read_loop_lem ctx p q k (suc n) r here byte e fits inside rd =
    let (c, got, there, same) = read_bit_lem ctx q here byte (omega (arith, e, inside)) in
    let b = bit_at ctx.buf (p + k) in
    let (v, d, f, w, at_end, same_end) =
      read_loop_lem (flagged c) p (q + 1) (suc k) n (r * 2 + b) (IsAt-flagged c (q + 1) there)
        (λ i. subst (λ (g : ℕ → ℕ). g i < 256) (sym same.bytes) (byte i)) (omega (arith, e))
        (omega (arith, fits)) (omega (arith, inside, same.sized))
        (subst (λ (g : ℕ → ℕ). Reads g p (suc k) (r * 2 + b)) (sym same.bytes)
          (Reads-suc ctx.buf p byte k r rd)) in
    (
      v,
      d,
      read_loop_more ctx c n r (bit_at ctx.buf q) got
          ∙ ap (λ x. read_loop n x (flagged c))
              (ap (λ i. bit_or (u64 (r * 2)) (bit_at ctx.buf i)) e
                ∙ shift_in k n r b (omega (arith, fits)) rd.1 (bit_at-small ctx.buf (p + k)))
          ∙ f,
      subst (λ m. Reads ctx.buf p m v) {x = suc k + n} {y = k + suc n} (omega arith)
          (subst (λ (g : ℕ → ℕ). Reads g p (suc k + n) v) same.bytes w),
      subst (IsAt d) {x = p + (suc k + n)} {y = p + (k + suc n)} (omega arith) at_end,
      record { bytes = same_end.bytes ∙ same.bytes; sized = same_end.sized ∙ same.sized },
    )

-- From a context at bit `p` of a buffer of bytes, `klbs_read_bits` of at most 64 bits that the buffer has returns the number
-- that they make in the buffer, the most significant bit first, and leaves the context behind
-- them, the buffer as it was.
pub read_bits-Returns :
    (ctx : Context) (p n : ℕ)
    → IsAt ctx p
    → ((i : ℕ) → ctx.buf i < 256)
    → n ≤ 64
    → p + n ≤ ctx.buflen * 8
    → Returns (read_bits ctx n) ctx p n
unfolding read_bits read_byte_aligned
read_bits-Returns ctx p n here byte fits inside =
    elim ((n == 8) && (ctx.reg_used == 0))
        as (λ b.
          ((n == 8) && (ctx.reg_used == 0)) ≡ b
          → Returns (if b then read_byte_aligned ctx else read_loop n 0 ctx) ctx p n) [
            | true ↦ λ e.
                (let n8 : n ≡ 8 = ground (arith, e) in
                  let none_used : ctx.reg_used ≡ 0 = ground (arith, e) in
                  let at_byte : p ≡ ctx.buflen_used * 8 = omega (arith, here.place, none_used) in
                  (
                    ctx.buf ctx.buflen_used,
                    record ctx { buflen_used = ctx.buflen_used + 1 },
                    ground (arith, inside, n8, at_byte),
                    subst (λ m. Reads ctx.buf p m (ctx.buf ctx.buflen_used)) (sym n8)
                        (Reads-byte ctx.buf p ctx.buflen_used at_byte (byte ctx.buflen_used)
                          (byte (ctx.buflen_used + 1))),
                    record {
                      place = omega (arith, here.place, n8);
                      part = here.part;
                      held = λ h. absurd (omega (arith, h, none_used));
                    },
                    record { bytes = refl; sized = refl },
                  ))
            | false ↦ λ e.
                subst (Returns (read_loop n 0 ctx) ctx p) {x = 0 + n} {y = n} (omega arith) (
                  read_loop_lem ctx p p 0 n 0 here byte (omega arith) (omega (arith, fits))
                    (omega (arith, inside)) (Reads-none ctx.buf p byte))
          ]
      refl
