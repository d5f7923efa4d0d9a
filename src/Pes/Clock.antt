-- ===== src/Pes/Clock.antt =====
-- Reading what was written: a stream that holds a list of fields, and the 33-bit clocks.
use libltntstools.Base.{
  ℕ, ◌+◌, ◌*◌, ◌/◌, ◌%◌, ◌^◌, ◌≤◌, ◌<◌, ◌≡◌, refl, sym, subst, ap, ◌∙◌, arith, u64, bit_or, some,
  List, [], ◌∷◌, ◌++◌, map,
}
use libltntstools.Base.Bits.{bit_or_sum}
use libltntstools.Base.Int.{pos}
use libltntstools.BitStream.{Context}
use libltntstools.BitStream.Reader.{IsAt, SameBuffer}
use libltntstools.BitStream.Fields.{
  Field, Holds, AllNarrow, read_fields, widths, values, total, read_fields-Holds,
}
use libltntstools.Pes.Pack.{field, write33bit_ts, int64_bits}
use libltntstools.Pes.Parse.{marked, read33bit_ts}

-- The stream stands at bit `p`, where its buffer holds the fields.
pub record IsReading (bs : Context) (p : ℕ) (fs : List Field) : Type 0 where
  pub at : IsAt bs p
  pub bytes : (i : ℕ) → bs.buf i < 256
  pub narrow : AllNarrow fs
  pub room : p + total fs ≤ bs.buflen * 8
  pub holds : Holds bs.buf p fs

pub total-append : (fs gs : List Field) → total (fs ++ gs) ≡ total fs + total gs
total-append [] gs = omega arith
total-append (f ∷ fs) gs = omega (arith, total-append fs gs)

AllNarrow-parts : (fs gs : List Field) → AllNarrow (fs ++ gs) → AllNarrow fs × AllNarrow gs
AllNarrow-parts [] gs h = (tt, h)
AllNarrow-parts (f ∷ fs) gs (h, hs) = let (a, b) = AllNarrow-parts fs gs hs in ((h, a), b)

Holds-parts :
    (buf : ℕ → ℕ) (p : ℕ) (fs gs : List Field)
    → Holds buf p (fs ++ gs)
    → Holds buf p fs × Holds buf (p + total fs) gs
Holds-parts buf p [] gs h = (tt, subst (λ q. Holds buf q gs) {x = p} {y = p + 0} (omega arith) h)
Holds-parts buf p (f ∷ fs) gs (h, hs) =
    let (a, b) = Holds-parts buf (p + f.width) fs gs hs in
    (
      (h, a),
      subst (λ q. Holds buf q gs) {x = p + f.width + total fs} {y = p + (f.width + total fs)}
          (omega arith) b,
    )

-- The first fields are read, and the others are left.
pub reads_first :
    (bs : Context) (p : ℕ) (fs gs : List Field)
    → IsReading bs p (fs ++ gs)
    → (c : Context) × (read_fields bs (widths fs) ≡ some (values fs, c))
      × IsReading c (p + total fs) gs
      × SameBuffer bs c
reads_first bs p fs gs k =
    let (n₁, n₂) = AllNarrow-parts fs gs k.narrow in
    let (h₁, h₂) = Holds-parts bs.buf p fs gs k.holds in
    let sum = total-append fs gs in
    let (c, e, at, same) =
      read_fields-Holds bs p fs k.at k.bytes n₁ (omega (arith, k.room, sum)) h₁ in
    (
      c,
      e,
      record {
        at = at;
        bytes = subst (λ b. (i : ℕ) → b i < 256) (sym same.bytes) k.bytes;
        narrow = n₂;
        room = omega (arith, k.room, sum, same.sized);
        holds = subst (λ b. Holds b (p + total fs) gs) (sym same.bytes) h₂;
      },
      same,
    )

joined_clock :
    (v : ℕ)
    → v < 2 ^ 33
    → bit_or
        (bit_or
          (u64 (int64_bits (pos v) / 2 ^ 30 % 2 ^ 3 * 2 ^ 30))
          (u64 (int64_bits (pos v) / 2 ^ 15 % 2 ^ 15 * 2 ^ 15)))
        (int64_bits (pos v) % 2 ^ 15)
      ≡ v
joined_clock v h = ground (
  arith,
  h,
  bit_or_sum 30 (v / 2 ^ 30) (v / 2 ^ 15 % 2 ^ 15 * 2 ^ 15) (omega arith),
  bit_or_sum 15 (v / 2 ^ 15) (v % 2 ^ 15) (omega arith),
)

marked-Holds :
    (bs : Context) (p v n : ℕ) (gs : List Field)
    → IsReading bs p (field v n ∷ field 1 1 ∷ gs)
    → (c : Context) × (marked bs n ≡ some (some (v % 2 ^ n), c))
      × IsReading c (p + (n + 1)) gs
      × SameBuffer bs c
marked-Holds bs p v n gs k =
    let (c, e, k', same) = reads_first bs p (field v n ∷ field 1 1 ∷ []) gs k in
    (
      c,
      rw (marked, e) refl,
      subst (λ q. IsReading c q gs) {x = p + (n + (1 + 0))} {y = p + (n + 1)} (omega arith) k',
      same,
    )

-- A clock of 33 bits that the stream holds as it is written is read back.
pub read33bit_ts-Holds :
    (bs : Context) (p v : ℕ) (gs : List Field)
    → v < 2 ^ 33
    → IsReading bs p (write33bit_ts (pos v) ++ gs)
    → (c : Context) × (read33bit_ts bs ≡ some (pos v, c))
      × IsReading c (p + 36) gs
      × SameBuffer bs c
unfolding read33bit_ts
read33bit_ts-Holds bs p v gs small k =
    let w = int64_bits (pos v) in
    let (c₁, e₁, k₁, s₁) = marked-Holds bs p (w / 2 ^ 30) 3 _ k in
    let (c₂, e₂, k₂, s₂) = marked-Holds c₁ (p + 4) (w / 2 ^ 15) 15 _ k₁ in
    let (c₃, e₃, k₃, s₃) = marked-Holds c₂ (p + 4 + 16) w 15 gs k₂ in
    (
      c₃,
      rw (read33bit_ts, e₁, e₂, e₃) (ap (λ n. some (pos n, c₃)) (joined_clock v small)),
      subst (λ q. IsReading c₃ q gs) {x = p + 4 + 16 + 16} {y = p + 36} (omega arith) k₃,
      record { bytes = s₃.bytes ∙ s₂.bytes ∙ s₁.bytes; sized = s₃.sized ∙ s₂.sized ∙ s₁.sized },
    )

pub AllNarrow-append : (fs gs : List Field) → AllNarrow fs → AllNarrow gs → AllNarrow (fs ++ gs)
AllNarrow-append [] gs h k = k
AllNarrow-append (f ∷ fs) gs (h, hs) k = (h, AllNarrow-append fs gs hs k)

pub AllNarrow-bytes : (xs : List ℕ) → AllNarrow (map (λ x. field x 8) xs)
AllNarrow-bytes [] = tt
AllNarrow-bytes (x ∷ xs) = (omega arith, AllNarrow-bytes xs)
