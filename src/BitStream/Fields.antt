-- ===== src/BitStream/Fields.antt =====
-- Several fields written one after the other, and read back.
use native.Mathlib.Nat.{
  mul-add-div_right, mul-add-mod_self_right, mod-eq_of_lt, div-eq_of_lt, mod-lt, one-le-pow,
  mul-le-mul_right,
}
use libltntstools.Base.{
  ℕ, zero, suc, ◌+◌, ◌*◌, ◌/◌, ◌%◌, ◌^◌, ◌≤◌, ◌<◌, ◌≡◌, refl, sym, subst, ap, ◌∙◌, arith, Option,
  none, some, List, [], ◌∷◌,
}
use libltntstools.Base.Bits.{double_pow}
use libltntstools.Base.Prefix.{Reads, Reads-some, prefix, prefix-bytes, big_endian}
use libltntstools.Packet.{Pointer}
use libltntstools.BitStream.{Context, write_bits, read_bits, write_set_buffer, read_set_buffer}
use libltntstools.BitStream.Writer.{Adds, written, write_bits-Adds}
use libltntstools.BitStream.Reader.{IsAt, SameBuffer, read_bits-Returns}

-- One call of `klbs_write_bits`: the bits and their number.
pub record Field : Type 0 where
  pub bits : ℕ
  pub width : ℕ

-- The calls one after the other.
unfoldable pub write_fields : Context → List Field → Option Context
write_fields ctx [] = some ctx
write_fields ctx (f ∷ fs) = elim (write_bits ctx f.bits f.width) [
  | none ↦ none
  | some c ↦ write_fields c fs
]

-- The calls of `klbs_read_bits` for these numbers of bits, and what they return.
unfoldable pub read_fields : Context → List ℕ → Option (List ℕ × Context)
read_fields ctx [] = some ([], ctx)
read_fields ctx (n ∷ ns) = elim (read_bits ctx n) [
  | none ↦ none
  | some (v, c) ↦ elim (read_fields c ns) [ none ↦ none | some (vs, d) ↦ some (v ∷ vs, d) ]
]

abbrev pub widths : List Field → List ℕ
widths [] = []
widths (f ∷ fs) = f.width ∷ widths fs

-- What the reader gets of them.
abbrev pub values : List Field → List ℕ
values [] = []
values (f ∷ fs) = f.bits % 2 ^ f.width ∷ values fs

abbrev pub total : List Field → ℕ
total [] = 0
total (f ∷ fs) = f.width + total fs

-- The fields as one number.
abbrev pub number_of : List Field → ℕ
number_of [] = 0
number_of (f ∷ fs) = f.bits % 2 ^ f.width * 2 ^ total fs + number_of fs

abbrev pub AllNarrow : List Field → Type 0
AllNarrow [] = Unit {0}
AllNarrow (f ∷ fs) = (f.width ≤ 64) × AllNarrow fs

pow_split : (a n m : ℕ) → a * 2 ^ (n + m) ≡ a * 2 ^ n * 2 ^ m
pow_split a n zero = ap (λ k. a * 2 ^ k) {x = n + 0} {y = n} (omega arith) ∙ omega arith
pow_split a n (suc m) =
    ap (λ k. a * 2 ^ k) {x = n + suc m} {y = suc (n + m)} (omega arith)
    ∙ omega (arith, double_pow a (n + m), double_pow (a * 2 ^ n) m, pow_split a n m)

-- A number is taken apart in one way.
same_parts : (m a b v w : ℕ) → v < m → w < m → a * m + v ≡ b * m + w → (a ≡ b) × (v ≡ w)
same_parts m a b v w h k e =
    let q : (x y : ℕ) → y < m → (x * m + y) / m ≡ x =
      λ x y l. mul-add-div_right (omega (arith, l)) x y ∙ omega (arith, div-eq_of_lt l) in
    let r : (x y : ℕ) → y < m → (x * m + y) % m ≡ y =
      λ x y l. mul-add-mod_self_right x m y ∙ mod-eq_of_lt l in
    (sym (q a v h) ∙ ap (λ t. t / m) e ∙ q b w k, sym (r a v h) ∙ ap (λ t. t % m) e ∙ r b w k)

field_small : (f : Field) → f.bits % 2 ^ f.width < 2 ^ f.width
field_small f = mod-lt f.bits (one-le-pow f.width 2 (omega arith))

number_of-small : (fs : List Field) → number_of fs < 2 ^ total fs
number_of-small [] = omega arith
number_of-small (f ∷ fs) = omega (
  arith,
  number_of-small fs,
  pow_split 1 f.width (total fs),
  mul-le-mul_right (2 ^ total fs) (field_small f),
)

pub write_fields-Adds :
    (ctx : Context) (fs : List Field)
    → AllNarrow fs
    → ctx.reg_used < 8
    → ctx.buflen_used * 8 + ctx.reg_used + total fs ≤ ctx.buflen * 8
    → (c : Context) × (write_fields ctx fs ≡ some c) × Adds ctx c (total fs) (number_of fs)
unfolding write_fields
write_fields-Adds ctx [] narrow part room = (
  ctx,
  refl,
  record { number = omega arith; width = omega arith; part = part; sized = refl; bytes = λ h. h },
)
write_fields-Adds ctx (f ∷ fs) narrow part room =
    let (c, e, k) = write_bits-Adds ctx f.bits f.width narrow.0 part (omega (arith, room)) in
    let (d, e', l) =
      write_fields-Adds c fs narrow.1 k.part (omega (arith, k.width, k.sized, room)) in
    (
      d,
      rw (write_fields, e) e',
      record {
        number = omega (
          arith,
          l.number,
          ap (λ t. t * 2 ^ total fs) k.number,
          pow_split (written ctx) f.width (total fs),
        );
        width = omega (arith, k.width, l.width);
        part = l.part;
        sized = l.sized ∙ k.sized;
        bytes = λ h. l.bytes (k.bytes h);
      },
    )

-- The fields stand in the buffer from bit `p` on.
abbrev pub Holds : (ℕ → ℕ) → ℕ → List Field → Type 0
Holds buf p [] = Unit {0}
Holds buf p (f ∷ fs) = Reads buf p f.width (f.bits % 2 ^ f.width) × Holds buf (p + f.width) fs

Holds-prefix :
    (buf : ℕ → ℕ) (p : ℕ) (fs : List Field)
    → ((i : ℕ) → buf i < 256)
    → prefix buf (p + total fs) ≡ prefix buf p * 2 ^ total fs + number_of fs
    → Holds buf p fs
unfolding Reads
Holds-prefix buf p [] byte e = tt
Holds-prefix buf p (f ∷ fs) byte e =
    let (v, rv) = Reads-some buf p byte f.width in
    let (r, rr) = Reads-some buf (p + f.width) byte (total fs) in
    let same : prefix buf (p + f.width + total fs) ≡ prefix buf (p + (f.width + total fs)) =
      ap (prefix buf) (omega arith) in
    let m = 2 ^ total fs in
    let (high, low) =
      same_parts m (prefix buf (p + f.width)) (prefix buf p * 2 ^ f.width + f.bits % 2 ^ f.width) r
        (number_of fs) rr.1 (number_of-small fs)
        (omega (arith, rr.0, same, e, pow_split (prefix buf p) f.width (total fs))) in
    ((high, field_small f), Holds-prefix buf (p + f.width) fs byte (omega (arith, rr.0, low)))

-- The fields that a buffer holds are those that the reader gets.
pub read_fields-Holds :
    (d : Context) (p : ℕ) (fs : List Field)
    → IsAt d p
    → ((i : ℕ) → d.buf i < 256)
    → AllNarrow fs
    → p + total fs ≤ d.buflen * 8
    → Holds d.buf p fs
    → (c : Context) × (read_fields d (widths fs) ≡ some (values fs, c))
      × IsAt c (p + total fs)
      × SameBuffer d c
unfolding read_fields Reads
read_fields-Holds d p [] at byte narrow inside holds = (
  d,
  refl,
  subst (IsAt d) {x = p} {y = p + 0} (omega arith) at,
  record { bytes = refl; sized = refl },
)
read_fields-Holds d p (f ∷ fs) at byte (n, narrow) inside (holds, more) =
    let (v, c, e, rd, at', same) =
      read_bits-Returns d p f.width at byte n (omega (arith, inside)) in
    let v_eq : v ≡ f.bits % 2 ^ f.width = omega (arith, rd.0, holds.0) in
    let (c', e', at'', same') =
      read_fields-Holds c (p + f.width) fs at'
        (subst (λ b. (i : ℕ) → b i < 256) (sym same.bytes) byte) narrow
        (omega (arith, inside, same.sized))
        (subst (λ b. Holds b (p + f.width) fs) (sym same.bytes) more) in
    (
      c',
      rw (read_fields, e, e') (ap (λ x. some (x ∷ values fs, c')) v_eq),
      subst (IsAt c') {x = p + f.width + total fs} {y = p + (f.width + total fs)} (omega arith)
          at'',
      record { bytes = same'.bytes ∙ same.bytes; sized = same'.sized ∙ same.sized },
    )

-- What a writer that fills whole bytes from the start of a buffer leaves in it.
pub Holds-written :
    (c : Context) (fs : List Field) (q : ℕ)
    → ((i : ℕ) → c.buf i < 256)
    → total fs ≡ q * 8
    → c.buflen_used * 8 + c.reg_used ≡ total fs
    → c.reg_used < 8
    → written c ≡ number_of fs
    → Holds c.buf 0 fs
unfolding big_endian
Holds-written c fs q byte whole width part number =
    let used : c.buflen_used ≡ q = omega (arith, width, part, whole) in
    let none_held : c.reg_used ≡ 0 = omega (arith, width, part, whole) in
    let start : prefix c.buf 0 * 2 ^ total fs ≡ 0 =
      ap (λ t. t * 2 ^ total fs) (prefix-bytes c.buf 0 (byte 0)) ∙ omega arith in
    let bytes : written c ≡ big_endian c.buf q =
      ap (λ r. big_endian c.buf c.buflen_used * 2 ^ r + c.reg % 2 ^ r) none_held
      ∙ omega arith
      ∙ ap (big_endian c.buf) used in
    let end : prefix c.buf (0 + total fs) ≡ prefix c.buf (q * 8) =
      ap (prefix c.buf) (omega (arith, whole)) in
    Holds-prefix c.buf 0 fs byte
      (omega (arith, start, bytes, end, number, prefix-bytes c.buf q (byte q)))

-- Fields of at most 64 bits each that together fill whole bytes, written one after the other from the
-- start of a buffer of bytes that has room for them: the calls succeed, and reads of the same
-- widths from the start of that buffer return each field, cut to its width, in order.
pub read_fields-write_fields :
    (buf : Pointer) (length_bytes q : ℕ) (fs : List Field)
    → ((i : ℕ) → buf i < 256)
    → AllNarrow fs
    → total fs ≡ q * 8
    → q ≤ length_bytes
    → (c : Context) × (d : Context) × (write_fields (write_set_buffer buf length_bytes) fs ≡ some c)
      × (read_fields (read_set_buffer c.buf length_bytes) (widths fs) ≡ some (values fs, d))
unfolding write_set_buffer read_set_buffer big_endian
read_fields-write_fields buf length_bytes q fs byte narrow whole room =
    let (c, e, k) =
      write_fields-Adds (write_set_buffer buf length_bytes) fs narrow (omega arith)
        (omega (arith, room, whole)) in
    let holds =
      Holds-written c fs q (k.bytes byte) whole (k.width ∙ omega arith) k.part
        (k.number ∙ omega arith) in
    let (d, f, at, same) =
      read_fields-Holds (read_set_buffer c.buf length_bytes) 0 fs
        (record { place = omega arith; part = omega arith; held = λ h. absurd (omega (arith, h)) })
        (k.bytes byte) narrow (omega (arith, room, whole)) holds in
    (c, d, e, f)
