-- ===== src/Sei/Fields.antt =====
-- Fields of the SEI payload, set and read back.
use libltntstools.Base.{
  ℕ, ◌+◌, ◌*◌, ◌/◌, ◌%◌, ◌^◌, ◌<◌, ◌≤◌, ◌≡◌, ◌≢◌, refl, ap, ◌∙◌, ltb, ◌||◌, false, u32, bit_and,
  bit_or, some, List, length, get_or, arith,
}
use libltntstools.Base.Bits.{bit_and_mask, bit_or_sum}
use libltntstools.Memory.{store}
use libltntstools.Memory.Copy.{length-store, get_or-store_inside, get_or-store_outside}
use libltntstools.Timeval.{Timeval}
use libltntstools.Sei.{field_set, field_get, field_offset, field_bytes, got, value_timeval_set}

joined_bytes :
    (v : ℕ)
    → v < 2 ^ 32
    → bit_or
        (bit_or
          (bit_or
            (u32 (bit_and (v / 2 ^ 24) 0xff * 2 ^ 24))
            (u32 (bit_and (v / 2 ^ 16) 0xff * 2 ^ 16)))
          (u32 (bit_and (v / 2 ^ 8) 0xff * 2 ^ 8)))
        (u32 (bit_and v 0xff))
      ≡ v
joined_bytes v h = ground (
  arith,
  h,
  bit_and_mask 8 (v / 2 ^ 24),
  bit_and_mask 8 (v / 2 ^ 16),
  bit_and_mask 8 (v / 2 ^ 8),
  bit_and_mask 8 v,
  bit_or_sum 24 (v / 2 ^ 24) (v / 2 ^ 16 % 256 * 2 ^ 16) (omega arith),
  bit_or_sum 16 (v / 2 ^ 16) (v / 2 ^ 8 % 256 * 2 ^ 8) (omega arith),
  bit_or_sum 8 (v / 2 ^ 8) (v % 256) (omega arith),
)

-- A field of the payload that lies in the buffer.
pub record IsField (buffer : List ℕ) (nr : ℕ) : Type 0 where
  pub low : 1 ≤ nr
  pub high : nr ≤ 9
  pub room : field_offset nr + 6 ≤ length buffer

field_set-store :
    (buffer : List ℕ) (nr v : ℕ)
    → IsField buffer nr
    → field_set buffer nr v ≡ some (store buffer (field_offset nr) (field_bytes v))
unfolding field_set
field_set-store buffer nr v f = ground (arith, f.low, f.high, f.room)

-- Where four bytes of two buffers are the same, so is the field.
field_get-congr :
    (b c : List ℕ) (nr : ℕ)
    → length b ≡ length c
    → ((i : ℕ) → i < 5 → get_or b (field_offset nr + i) 0 ≡ get_or c (field_offset nr + i) 0)
    → field_get b nr ≡ field_get c nr
unfolding field_get
field_get-congr b c nr e same =
    let s0 =
      ap (λ k. get_or b k 0) {x = field_offset nr} {y = field_offset nr + 0} (omega arith)
      ∙ same 0 (omega arith)
      ∙ ap (λ k. get_or c k 0) {x = field_offset nr + 0} {y = field_offset nr} (omega arith) in
    rw (e, s0, same 1 (omega arith), same 3 (omega arith), same 4 (omega arith)) refl

field_get-bytes :
    (b : List ℕ) (nr b₀ b₁ b₃ b₄ : ℕ)
    → IsField b nr
    → get_or b (field_offset nr + 0) 0 ≡ b₀
    → get_or b (field_offset nr + 1) 0 ≡ b₁
    → get_or b (field_offset nr + 3) 0 ≡ b₃
    → get_or b (field_offset nr + 4) 0 ≡ b₄
    → field_get b nr
      ≡ got (
          bit_or
            (bit_or (bit_or (u32 (b₀ * 2 ^ 24)) (u32 (b₁ * 2 ^ 16))) (u32 (b₃ * 2 ^ 8)))
            (u32 b₄))
unfolding field_get
field_get-bytes b nr b₀ b₁ b₃ b₄ f e₀ e₁ e₃ e₄ =
    let s₀ =
      ap (λ k. get_or b k 0) {x = field_offset nr} {y = field_offset nr + 0} (omega arith) ∙ e₀ in
    let inside : ltb (length b) (field_offset nr + 5) ≡ false = ground (arith, f.room) in
    let numbered : (ltb nr 1 || ltb 9 nr) ≡ false = ground (arith, f.low, f.high) in
    rw (numbered, inside, s₀, e₁, e₃, e₄) refl

field_get-store_same :
    (buffer : List ℕ) (nr v : ℕ)
    → IsField buffer nr
    → v < 2 ^ 32
    → field_get (store buffer (field_offset nr) (field_bytes v)) nr ≡ got v
field_get-store_same buffer nr v f small =
    let o = field_offset nr in
    let stored = λ (i : ℕ) (h : i < 6). get_or-store_inside buffer o (field_bytes v) i 0 f.room h in
    let same = length-store buffer o (field_bytes v) in
    field_get-bytes (store buffer o (field_bytes v)) nr (bit_and (v / 2 ^ 24) 0xff)
      (bit_and (v / 2 ^ 16) 0xff) (bit_and (v / 2 ^ 8) 0xff) (bit_and v 0xff)
      (record { low = f.low; high = f.high; room = omega (arith, f.room, same) })
      (stored 0 (omega arith)) (stored 1 (omega arith)) (stored 3 (omega arith))
      (stored 4 (omega arith))
    ∙ ap got (joined_bytes v small)

field_get-store_other :
    (buffer : List ℕ) (nr other v : ℕ)
    → IsField buffer nr
    → 1 ≤ other
    → nr ≢ other
    → field_get (store buffer (field_offset nr) (field_bytes v)) other ≡ field_get buffer other
field_get-store_other buffer nr other v f low ne =
    field_get-congr (store buffer (field_offset nr) (field_bytes v)) buffer other
      (length-store buffer (field_offset nr) (field_bytes v))
      (λ i small.
        get_or-store_outside buffer (field_offset nr) (field_bytes v) (field_offset other + i) 0
          (omega (arith, f.low, low, ne, small)))

-- Setting field `nr`, from 1 to 9 and inside the buffer, to a 32-bit number succeeds. The buffer keeps
-- its size and its first 16 bytes, the field reads as the number, and every other field
-- from 1 on reads as it did before.
pub field_set_lem :
    (buffer : List ℕ) (nr v : ℕ)
    → IsField buffer nr
    → v < 2 ^ 32
    → (b : List ℕ) × (field_set buffer nr v ≡ some b)
      × (length b ≡ length buffer)
      × ((i : ℕ) → i < 16 → get_or b i 0 ≡ get_or buffer i 0)
      × (field_get b nr ≡ got v)
      × ((other : ℕ) → 1 ≤ other → nr ≢ other → field_get b other ≡ field_get buffer other)
field_set_lem buffer nr v f small = (
  store buffer (field_offset nr) (field_bytes v),
  field_set-store buffer nr v f,
  length-store buffer (field_offset nr) (field_bytes v),
  λ i h. get_or-store_outside buffer (field_offset nr) (field_bytes v) i 0 (omega (arith, h)),
  field_get-store_same buffer nr v f small,
  λ other low ne. field_get-store_other buffer nr other v f low ne,
)

IsField-congr : (b c : List ℕ) (nr : ℕ) → length c ≡ length b → IsField b nr → IsField c nr
IsField-congr b c nr e f = record { low = f.low; high = f.high; room = omega (arith, e, f.room) }

pub value_timeval_set_lem :
    (buffer : List ℕ) (nr : ℕ) (t : Timeval)
    → IsField buffer nr
    → IsField buffer (nr + 1)
    → t.tv_sec < 2 ^ 32
    → t.tv_usec < 2 ^ 32
    → let b = value_timeval_set buffer nr t in
      (length b ≡ length buffer)
      × (field_get b nr ≡ got t.tv_sec)
      × (field_get b (nr + 1) ≡ got t.tv_usec)
      × ((other : ℕ)
          → 1 ≤ other
          → nr ≢ other
          → nr + 1 ≢ other
          → field_get b other ≡ field_get buffer other)
unfolding value_timeval_set
value_timeval_set_lem buffer nr t f g secs usecs =
    let (b, set_b, len_b, head_b, get_b, other_b) = field_set_lem buffer nr t.tv_sec f secs in
    let (c, set_c, len_c, head_c, get_c, other_c) =
      field_set_lem b (nr + 1) t.tv_usec (IsField-congr buffer b (nr + 1) len_b g) usecs in
    let e_sec : u32 t.tv_sec ≡ t.tv_sec = omega (arith, secs) in
    let e_usec : u32 t.tv_usec ≡ t.tv_usec = omega (arith, usecs) in
    rw (e_sec, e_usec, set_b, set_c)
      (
        len_c ∙ len_b,
        other_c nr f.low (λ e. absurd (omega (arith, e))) ∙ get_b,
        get_c,
        λ other low ne ne'. other_c other low ne' ∙ other_b other low ne,
      )
