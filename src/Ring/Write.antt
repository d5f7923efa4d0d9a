-- ===== src/Ring/Write.antt =====
-- What `rb_write_with_state` does to the bytes of a ring.
mod Place
use native.Mathlib.Decide.{dec_lt}
use libltntstools.Base.{
  ℕ, ◌+◌, ◌-◌, ◌*◌, ◌%◌, ◌^◌, ◌≤◌, ◌<◌, ◌≡◌, refl, ◌∙◌, ap, ap₂, sym, ◌⊎◌, inl, inr, Bool, true,
  false, Option, some, none, List, ◌++◌, length, get_or, take, drop, arith, length-append,
  length-take, get_or-append_left, ltb, if◌then◌else◌,
}
use libltntstools.Base.Table.{table, table_ext, table-append, table-get_or, get_or-table}
use libltntstools.Memory.{realloc}
use libltntstools.Memory.Copy.{memcpy-fault, get_or-realloc_old, get_or-realloc_new}
use libltntstools.Ring.{
  RingBuffer, make_room, place, rb_grow, rb_discard, rb_remain_in_seg, rb_write_with_state,
  rb_write, advance_head, advance_tail,
}
use libltntstools.Ring.Valid.{
  IsValid, IsSpare, rb_grow-IsValid, advance_head-IsValid, length-realloc,
}
use libltntstools.Ring.Contents.{SameLimits, contents, length-contents, mod_below, mod_above}
use libltntstools.Ring.Read.{contents-advance_head}
use Place.{IsPlaced, place-IsPlaced}

-- The second half of a write, for a ring that has room.
abbrev pub Stored : RingBuffer → List ℕ → RingBuffer → Type 0
Stored b from c = (contents c ≡ contents b ++ from) × IsValid c × (c.size ≡ b.size) × SameLimits b c

after : RingBuffer → List ℕ → List ℕ → RingBuffer
after b s from = advance_tail (record b { storage = s }) (length from)

placed-Stored :
    (b : RingBuffer) (from s : List ℕ)
    → IsValid b
    → b.fill + length from ≤ b.size
    → IsPlaced b from s
    → Stored b from (after b s from)
unfolding after advance_tail
placed-Stored b from s v room p = (
  ap (λ k. table k byte) (omega (arith, v.small, v.size_in))
      ∙ table-append b.fill (length from) byte
      ∙ ap₂ ◌++◌ (table_ext b.fill byte (λ i. get_or b.storage ((b.head + i) % b.size) 0) p.old) (
          table_ext (length from) (λ i. byte (b.fill + i)) (λ i. get_or from i 0) p.new
          ∙ table-get_or from 0),
  record {
    allocated = p.same_length ∙ v.allocated;
    head_in = v.head_in;
    fill_in = omega (arith, v.small, v.size_in);
    size_in = v.size_in;
    initial_pos = v.initial_pos;
    initial_in = v.initial_in;
    small = v.small;
  },
  refl,
  (refl, refl),
)
  where
    byte : ℕ → ℕ
    byte i = get_or s ((b.head + i) % b.size) 0

-- A write whose first half gives the ring `r`, with room in it.
write_through :
    (spare : ℕ → List ℕ) (b r : RingBuffer) (from : List ℕ) (overflow : Bool)
    → make_room spare b (length from) ≡ (r, overflow)
    → IsValid r
    → r.fill + length from ≤ r.size
    → (length from < r.size) ⊎ (r.head ≡ 0)
    → (c : RingBuffer) × (rb_write_with_state spare b from true ≡ some (c, overflow, length from))
      × Stored r from c
unfolding rb_write_with_state
write_through spare b r from overflow e v room shape =
    let (s, runs, placed) = place-IsPlaced r from v room shape in
    (after r s from, rw e (rw runs (unfold after in refl)), placed-Stored r from s v room placed)

-- Where the bytes fit, and are fewer than the whole allocation or the head is at its start, a write puts them behind the old ones, raises no overflow, and keeps the
-- ring valid and its allocation as large as it was.
pub write_fits :
    (spare : ℕ → List ℕ) (b : RingBuffer) (from : List ℕ)
    → IsValid b
    → b.fill + length from ≤ b.size
    → (length from < b.size) ⊎ (b.head ≡ 0)
    → (c : RingBuffer) × (rb_write_with_state spare b from true ≡ some (c, false, length from))
      × Stored b from c
write_fits spare b from v room shape = write_through spare b b from false same v room shape
  where
    same : make_room spare b (length from) ≡ (b, false)
    same = unfold make_room rb_remain_in_seg in ground (arith, v.small, v.size_in)

-- Where the bytes do not fit and the ring may not grow, and they are no more than the bytes stored and
-- fewer than the allocation, a write drops as many of the oldest bytes, raises the overflow, and
-- keeps the ring valid with its limits.
pub write_overflows :
    (spare : ℕ → List ℕ) (b : RingBuffer) (from : List ℕ)
    → IsValid b
    → b.size < b.fill + length from
    → b.size_max < b.size + length from * 128
    → length from ≤ b.fill
    → length from < b.size
    → (c : RingBuffer) × (rb_write_with_state spare b from true ≡ some (c, true, length from))
      × (contents c ≡ drop (length from) (contents b) ++ from)
      × IsValid c
      × SameLimits b c
write_overflows spare b from v crowded capped enough short =
    let (kept, fill_eq) = advance_head-IsValid {b = b} (length from) v enough in
    let (c, runs, stored) =
      write_through spare b (advance_head b (length from)) from true drops kept
        (omega (arith, fill_eq, v.fill_in, same_size)) (inl (omega (arith, same_size))) in
    (
      c,
      runs,
      stored.0 ∙ ap (λ r. r ++ from) (contents-advance_head b (length from) v enough),
      stored.1,
      (stored.3.0 ∙ unfold advance_head in refl, stored.3.1 ∙ unfold advance_head in refl),
    )
  where
    same_size : (advance_head b (length from)).size ≡ b.size
    same_size = unfold advance_head in refl

    drops : make_room spare b (length from) ≡ (advance_head b (length from), true)
    drops =
        unfold make_room rb_remain_in_seg rb_grow rb_discard in ground (arith, v.small, v.size_in)

grown :
    (spare : ℕ → List ℕ) (b : RingBuffer) (n : ℕ)
    → IsValid b
    → b.size + n ≤ b.size_max
    → rb_grow spare b n
      ≡ some (record b { storage = realloc spare b.storage (b.size + n); size = b.size + n })
unfolding rb_grow
grown spare b n v h = ground (arith, v.small)

-- What growth leaves in the ring: the bytes that had not gone round the end.
contents-grown :
    (spare : ℕ → List ℕ) (b : RingBuffer) (n : ℕ)
    → IsValid b
    → b.head + b.fill ≤ b.size
    → contents (record b { storage = realloc spare b.storage (b.size + n); size = b.size + n })
      ≡ contents b
contents-grown spare b n v unwrapped =
    table_ext b.fill
      (λ i. get_or (realloc spare b.storage (b.size + n)) ((b.head + i) % (b.size + n)) 0)
      (λ i. get_or b.storage ((b.head + i) % b.size) 0)
      (λ i h.
        ap (λ k. get_or (realloc spare b.storage (b.size + n)) k 0)
          (mod_below {x = b.head + i} {n = b.size + n} (omega arith))
        ∙ get_or-realloc_old spare b.storage (b.size + n) (b.head + i) (omega (arith, v.allocated))
            (omega (arith, v.allocated))
        ∙ ap (λ k. get_or b.storage k 0)
            (sym (mod_below {x = b.head + i} {n = b.size} (omega arith))))

-- Where the ring has to grow and may, and its bytes do not go round the end of the allocation, a
-- write puts the new bytes behind the old ones in an allocation larger by 128 times their number.
pub write_grows :
    (spare : ℕ → List ℕ) (b : RingBuffer) (from : List ℕ)
    → IsSpare spare
    → IsValid b
    → b.size < b.fill + length from
    → b.size + length from * 128 ≤ b.size_max
    → b.head + b.fill ≤ b.size
    → (c : RingBuffer) × (rb_write_with_state spare b from true ≡ some (c, false, length from))
      × (contents c ≡ contents b ++ from)
      × IsValid c
      × (c.size ≡ b.size + length from * 128)
write_grows spare b from s v crowded capped unwrapped =
    let n : ℕ = length from * 128 in
    let larger = grown spare b n v capped in
    let (valid, _, _, _) = rb_grow-IsValid spare n s v (omega (arith, v.small)) larger in
    let (c, runs, stored) =
      write_through spare b
        (record b { storage = realloc spare b.storage (b.size + n); size = b.size + n }) from false
        (grows larger) valid (omega (arith, v.fill_in)) (inl (omega (arith, v.fill_in))) in
    (
      c,
      runs,
      stored.0 ∙ ap (λ r. r ++ from) (contents-grown spare b n v unwrapped),
      stored.1,
      stored.2,
    )
  where
    grows :
        rb_grow spare b (length from * 128)
          ≡ some (record b {
            storage = realloc spare b.storage (b.size + length from * 128);
            size = b.size + length from * 128;
          })
        → make_room spare b (length from) ≡ (
          record b {
            storage = realloc spare b.storage (b.size + length from * 128);
            size = b.size + length from * 128;
          },
          false,
        )
    grows e = unfold make_room rb_remain_in_seg in ground (arith, v.small, v.size_in, v.fill_in)

-- A write of exactly the whole allocation into an empty ring whose head has moved goes past the
-- end of the allocation.
pub write_whole_faults :
    (spare : ℕ → List ℕ) (b : RingBuffer) (from : List ℕ)
    → IsValid b
    → b.fill ≡ 0
    → 0 < b.head
    → length from ≡ b.size
    → rb_write_with_state spare b from true ≡ none
unfolding rb_write_with_state make_room rb_remain_in_seg place
write_whole_faults spare b from v e moved whole = ground (
  arith,
  v.small,
  v.size_in,
  mod_below {x = b.head} {n = b.size} v.head_in,
  mod_above {x = b.head + length from} {n = b.size} (omega arith) (omega (arith, v.head_in)),
  memcpy-fault b.storage b.head from 0 (length from) (omega (arith, v.allocated)),
)

-- Growth by `n` of a ring whose bytes go round the end gives, in place of a byte `i` that has gone round
-- and for which head + i is below the new size, an unknown byte that realloc adds.
pub rb_grow_loses_wrapped :
    (spare : ℕ → List ℕ) (b : RingBuffer) (n i : ℕ)
    → IsValid b
    → b.size + n ≤ b.size_max
    → i < b.fill
    → b.size ≤ b.head + i
    → b.head + i < b.size + n
    → (c : RingBuffer) × (rb_grow spare b n ≡ some c)
      × (get_or (contents c) i 0 ≡ get_or (spare n) (b.head + i - b.size) 0)
rb_grow_loses_wrapped spare b n i v capped h wrapped inside = (
  record b { storage = realloc spare b.storage (b.size + n); size = b.size + n },
  grown spare b n v capped,
  get_or-table b.fill
        (λ k. get_or (realloc spare b.storage (b.size + n)) ((b.head + k) % (b.size + n)) 0) i 0 h
      ∙ ap (λ k. get_or (realloc spare b.storage (b.size + n)) k 0)
          (mod_below {x = b.head + i} {n = b.size + n} inside)
      ∙ get_or-realloc_new spare b.storage (b.size + n) (b.head + i) (omega (arith, v.allocated))
          (omega (arith, v.allocated))
      ∙ ap₂ (λ k j. get_or (spare k) j 0) (omega (arith, v.allocated)) (omega (arith, v.allocated)),
)

-- `rb_write` hands no flag to `rb_write_with_state`, which stores through it.
pub rb_write_faults :
    (spare : ℕ → List ℕ) (b : RingBuffer) (from : List ℕ) → rb_write spare b from ≡ none
unfolding rb_write rb_write_with_state
rb_write_faults spare b from = refl
