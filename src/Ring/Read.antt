-- ===== src/Ring/Read.antt =====
-- What `rb_reader` takes out of a ring.
use mathlib.Core.Path.{fun_ext}
use native.Mathlib.Decide.{dec_lt}
use native.Mathlib.Nat.{mod-add-mod, le_refl}
use libltntstools.Base.{
  ℕ, zero, suc, ◌+◌, ◌-◌, ◌%◌, ◌^◌, ◌≤◌, ◌<◌, ◌≡◌, refl, ◌∙◌, ap, ap₂, sym, some, List, [], ◌++◌,
  length, get_or, take, drop, arith, ltb, ◌==◌, ◌&&◌, take_over, drop_over, Bool-cases, inl, inr,
}
use libltntstools.Base.Table.{
  table, table_ext, table-append, take-table, drop-table, take-drop-eq-table,
}
use libltntstools.Memory.Copy.{read_block-ok}
use libltntstools.Ring.{
  RingBuffer, rb_used, rb_reader, rb_read, rb_peek, fetch, release, advance_head, rb_shrink_reset,
}
use libltntstools.Ring.Valid.{IsValid, IsSpare, advance_head-IsValid, release-IsValid}
use libltntstools.Ring.Contents.{SameLimits, contents, length-contents, mod_below, mod_above}

abbrev byte_of : RingBuffer → ℕ → ℕ
byte_of b i = get_or b.storage ((b.head + i) % b.size) 0

-- Two runs of the allocation are one run of the ring.
two_runs :
    (b : RingBuffer) (n : ℕ)
    → IsValid b
    → n ≤ b.fill
    → b.size ≤ b.head + n
    → take (b.size - b.head) (drop b.head b.storage)
        ++ take (n - (b.size - b.head)) (drop 0 b.storage)
      ≡ take n (contents b)
two_runs b n v h past =
    ap₂ ◌++◌
      (take-drop-eq-table b.head first b.storage 0 (omega (arith, v.allocated, v.head_in))
        ∙ table_ext first (λ i. get_or b.storage (b.head + i) 0) (byte_of b)
            (λ i q.
              ap (λ k. get_or b.storage k 0)
                (sym (mod_below {x = b.head + i} {n = b.size} (omega arith)))))
      (take-drop-eq-table 0 (n - first) b.storage 0 (omega (arith, v.allocated, v.fill_in))
        ∙ table_ext (n - first) (λ i. get_or b.storage (0 + i) 0) (λ i. byte_of b (first + i))
            (λ i q. ap (λ k. get_or b.storage k 0) (wrapped i q)))
    ∙ sym (table-append first (n - first) (byte_of b))
    ∙ ap (λ k. table k (byte_of b)) (omega arith)
    ∙ sym (take-table n b.fill (byte_of b) h)
  where
    first : ℕ
    first = b.size - b.head

    wrapped : (i : ℕ) → i < n - first → 0 + i ≡ (b.head + (first + i)) % b.size
    wrapped i q =
        omega arith
        ∙ sym (
            mod_above {x = b.head + (first + i)} {n = b.size} (omega (arith, v.head_in))
              (omega (arith, v.head_in, v.fill_in)))

-- Up to `fill` bytes are copied out in order, within bounds.
fetch-contents :
    (b : RingBuffer) (n : ℕ)
    → IsValid b
    → 0 < n
    → n ≤ b.fill
    → fetch b n ≡ some (take n (contents b))
unfolding fetch
fetch-contents b n v pos h = elim (dec_lt (b.head + n) b.size) [
  | yes p ↦ ground (
    arith,
    v.allocated,
    mod_below {x = b.head + n} {n = b.size} p,
    read_block-ok b.storage b.head n (omega (arith, v.allocated)),
    take-table n b.fill (byte_of b) h,
    take-drop-eq-table b.head n b.storage 0 (omega (arith, v.allocated)),
    table_ext n (λ i. get_or b.storage (b.head + i) 0) (byte_of b)
        (λ i q.
          ap (λ k. get_or b.storage k 0)
            (sym (mod_below {x = b.head + i} {n = b.size} (omega arith)))),
  )
  | no p ↦ ground (
    arith,
    v.allocated,
    mod_above {x = b.head + n} {n = b.size} (omega arith) (omega (arith, v.head_in)),
    read_block-ok b.storage b.head (b.size - b.head) (omega (arith, v.allocated)),
    read_block-ok b.storage 0 (n - (b.size - b.head)) (omega (arith, v.allocated)),
    two_runs b n v h (omega arith),
  )
]

-- Dropping bytes from the head drops them from the contents.
pub contents-advance_head :
    (b : RingBuffer) (n : ℕ)
    → IsValid b
    → n ≤ b.fill
    → contents (advance_head b n) ≡ drop n (contents b)
unfolding advance_head
contents-advance_head b n v h =
    ap₂ (λ k f. table k f) fill_eq (fun_ext place_eq)
    ∙ sym (drop-table n b.fill (b.fill - n) (byte_of b) (omega arith))
  where
    fill_eq : (b.fill + 2 ^ 64 - n) % 2 ^ 64 ≡ b.fill - n
    fill_eq = omega (arith, v.small, v.size_in, v.fill_in)

    no_wrap : (b.head + n) % 2 ^ 64 ≡ b.head + n
    no_wrap = omega (arith, v.small, v.size_in, v.fill_in, v.head_in)

    place_eq :
        (i : ℕ)
        → get_or b.storage (((b.head + n) % 2 ^ 64 % b.size + i) % b.size) 0 ≡ byte_of b (n + i)
    place_eq i =
        ap (λ k. get_or b.storage k 0)
          (ap (λ k. (k % b.size + i) % b.size) no_wrap
            ∙ mod-add-mod (b.head + n) b.size i
            ∙ ap (λ k. k % b.size) (omega arith))

table_zero : (n : ℕ) (f : ℕ → ℕ) → n ≡ 0 → [] ≡ table n f
table_zero zero f h = refl
table_zero (suc n) f h = absurd (omega arith)

contents-release : (spare : ℕ → List ℕ) (b : RingBuffer) → contents (release spare b) ≡ contents b
unfolding release rb_used rb_shrink_reset
contents-release spare b = elim (Bool-cases (b.fill == 0 && ltb b.size_initial b.size)) [
  | inl e ↦ rw e (table_zero b.fill (byte_of b) (ground arith))
  | inr e ↦ rw e
]

release-SameLimits :
    (spare : ℕ → List ℕ) (b : RingBuffer) (n : ℕ) → SameLimits b (release spare (advance_head b n))
unfolding release rb_used rb_shrink_reset advance_head
release-SameLimits spare b n = ground arith

-- A read of no more than there is.
read_available :
    (spare : ℕ → List ℕ) (b : RingBuffer) (n : ℕ)
    → IsSpare spare
    → IsValid b
    → n ≤ b.fill
    → (c : RingBuffer) × (rb_read spare b n ≡ some (c, take n (contents b)))
      × (contents c ≡ drop n (contents b))
      × IsValid c
      × SameLimits b c
unfolding rb_read rb_reader rb_used
read_available spare b zero s v h = (b, ground arith, refl, v, (refl, refl))
read_available spare b (suc n) s v h = (
  release spare (advance_head b (suc n)),
  ground (arith, fetch-contents b (suc n) v (omega arith) h),
  contents-release spare (advance_head b (suc n)) ∙ contents-advance_head b (suc n) v h,
  release-IsValid spare s (advance_head-IsValid (suc n) v h).0,
  release-SameLimits spare b (suc n),
)

read_clipped :
    (spare : ℕ → List ℕ) (b : RingBuffer) (n : ℕ)
    → b.fill < n
    → rb_read spare b n ≡ rb_read spare b b.fill
unfolding rb_read rb_reader rb_used
read_clipped spare b n h = ground arith

-- A read hands over the oldest bytes in order, as many as were asked for or as there are, and
-- leaves a valid ring with the rest.
pub rb_read_lem :
    (spare : ℕ → List ℕ) (b : RingBuffer) (n : ℕ)
    → IsSpare spare
    → IsValid b
    → (c : RingBuffer) × (rb_read spare b n ≡ some (c, take n (contents b)))
      × (contents c ≡ drop n (contents b))
      × IsValid c
      × SameLimits b c
rb_read_lem spare b n s v = elim (dec_lt b.fill n) [
  | yes p ↦
      let (c, reads, rest, valid, limits) = read_available spare b b.fill s v (le_refl b.fill) in
      (
        c,
        read_clipped spare b n p
            ∙ reads
            ∙ ap (λ r. some (c, r)) (all_taken ∙ sym (take_over n _ (over p))),
        rest ∙ drop_over b.fill _ (omega (arith, length-contents b)) ∙ sym (drop_over n _ (over p)),
        valid,
        limits,
      )
  | no p ↦ read_available spare b n s v (omega arith)
]
  where
    over : b.fill < n → length (contents b) ≤ n
    over p = omega (arith, length-contents b)

    all_taken : take b.fill (contents b) ≡ contents b
    all_taken = take_over b.fill (contents b) (omega (arith, length-contents b))

peek_available :
    (spare : ℕ → List ℕ) (b : RingBuffer) (n : ℕ)
    → IsValid b
    → n ≤ b.fill
    → rb_peek spare b n ≡ some (b, take n (contents b))
unfolding rb_peek rb_reader rb_used release
peek_available spare b zero v h = ground arith
peek_available spare b (suc n) v h = ground (arith, fetch-contents b (suc n) v (omega arith) h)

peek_clipped :
    (spare : ℕ → List ℕ) (b : RingBuffer) (n : ℕ)
    → b.fill < n
    → rb_peek spare b n ≡ rb_peek spare b b.fill
unfolding rb_peek rb_reader rb_used
peek_clipped spare b n h = ground arith

-- A peek hands over the same bytes as a read and changes nothing.
pub rb_peek_lem :
    (spare : ℕ → List ℕ) (b : RingBuffer) (n : ℕ)
    → IsValid b
    → rb_peek spare b n ≡ some (b, take n (contents b))
rb_peek_lem spare b n v = elim (dec_lt b.fill n) [
  | yes p ↦
      peek_clipped spare b n p
      ∙ peek_available spare b b.fill v (le_refl b.fill)
      ∙ ap (λ r. some (b, r))
          (take_over b.fill (contents b) (omega (arith, length-contents b))
            ∙ sym (take_over n (contents b) (omega (arith, length-contents b))))
  | no p ↦ peek_available spare b n v (omega arith)
]
