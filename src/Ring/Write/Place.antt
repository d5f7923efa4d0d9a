-- ===== src/Ring/Write/Place.antt =====
-- Storing bytes behind the tail, in each of the shapes that the ring can have.
use libltntstools.Base.{
  ℕ, ◌+◌, ◌-◌, ◌%◌, ◌≤◌, ◌<◌, ◌≡◌, refl, ◌∙◌, ap, sym, ◌⊎◌, inl, inr, some, List, length, get_or,
  take, drop, arith, length-take, length-drop,
}
use native.Mathlib.Decide.{dec_lt}
use libltntstools.Memory.{store}
use libltntstools.Memory.Copy.{
  length-store, get_or-store_outside, get_or-store_inside, get_or-take, get_or-drop, memcpy-ok,
  take-length,
}
use libltntstools.Ring.{RingBuffer, place}
use libltntstools.Ring.Valid.{IsValid}
use libltntstools.Ring.Contents.{mod_below, mod_above}

-- The old bytes are where they were, and `from` follows them.
pub record IsPlaced (b : RingBuffer) (from : List ℕ) (s : List ℕ) : Type 0 where
  pub same_length : length s ≡ length b.storage
  pub old :
      (i : ℕ)
      → i < b.fill
      → get_or s ((b.head + i) % b.size) 0 ≡ get_or b.storage ((b.head + i) % b.size) 0
  pub new :
      (i : ℕ) → i < length from → get_or s ((b.head + (b.fill + i)) % b.size) 0 ≡ get_or from i 0

-- One run, at index `o`.
one_run :
    (b : RingBuffer) (from : List ℕ) (o : ℕ)
    → IsValid b
    → b.fill + length from ≤ b.size
    → o + length from ≤ b.size
    → ((b.head + b.fill < b.size) × (o ≡ b.head + b.fill))
      ⊎ ((b.size ≤ b.head + b.fill) × (o ≡ b.head + b.fill - b.size))
    → IsPlaced b from (store b.storage o from)
one_run b from o v room fits side = record {
  same_length = length-store b.storage o from;
  old = λ i h. get_or-store_outside b.storage o from ((b.head + i) % b.size) 0 (outside i h);
  new = λ i h.
      ap (λ k. get_or (store b.storage o from) k 0) (place_of i h)
      ∙ get_or-store_inside b.storage o from i 0 (omega (arith, v.allocated)) h;
}
  where
    outside :
        (i : ℕ)
        → i < b.fill
        → ((b.head + i) % b.size < o) ⊎ (o + length from ≤ (b.head + i) % b.size)
    outside i h = elim (dec_lt (b.head + i) b.size) [
      | yes p ↦ rw (mod_below p) (omega (arith, v.head_in))
      | no p ↦
          rw (mod_above {x = b.head + i} {n = b.size} (omega arith) (omega (arith, v.head_in)))
            (omega (arith, v.head_in))
    ]

    place_of : (i : ℕ) → i < length from → (b.head + (b.fill + i)) % b.size ≡ o + i
    place_of i h = elim (dec_lt (b.head + (b.fill + i)) b.size) [
      | yes p ↦ mod_below p ∙ omega (arith, v.head_in)
      | no p ↦
          mod_above {x = b.head + (b.fill + i)} {n = b.size} (omega arith)
            (omega (arith, v.head_in))
          ∙ omega (arith, v.head_in)
    ]

abbrev first_of_two : RingBuffer → List ℕ → List ℕ
first_of_two b from = store b.storage (b.head + b.fill) (take (b.size - (b.head + b.fill)) from)

abbrev both : RingBuffer → List ℕ → List ℕ
both b from = store (first_of_two b from) 0 (drop (b.size - (b.head + b.fill)) from)

-- Two runs: up to the end of the allocation, and on from its start.
two_runs :
    (b : RingBuffer) (from : List ℕ)
    → IsValid b
    → b.fill + length from ≤ b.size
    → b.head + b.fill < b.size
    → b.size ≤ b.head + b.fill + length from
    → IsPlaced b from (both b from)
two_runs b from v room below past = record {
  same_length =
      length-store (first_of_two b from) 0 rest ∙ length-store b.storage tail (take run from);
  old = λ i h. old_lem i h;
  new =
      λ i h. elim (dec_lt i run) [ yes p ↦ new_first i h p | no p ↦ new_second i h (omega arith) ];
}
  where
    tail : ℕ
    tail = b.head + b.fill

    run : ℕ
    run = b.size - (b.head + b.fill)

    rest : List ℕ
    rest = drop run from

    old_lem :
        (i : ℕ)
        → i < b.fill
        → get_or (both b from) ((b.head + i) % b.size) 0
          ≡ get_or b.storage ((b.head + i) % b.size) 0
    old_lem i h = rw (mod_below {x = b.head + i} {n = b.size} (omega arith)) (
        get_or-store_outside (first_of_two b from) 0 rest (b.head + i) 0
          (inr (omega (arith, length-drop run from)))
        ∙ get_or-store_outside b.storage tail (take run from) (b.head + i) 0 (inl (omega arith)))

    new_first :
        (i : ℕ)
        → i < length from
        → i < run
        → get_or (both b from) ((b.head + (b.fill + i)) % b.size) 0 ≡ get_or from i 0
    new_first i h p =
        ap (λ k. get_or (both b from) k 0)
          (mod_below {x = b.head + (b.fill + i)} {n = b.size} (omega arith) ∙ omega arith)
        ∙ get_or-store_outside (first_of_two b from) 0 rest (tail + i) 0
            (inr (omega (arith, length-drop run from, v.head_in)))
        ∙ get_or-store_inside b.storage tail (take run from) i 0
            (omega (arith, length-take run from, v.allocated)) (omega (arith, length-take run from))
        ∙ get_or-take run from i 0 p

    new_second :
        (i : ℕ)
        → i < length from
        → run ≤ i
        → get_or (both b from) ((b.head + (b.fill + i)) % b.size) 0 ≡ get_or from i 0
    new_second i h p =
        ap (λ k. get_or (both b from) k 0)
          (mod_above {x = b.head + (b.fill + i)} {n = b.size} (omega arith)
              (omega (arith, v.head_in))
            ∙ omega (arith, v.head_in))
        ∙ get_or-store_inside (first_of_two b from) 0 rest (i - run) 0
            (omega (
              arith,
              length-drop run from,
              length-store b.storage tail (take run from),
              v.allocated,
            ))
            (omega (arith, length-drop run from))
        ∙ get_or-drop run from (i - run) 0
        ∙ ap (λ k. get_or from k 0) (omega arith)

-- `take` of all that is left of a list.
take_rest : (n : ℕ) (xs : List ℕ) → take (length xs - n) (drop n xs) ≡ drop n xs
take_rest n xs = ap (λ k. take k (drop n xs)) (sym (length-drop n xs)) ∙ take-length (drop n xs)

-- With room for `from`, and no write of the whole allocation from a moved head, `place` stays in
-- bounds and puts the bytes behind the old ones.
pub place-IsPlaced :
    (b : RingBuffer) (from : List ℕ)
    → IsValid b
    → b.fill + length from ≤ b.size
    → (length from < b.size) ⊎ (b.head ≡ 0)
    → (s : List ℕ) × (place b from ≡ some s) × IsPlaced b from s
unfolding place
place-IsPlaced b from v room shape = elim (dec_lt (b.head + b.fill) b.size) [
  | yes p ↦ elim (dec_lt (length from) (b.size - (b.head + b.fill))) [
    | yes q ↦ (
      store b.storage (b.head + b.fill) from,
      ground (
        arith,
        v.allocated,
        mod_below {x = b.head + b.fill} {n = b.size} p,
        mod_below {x = b.head + b.fill + length from} {n = b.size} (omega arith),
        memcpy-ok b.storage (b.head + b.fill) from 0 (length from) (omega (arith, v.allocated))
            (omega arith),
        take-length from,
      ),
      one_run b from (b.head + b.fill) v room (omega arith) (inl (p, refl)),
    )
    | no q ↦ elim (dec_lt (length from) b.size) [
      | yes r ↦ (
        both b from,
        ground (
          arith,
          v.allocated,
          mod_below {x = b.head + b.fill} {n = b.size} p,
          mod_above {x = b.head + b.fill + length from} {n = b.size} (omega arith) (omega arith),
          memcpy-ok b.storage (b.head + b.fill) from 0 (b.size - (b.head + b.fill))
              (omega (arith, v.allocated)) (omega arith),
          memcpy-ok (first_of_two b from) 0 from (b.size - (b.head + b.fill))
              (length from - (b.size - (b.head + b.fill)))
              (omega (
                arith,
                v.allocated,
                length-store b.storage (b.head + b.fill) (take (b.size - (b.head + b.fill)) from),
              ))
              (omega arith),
          take_rest (b.size - (b.head + b.fill)) from,
        ),
        two_runs b from v room p (omega arith),
      )
      | no r ↦ (
        store b.storage (b.head + b.fill) from,
        ground (
          arith,
          v.allocated,
          mod_below {x = b.head + b.fill} {n = b.size} p,
          mod_above {x = b.head + b.fill + length from} {n = b.size} (omega arith) (omega arith),
          memcpy-ok b.storage (b.head + b.fill) from 0 (length from) (omega (arith, v.allocated))
              (omega arith),
          take-length from,
        ),
        one_run b from (b.head + b.fill) v room (omega arith) (inl (p, refl)),
      )
    ]
  ]
  | no p ↦ (
    store b.storage (b.head + b.fill - b.size) from,
    ground (
      arith,
      v.allocated,
      mod_above {x = b.head + b.fill} {n = b.size} (omega arith) (omega (arith, v.head_in)),
      mod_above {x = b.head + b.fill + length from} {n = b.size} (omega arith)
          (omega (arith, v.head_in)),
      memcpy-ok b.storage (b.head + b.fill - b.size) from 0 (length from)
          (omega (arith, v.allocated, v.head_in)) (omega arith),
      take-length from,
    ),
    one_run b from (b.head + b.fill - b.size) v room (omega (arith, v.head_in))
        (inr (omega arith, refl)),
  )
]
