-- ===== src/Ring/Valid.antt =====
-- The representation invariant of `KLRingBuffer`, and which operations keep it.
use libltntstools.Base.{
  ℕ, ◌+◌, ◌-◌, ◌%◌, ◌^◌, ◌≤◌, ◌<◌, ◌≡◌, Bool, some, List, length, arith, length-append, length-take,
  take,
}
use libltntstools.Memory.{realloc}
use libltntstools.Ring.{
  RingBuffer, rb_new, rb_empty, rb_grow, rb_shrink_reset, advance_head, rb_used, release,
}

-- The limit on `size_max` keeps every `size_t` sum of the code from wrapping.
pub record IsValid (b : RingBuffer) : Type 0 where
  pub allocated : length b.storage ≡ b.size
  pub head_in : b.head < b.size
  pub fill_in : b.fill ≤ b.size
  pub size_in : b.size ≤ b.size_max
  pub initial_pos : 0 < b.size_initial
  pub initial_in : b.size_initial ≤ b.size
  pub small : b.size_max < 2 ^ 48

-- What a realloc may add has the length that was asked for.
abbrev pub IsSpare : (ℕ → List ℕ) → Type 0
IsSpare spare = (n : ℕ) → length (spare n) ≡ n

pub length-realloc :
    (spare : ℕ → List ℕ) (xs : List ℕ) (n : ℕ) → IsSpare spare → length (realloc spare xs n) ≡ n
unfolding realloc
length-realloc spare xs n h =
    omega (
      arith,
      length-append (take n xs) (spare (n - length xs)),
      length-take n xs,
      h (n - length xs),
    )

pub rb_new-IsValid :
    (struct_ok : Bool) (s : List ℕ) (size size_max : ℕ) {b : RingBuffer}
    → length s ≡ size
    → size_max < 2 ^ 48
    → rb_new struct_ok (some s) size size_max ≡ some b
    → IsValid b × (b.fill ≡ 0) × (b.size_max ≡ size_max)
unfolding rb_new
rb_new-IsValid struct_ok s size size_max h k e = ground arith

pub rb_empty-IsValid :
    {b : RingBuffer} → IsValid b → IsValid (rb_empty b) × (rb_used (rb_empty b) ≡ 0)
unfolding rb_empty rb_used
rb_empty-IsValid v = ground arith

pub rb_grow-IsValid :
    (spare : ℕ → List ℕ) {b c : RingBuffer} (n : ℕ)
    → IsSpare spare
    → IsValid b
    → n < 2 ^ 56
    → rb_grow spare b n ≡ some c
    → IsValid c × (c.size ≡ b.size + n) × (c.head ≡ b.head) × (c.fill ≡ b.fill)
unfolding rb_grow
rb_grow-IsValid spare {b} n s v small e =
    ground (arith, length-realloc spare b.storage ((b.size + n) % 2 ^ 64) s)

pub advance_head-IsValid :
    {b : RingBuffer} (n : ℕ)
    → IsValid b
    → n ≤ b.fill
    → IsValid (advance_head b n) × ((advance_head b n).fill ≡ b.fill - n)
unfolding advance_head
advance_head-IsValid n v h = ground arith

pub rb_shrink_reset-IsValid :
    (spare : ℕ → List ℕ) {b : RingBuffer}
    → IsSpare spare
    → IsValid b
    → IsValid (rb_shrink_reset spare b)
unfolding rb_shrink_reset
rb_shrink_reset-IsValid spare {b} s v =
    ground (arith, length-realloc spare b.storage b.size_initial s)

pub release-IsValid :
    (spare : ℕ → List ℕ) {b : RingBuffer} → IsSpare spare → IsValid b → IsValid (release spare b)
unfolding release rb_used rb_shrink_reset
release-IsValid spare {b} s v = ground (arith, length-realloc spare b.storage b.size_initial s)
