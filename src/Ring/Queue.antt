-- ===== src/Ring/Queue.antt =====
-- What a ring promises while it may not grow: a queue of bytes that makes room by dropping the
-- oldest, and the calls of a client on both.
use libltntstools.Base.{
  ℕ, ◌+◌, ◌≤◌, ◌<◌, ◌⊎◌, leb, if◌then◌else◌, Bool, true, false, Option, none, some, List, [], ◌∷◌,
  ◌++◌, length, take, drop,
}
use libltntstools.Ring.{RingBuffer, rb_write_with_state, rb_read, rb_peek, rb_used, rb_empty}

pub data Call : Type 0 where
  write : List ℕ → Call
  read peek : ℕ → Call
  used clear : Call

-- What a call reports.
pub data Reply : Type 0 where
  wrote : Bool → ℕ → Reply
  got : List ℕ → Reply
  count : ℕ → Reply
  done : Reply

module _ (most : ℕ) where
  unfoldable pub fits : List ℕ → List ℕ → Bool
  fits q from = leb (length q + length from) most

  unfoldable pub queue_step : List ℕ → Call → List ℕ × Reply
  queue_step q (write from) =
      if fits q from
      then (q ++ from, wrote false (length from))
      else (drop (length from) q ++ from, wrote true (length from))
  queue_step q (read n) = (drop n q, got (take n q))
  queue_step q (peek n) = (q, got (take n q))
  queue_step q used = (q, count (length q))
  queue_step q clear = ([], done)

  unfoldable pub queue_run : List ℕ → List Call → List Reply
  queue_run q [] = []
  queue_run q (c ∷ cs) = (queue_step q c).1 ∷ queue_run (queue_step q c).0 cs

  -- The writes that the code handles: of fewer bytes than the ring has, and where the ring is
  -- short of room, of no more than it holds.
  abbrev pub IsAllowed : List ℕ → Call → Type 0
  IsAllowed q (write from) =
      (length from < most) × ((length q + length from ≤ most) ⊎ (length from ≤ length q))
  IsAllowed q (read n) = Unit {0}
  IsAllowed q (peek n) = Unit {0}
  IsAllowed q used = Unit {0}
  IsAllowed q clear = Unit {0}

  abbrev pub AllAllowed : List ℕ → List Call → Type 0
  AllAllowed q [] = Unit {0}
  AllAllowed q (c ∷ cs) = IsAllowed q c × AllAllowed (queue_step q c).0 cs

-- The same calls on the ring; `none` is a fault.
unfoldable pub ring_step : (ℕ → List ℕ) → RingBuffer → Call → Option (RingBuffer × Reply)
ring_step spare b (write from) = elim (rb_write_with_state spare b from true) [
  | none ↦ none
  | some (c, overflow, n) ↦ some (c, wrote overflow n)
]
ring_step spare b (read n) = elim (rb_read spare b n) [
  | none ↦ none
  | some (c, out) ↦ some (c, got out)
]
ring_step spare b (peek n) = elim (rb_peek spare b n) [
  | none ↦ none
  | some (c, out) ↦ some (c, got out)
]
ring_step spare b used = some (b, count (rb_used b))
ring_step spare b clear = some (rb_empty b, done)

unfoldable pub ring_run : (ℕ → List ℕ) → RingBuffer → List Call → Option (List Reply)
ring_run spare b [] = some []
ring_run spare b (c ∷ cs) = elim (ring_step spare b c) [
  | none ↦ none
  | some (b', r) ↦ elim (ring_run spare b' cs) [ none ↦ none | some rs ↦ some (r ∷ rs) ]
]
