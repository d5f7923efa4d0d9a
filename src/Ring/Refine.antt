-- ===== src/Ring/Refine.antt =====
-- A ring that may not grow refines the queue of its bytes.
use native.Mathlib.Decide.{dec_le}
use libltntstools.Base.{
  ℕ, ◌+◌, ◌≡◌, refl, ◌∙◌, ap, sym, subst, inl, some, List, [], ◌∷◌, length, arith,
}
use libltntstools.Ring.{RingBuffer, rb_used, rb_empty}
use libltntstools.Ring.Valid.{IsValid, IsSpare}
use libltntstools.Ring.Contents.{SameLimits, contents, length-contents}
use libltntstools.Ring.Write.{write_fits, write_overflows}
use libltntstools.Ring.Read.{rb_read_lem, rb_peek_lem}
use libltntstools.Ring.Queue.{
  Call, write, read, peek, used, clear, Reply, fits, queue_step, queue_run, IsAllowed, AllAllowed,
  ring_step, ring_run,
}

-- A ring of `most` bytes that is allocated whole from the start.
pub record IsFixed (most : ℕ) (b : RingBuffer) : Type 0 where
  pub valid : IsValid b
  pub limit : b.size_max ≡ most
  pub initial : b.size_initial ≡ most

keeps-IsFixed :
    {most : ℕ} {b c : RingBuffer} → IsFixed most b → IsValid c → SameLimits b c → IsFixed most c
keeps-IsFixed f v (l, i) = record { valid = v; limit = l ∙ f.limit; initial = i ∙ f.initial }

abbrev Steps : (ℕ → List ℕ) → ℕ → RingBuffer → Call → Type 0
Steps spare most b c =
    (b' : RingBuffer) × (ring_step spare b c ≡ some (b', (queue_step most (contents b) c).1))
    × (contents b' ≡ (queue_step most (contents b) c).0)
    × IsFixed most b'

write_step :
    (spare : ℕ → List ℕ) (most : ℕ) (b : RingBuffer) (from : List ℕ)
    → IsFixed most b
    → IsAllowed most (contents b) (write from)
    → Steps spare most b (write from)
unfolding ring_step queue_step fits
write_step spare most b from f (short, room) =
    elim (dec_le (length (contents b) + length from) most) [
      | yes p ↦
          let (c, runs, stored) =
            write_fits spare b from f.valid
              (omega (arith, length-contents b, f.limit, f.initial, f.valid.initial_in))
              (inl (omega (arith, f.initial, f.valid.initial_in))) in
          (c, ground (arith, runs), ground (arith, stored.0), keeps-IsFixed f stored.1 stored.3)
      | no p ↦
          let (c, runs, holds, valid, limits) =
            write_overflows spare b from f.valid
              (omega (arith, length-contents b, f.limit, f.valid.size_in))
              (omega (
                arith,
                length-contents b,
                f.limit,
                f.initial,
                f.valid.initial_in,
                f.valid.fill_in,
                f.valid.size_in,
              ))
              (omega (arith, length-contents b, room))
              (omega (arith, f.initial, f.valid.initial_in)) in
          (c, ground (arith, runs), ground (arith, holds), keeps-IsFixed f valid limits)
    ]

step_refines :
    (spare : ℕ → List ℕ) (most : ℕ) (b : RingBuffer) (c : Call)
    → IsSpare spare
    → IsFixed most b
    → IsAllowed most (contents b) c
    → Steps spare most b c
unfolding ring_step queue_step rb_used rb_empty
step_refines spare most b (write from) s f ok = write_step spare most b from f ok
step_refines spare most b (read n) s f ok =
    let (c, runs, holds, valid, limits) = rb_read_lem spare b n s f.valid in
    (c, rw (runs, ring_step), holds, keeps-IsFixed f valid limits)
step_refines spare most b (peek n) s f ok =
    (b, rw (rb_peek_lem spare b n f.valid, ring_step), refl, f)
step_refines spare most b used s f ok =
    (b, ap (λ k. some (b, Reply.count k)) (sym (length-contents b)), refl, f)
step_refines spare most b clear s f ok = (
  record b { head = 0; fill = 0 },
  refl,
  refl,
  record { valid = ground (arith, f.valid); limit = f.limit; initial = f.initial },
)

-- No sequence of allowed calls tells a ring that may not grow from the queue of its bytes, and
-- none of them faults.
pub ring_run_refines :
    (spare : ℕ → List ℕ) (most : ℕ) (b : RingBuffer) (calls : List Call)
    → IsSpare spare
    → IsFixed most b
    → AllAllowed most (contents b) calls
    → ring_run spare b calls ≡ some (queue_run most (contents b) calls)
unfolding ring_run queue_run
ring_run_refines spare most b [] s f ok = refl
ring_run_refines spare most b (c ∷ cs) s f (ok, oks) =
    let (b', runs, holds, fixed) = step_refines spare most b c s f ok in
    let rest =
      ring_run_refines spare most b' cs s fixed
        (subst (λ q. AllAllowed most q cs) (sym holds) oks) in
    rw (runs, ring_run)
      (rw rest (ap (λ q. some ((queue_step most (contents b) c).1 ∷ queue_run most q cs)) holds))
