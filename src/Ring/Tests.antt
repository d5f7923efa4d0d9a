-- ===== src/Ring/Tests.antt =====
-- Runs of the ring, and its theorems at concrete rings.
use libltntstools.Base.{
  ℕ, ◌≡◌, refl, arith, true, false, some, inl, inr, List, [], ◌∷◌, ◌++◌, get_or, length-replicate,
  replicate, u32,
}
use libltntstools.Memory.{store, memcpy, read_block}
use libltntstools.Ring.{
  RingBuffer, rb_write_with_state, rb_read, rb_reader, rb_grow, make_room, place, fetch, release,
  advance_head, advance_tail, rb_remain_in_seg, rb_used,
}
use libltntstools.Ring.Valid.{IsValid, IsSpare}
use libltntstools.Ring.Contents.{SameLimits, contents}
use libltntstools.Ring.Write.{
  Stored, write_fits, write_overflows, write_grows, rb_grow_loses_wrapped,
}
use libltntstools.Ring.Read.{rb_read_lem}
use libltntstools.Ring.Queue.{
  Call, write, read, peek, used, wrote, got, count, queue_run, queue_step, fits, ring_run,
}
use libltntstools.Ring.Refine.{ring_run_refines}
use libltntstools.Ring.Dump.{rb_fwrite, rb_fwrite_lem, head_mark, tail_mark, length_mark}

abbrev spare : ℕ → List ℕ
spare n = replicate n 0xee

spare-IsSpare : IsSpare spare
spare-IsSpare n = length-replicate n 0xee

-- 8, 9 and 1, round the end of four bytes.
abbrev wrapped : RingBuffer
wrapped = record {
  storage = 1 ∷ 7 ∷ 8 ∷ 9 ∷ [];
  size = 4;
  size_initial = 4;
  size_max = 4;
  head = 2;
  fill = 3;
  using_mutex = false;
}

abbrev roomy : RingBuffer
roomy = record wrapped { size_max = 1000 }

abbrev straight : RingBuffer
straight = record roomy { head = 0 }

abbrev moved : RingBuffer
moved = record wrapped { fill = 0 }

wrapped-IsValid : IsValid wrapped
wrapped-IsValid = omega arith

contents-wrapped : contents wrapped ≡ 8 ∷ 9 ∷ 1 ∷ []
contents-wrapped = refl

read_runs : rb_read spare wrapped 2 ≡ some (record wrapped { head = 0; fill = 1 }, 8 ∷ 9 ∷ [])
unfolding rb_read rb_reader fetch release advance_head rb_used read_block
read_runs = refl

write_runs :
    rb_write_with_state spare wrapped (5 ∷ []) true
    ≡ some (record wrapped { storage = 1 ∷ 5 ∷ 8 ∷ 9 ∷ []; fill = 4 }, false, 1)
unfolding rb_write_with_state make_room place memcpy store advance_tail rb_remain_in_seg
write_runs = refl

write_fits_example :
    (c : RingBuffer) × (rb_write_with_state spare wrapped (5 ∷ []) true ≡ some (c, false, 1))
    × Stored wrapped (5 ∷ []) c
write_fits_example =
    write_fits spare wrapped (5 ∷ []) wrapped-IsValid (omega arith) (inl (omega arith))

write_overflows_example :
    (c : RingBuffer) × (rb_write_with_state spare wrapped (5 ∷ 6 ∷ []) true ≡ some (c, true, 2))
    × (contents c ≡ 1 ∷ 5 ∷ 6 ∷ [])
    × IsValid c
    × SameLimits wrapped c
write_overflows_example =
    write_overflows spare wrapped (5 ∷ 6 ∷ []) wrapped-IsValid (omega arith) (omega arith)
      (omega arith) (omega arith)

write_grows_example :
    (c : RingBuffer) × (rb_write_with_state spare straight (5 ∷ 6 ∷ []) true ≡ some (c, false, 2))
    × (contents c ≡ 1 ∷ 7 ∷ 8 ∷ 5 ∷ 6 ∷ [])
    × IsValid c
    × (c.size ≡ 260)
write_grows_example =
    write_grows spare straight (5 ∷ 6 ∷ []) spare-IsSpare (omega arith) (omega arith) (omega arith)
      (omega arith)

rb_grow_loses_wrapped_example :
    (c : RingBuffer) × (rb_grow spare roomy 8 ≡ some c) × (get_or (contents c) 2 0 ≡ 0xee)
rb_grow_loses_wrapped_example =
    rb_grow_loses_wrapped spare roomy 8 2 (omega arith) (omega arith) (omega arith) (omega arith)
      (omega arith)

rb_read_lem_example :
    (c : RingBuffer) × (rb_read spare wrapped 2 ≡ some (c, 8 ∷ 9 ∷ []))
    × (contents c ≡ 1 ∷ [])
    × IsValid c
    × SameLimits wrapped c
rb_read_lem_example = rb_read_lem spare wrapped 2 spare-IsSpare wrapped-IsValid

rb_fwrite_lem_example :
    (end : RingBuffer) × (rb_fwrite spare 10 wrapped
      ≡ some (end, head_mark ++ (length_mark (u32 3) ++ ((8 ∷ 9 ∷ 1 ∷ []) ++ tail_mark))))
    × (contents end ≡ [])
    × IsValid end
rb_fwrite_lem_example =
    rb_fwrite_lem spare 10 wrapped spare-IsSpare wrapped-IsValid (omega arith) (omega arith)

abbrev calls : List Call
calls = write (5 ∷ 6 ∷ []) ∷ peek 2 ∷ read 2 ∷ used ∷ []

ring_run_refines_example :
    ring_run spare wrapped calls
    ≡ some (wrote true 2 ∷ got (1 ∷ 5 ∷ []) ∷ got (1 ∷ 5 ∷ []) ∷ count 1 ∷ [])
unfolding queue_run queue_step fits
ring_run_refines_example =
    ring_run_refines spare 4 wrapped calls spare-IsSpare
      (record { valid = wrapped-IsValid; limit = refl; initial = refl })
      ((omega arith, inr (omega arith)), (tt, (tt, (tt, tt))))
