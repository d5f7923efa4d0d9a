-- ===== src/Reframer/Tests.antt =====
-- The reframer at concrete inputs.
use libltntstools.Base.{ℕ, ◌≡◌, refl, arith, some, List, [], ◌∷◌}
use libltntstools.Memory.{memcpy, store}
use libltntstools.Reframer.{Reframer, alloc, write}
use libltntstools.Reframer.Stream.{IsValid, Cuts}
use libltntstools.Reframer.Loop.{write_lem}

abbrev waiting : Reframer
waiting = record { send_buffer = 1 ∷ 2 ∷ 0 ∷ []; send_index = 2; min_send_bytes = 3 }

write_two_frames :
    write waiting (3 ∷ 4 ∷ 5 ∷ 6 ∷ 7 ∷ [])
    ≡ some (
      record { send_buffer = 7 ∷ 5 ∷ 6 ∷ []; send_index = 1; min_send_bytes = 3 },
      (1 ∷ 2 ∷ 3 ∷ []) ∷ (4 ∷ 5 ∷ 6 ∷ []) ∷ [],
    )
unfolding write memcpy store
write_two_frames = refl

-- With frame size 0 the bytes go through as they are.
write_unframed :
    write (alloc (λ n. []) 0) (3 ∷ 4 ∷ []) ≡ some (alloc (λ n. []) 0, (3 ∷ 4 ∷ []) ∷ [])
unfolding write alloc
write_unframed = refl

waiting-IsValid : IsValid waiting
waiting-IsValid = record { allocated = refl; index_low = omega arith }

write_lem_example :
    (c : Reframer) × (frames : List (List ℕ)) × (write waiting (3 ∷ 4 ∷ 5 ∷ 6 ∷ 7 ∷ [])
      ≡ some (c, frames))
    × Cuts waiting (3 ∷ 4 ∷ 5 ∷ 6 ∷ 7 ∷ []) c frames
write_lem_example = write_lem waiting (3 ∷ 4 ∷ 5 ∷ 6 ∷ 7 ∷ []) waiting-IsValid
