-- ===== src/Reframer/Stream.antt =====
-- The reframer against the stream that it is given: nothing is lost, added or moved.
use libltntstools.Base.{
  ℕ, zero, suc, ◌+◌, ◌<◌, ◌≡◌, sym, ap, ◌∙◌, arith, some, List, [], ◌∷◌, ◌++◌, length, take, drop,
  length-take, length-drop, take-append-drop, append_assoc, drop_over,
}
use libltntstools.Memory.{memcpy, store}
use libltntstools.Memory.Copy.{memcpy-ok, length-store}
use libltntstools.Memory.Prefix.{take-store}
use libltntstools.Reframer.{Reframer, copy_length}

pub record IsValid (ctx : Reframer) : Type 0 where
  pub allocated : length ctx.send_buffer ≡ ctx.min_send_bytes
  pub index_low : ctx.send_index < ctx.min_send_bytes

-- The bytes that wait for more.
abbrev pub pending : Reframer → List ℕ
pending ctx = take ctx.send_index ctx.send_buffer

abbrev pub joined : List (List ℕ) → List ℕ
joined [] = []
joined (f ∷ fs) = f ++ joined fs

abbrev pub AllOf : ℕ → List (List ℕ) → Type 0
AllOf n [] = Unit {0}
AllOf n (f ∷ fs) = (length f ≡ n) × AllOf n fs

-- From `ctx` and the bytes `rest`, `c` and `frames` are what comes out.
pub record Cuts (ctx : Reframer) (rest : List ℕ) (c : Reframer) (frames : List (List ℕ))
    : Type 0 where
  pub valid : IsValid c
  pub same_size : c.min_send_bytes ≡ ctx.min_send_bytes
  pub whole : AllOf ctx.min_send_bytes frames
  pub stream : joined frames ++ pending c ≡ pending ctx ++ rest

drop-drop : (n k : ℕ) (xs : List ℕ) → drop k (drop n xs) ≡ drop (n + k) xs
drop-drop zero k xs = ap (λ m. drop m xs) {x = k} {y = 0 + k} (omega arith)
drop-drop (suc n) k [] = drop_over k [] (omega arith) ∙ sym (drop_over (suc n + k) [] (omega arith))
drop-drop (suc n) k (x ∷ xs) =
    drop-drop n k xs ∙ ap (λ m. drop m (x ∷ xs)) {x = suc (n + k)} {y = suc n + k} (omega arith)

-- One round: `n` bytes are stored behind those that wait.
module _ (ctx : Reframer) (buf : List ℕ) (offset len : ℕ) (v : IsValid ctx)
    (inside : offset + len ≡ length buf) (more : 0 < len) where
  abbrev n : ℕ
  n = copy_length ctx len

  abbrev pub filled : List ℕ
  filled = store ctx.send_buffer ctx.send_index (take n (drop offset buf))

  abbrev pub moved : Reframer
  moved = record ctx { send_buffer = filled; send_index = ctx.send_index + n }

  taken : length (take n (drop offset buf)) ≡ n
  taken = ground (arith, length-take n (drop offset buf), length-drop offset buf, inside)

  pub copied : memcpy ctx.send_buffer ctx.send_index buf offset n ≡ some filled
  copied =
      memcpy-ok ctx.send_buffer ctx.send_index buf offset n
        (ground (arith, v.allocated, v.index_low)) (ground (arith, inside))

  pending-moved : take (ctx.send_index + n) filled ≡ pending ctx ++ take n (drop offset buf)
  pending-moved =
      ap (λ k. take (ctx.send_index + k) filled) (sym taken)
      ∙ take-store ctx.send_buffer ctx.send_index (take n (drop offset buf))
          (ground (arith, v.allocated, v.index_low, taken))

  -- The bytes of the round and those behind it.
  regrouped :
      (pending ctx ++ take n (drop offset buf)) ++ drop (offset + n) buf
      ≡ pending ctx ++ drop offset buf
  regrouped =
      append_assoc (pending ctx) (take n (drop offset buf)) (drop (offset + n) buf)
      ∙ ap (λ r. pending ctx ++ (take n (drop offset buf) ++ r)) (sym (drop-drop offset n buf))
      ∙ ap (λ r. pending ctx ++ r) (take-append-drop n (drop offset buf))

  pub moved-IsValid : ctx.send_index + n < ctx.min_send_bytes → IsValid moved
  moved-IsValid h = record {
    allocated =
        length-store ctx.send_buffer ctx.send_index (take n (drop offset buf)) ∙ v.allocated;
    index_low = h;
  }

  pub emptied-IsValid : IsValid (record moved { send_index = 0 })
  emptied-IsValid = record {
    allocated =
        length-store ctx.send_buffer ctx.send_index (take n (drop offset buf)) ∙ v.allocated;
    index_low = omega (arith, v.index_low);
  }

  -- The buffer is not full yet.
  pub Cuts-moved :
      ctx.send_index + n < ctx.min_send_bytes
      → (c : Reframer) (frames : List (List ℕ)) → Cuts moved (drop (offset + n) buf) c frames
      → Cuts ctx (drop offset buf) c frames
  Cuts-moved h c frames k = record {
    valid = k.valid;
    same_size = k.same_size;
    whole = k.whole;
    stream = k.stream ∙ ap (λ r. r ++ drop (offset + n) buf) pending-moved ∙ regrouped;
  }

  -- The buffer is full and goes out.
  pub Cuts-sent :
      ctx.send_index + n ≡ ctx.min_send_bytes
      → (c : Reframer) (frames : List (List ℕ))
      → Cuts (record moved { send_index = 0 }) (drop (offset + n) buf) c frames
      → Cuts ctx (drop offset buf) c (take ctx.min_send_bytes filled ∷ frames)
  Cuts-sent h c frames k = record {
    valid = k.valid;
    same_size = k.same_size;
    whole = (
      length-take ctx.min_send_bytes filled ∙ ground (arith, emptied-IsValid.allocated),
      k.whole,
    );
    stream =
        append_assoc (take ctx.min_send_bytes filled) (joined frames) (pending c)
        ∙ ap (λ r. take ctx.min_send_bytes filled ++ r) k.stream
        ∙ ap (λ m. take m filled ++ drop (offset + n) buf) (sym h)
        ∙ ap (λ r. r ++ drop (offset + n) buf) pending-moved
        ∙ regrouped;
  }
