-- ===== src/Reframer/Loop.antt =====
-- The loop of the reframer, round by round, and the whole call.
use native.Mathlib.Decide.{dec_lt}
use libltntstools.Base.{
  ℕ, zero, suc, ◌+◌, ◌-◌, ◌<◌, ◌≡◌, refl, sym, ap, ◌∙◌, arith, ltb, ◌==◌, some, true, false, List,
  [], ◌∷◌, ◌++◌, length, take, drop, append_assoc, append-nil, drop_over,
}
use libltntstools.Memory.{memcpy}
use libltntstools.Reframer.{Reframer, copy_length, send, write_loop, write}
use libltntstools.Reframer.Stream.{
  IsValid, Cuts, Cuts-moved, Cuts-sent, moved-IsValid, emptied-IsValid, copied, moved, pending,
  filled,
}

module _ (fuel : ℕ) (ctx : Reframer) (buf : List ℕ) (offset len : ℕ) (sent : List (List ℕ)) where
  loop_stop : len ≡ 0 → write_loop (suc fuel) ctx buf offset len sent ≡ some (ctx, sent)
  unfolding write_loop
  loop_stop e = rw e refl

  module _ (more : 0 < len) (filled : List ℕ)
      (e : memcpy ctx.send_buffer ctx.send_index buf offset (copy_length ctx len)
        ≡ some filled) where
    abbrev m : Reframer
    m = record ctx { send_buffer = filled; send_index = ctx.send_index + copy_length ctx len }

    loop_more :
        (next : Reframer) (frames : List (List ℕ))
        → send m ≡ (next, frames)
        → write_loop (suc fuel) ctx buf offset len sent
          ≡ write_loop fuel next buf
              (offset + copy_length ctx len)
              (len - copy_length ctx len)
              (sent ++ frames)
    unfolding write_loop
    loop_more next frames s =
        let test : ltb 0 len ≡ true = ground (arith, more) in
        rw (write_loop, test, e)
          (ap
            (λ (nf : Reframer × List (List ℕ)).
              write_loop fuel nf.0 buf (offset + copy_length ctx len) (len - copy_length ctx len)
                (sent ++ nf.1))
            s)

send_kept : (ctx : Reframer) → ctx.send_index < ctx.min_send_bytes → send ctx ≡ (ctx, [])
unfolding send
send_kept ctx h = ground (arith, h)

send_full :
    (ctx : Reframer)
    → ctx.send_index ≡ ctx.min_send_bytes
    → send ctx ≡ (record ctx { send_index = 0 }, take ctx.min_send_bytes ctx.send_buffer ∷ [])
unfolding send
send_full ctx h = ground (arith, h)

copy_length-full :
    (ctx : Reframer) (len : ℕ)
    → ctx.min_send_bytes - ctx.send_index < len
    → copy_length ctx len ≡ ctx.min_send_bytes - ctx.send_index
copy_length-full ctx len h = ground (arith, h)

write_loop-Cuts :
    (fuel : ℕ) (ctx : Reframer) (buf : List ℕ) (offset len : ℕ) (sent : List (List ℕ))
    → IsValid ctx
    → offset + len ≡ length buf
    → len < fuel
    → (c : Reframer) × (frames : List (List ℕ)) × (write_loop fuel ctx buf offset len sent
        ≡ some (c, sent ++ frames))
      × Cuts ctx (drop offset buf) c frames
write_loop-Cuts zero ctx buf offset len sent v inside h = absurd (omega (arith, h))
write_loop-Cuts (suc fuel) ctx buf offset zero sent v inside h = (
  ctx,
  [],
  loop_stop fuel ctx buf offset 0 sent refl ∙ ap (λ f. some (ctx, f)) (sym (append-nil sent)),
  record {
    valid = v;
    same_size = refl;
    whole = tt;
    stream =
        sym (append-nil (pending ctx))
        ∙ ap (λ r. pending ctx ++ r) (sym (drop_over offset buf (omega (arith, inside))));
  },
)
write_loop-Cuts (suc fuel) ctx buf offset (suc len) sent v inside h =
    let n = copy_length ctx (suc len) in
    let more : 0 < suc len = omega arith in
    let got = copied ctx buf offset (suc len) v inside more in
    let m = moved ctx buf offset (suc len) v inside more in
    let bytes = filled ctx buf offset (suc len) v inside more in
    elim (dec_lt (ctx.send_index + n) ctx.min_send_bytes) [
      | yes low ↦
          let (c, frames, ran, k) =
            write_loop-Cuts fuel m buf (offset + n) (suc len - n) (sent ++ [])
              (moved-IsValid ctx buf offset (suc len) v inside more low) (ground (arith, inside))
              (ground (arith, h, v.index_low)) in
          (
            c,
            frames,
            loop_more fuel ctx buf offset (suc len) sent more bytes got m [] (send_kept m low)
                ∙ ran
                ∙ ap (λ s. some (c, s ++ frames)) (append-nil sent),
            Cuts-moved ctx buf offset (suc len) v inside more low c frames k,
          )
      | no high ↦
          let full : ctx.send_index + n ≡ ctx.min_send_bytes = ground (arith, high, v.index_low) in
          let frame = take ctx.min_send_bytes bytes in
          let (c, frames, ran, k) =
            write_loop-Cuts fuel (record m { send_index = 0 }) buf (offset + n) (suc len - n)
              (sent ++ (frame ∷ [])) (emptied-IsValid ctx buf offset (suc len) v inside more)
              (ground (arith, inside)) (ground (arith, h, v.index_low)) in
          (
            c,
            frame ∷ frames,
            loop_more fuel ctx buf offset (suc len) sent more bytes got
                  (record m { send_index = 0 }) (frame ∷ []) (send_full m full)
                ∙ ran
                ∙ ap (λ s. some (c, s)) (append_assoc sent (frame ∷ []) frames),
            Cuts-sent ctx buf offset (suc len) v inside more full c frames k,
          )
    ]

-- A reframer whose buffer has the frame size, at least one byte, and is not full takes a call of any
-- length without an access out of bounds. Every frame that it sends has the frame size, the frames
-- one after the other with what still waits are what waited before with the bytes of the call
-- behind, and the reframer is left with a buffer of the same size that is not full.
pub write_lem :
    (ctx : Reframer) (buf : List ℕ)
    → IsValid ctx
    → (c : Reframer) × (frames : List (List ℕ)) × (write ctx buf ≡ some (c, frames))
      × Cuts ctx buf c frames
unfolding write
write_lem ctx buf v =
    let (c, frames, ran, k) =
      write_loop-Cuts (length buf + 1) ctx buf 0 (length buf) [] v (omega arith) (omega arith) in
    let sized : (ctx.min_send_bytes == 0) ≡ false = ground (arith, v.index_low) in
    (c, frames, rw sized ran, k)
