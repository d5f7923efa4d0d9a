-- ===== src/Reframer.antt =====
-- src/reframer.c: a stream of bytes cut into frames of one size. The bytes that a call is given are
-- a list, whose length is `lengthBytes`; the callbacks that it makes are the list of what they get.
pub mod Stream
pub mod Loop
mod Tests
use libltntstools.Base.{
  ℕ, zero, suc, ◌+◌, ◌-◌, ltb, ◌==◌, if◌then◌else◌, Option, none, some, List, [], ◌∷◌, ◌++◌, length,
  take,
}
use libltntstools.Memory.{memcpy}

pub record Reframer : Type 0 where
  pub send_buffer : List ℕ
  pub send_index : ℕ
  pub min_send_bytes : ℕ

-- `ltntstools_reframer_alloc` with a callback; `spare n` is what malloc of `n` bytes holds.
pub alloc : (ℕ → List ℕ) → ℕ → Reframer
alloc spare frame_size_bytes = record {
  send_buffer = spare frame_size_bytes;
  send_index = 0;
  min_send_bytes = frame_size_bytes;
}

abbrev pub copy_length : Reframer → ℕ → ℕ
copy_length ctx len =
    if ltb (ctx.min_send_bytes - ctx.send_index) len
    then ctx.min_send_bytes - ctx.send_index
    else len

-- The end of a round: a full buffer goes to the callback.
pub send : Reframer → Reframer × List (List ℕ)
send ctx =
    if ctx.send_index == ctx.min_send_bytes
    then (record ctx { send_index = 0 }, take ctx.min_send_bytes ctx.send_buffer ∷ [])
    else (ctx, [])

-- The loop over `len` bytes from `offset` on, with the frames sent so far. `none` is an access out of
-- bounds, or the end of the fuel.
pub write_loop : ℕ → Reframer → List ℕ → ℕ → ℕ → List (List ℕ) → Option (Reframer × List (List ℕ))
unfolding send
write_loop zero ctx buf offset len sent = none
write_loop (suc fuel) ctx buf offset len sent =
    let cplen = copy_length ctx len in
    let round = λ (filled : List ℕ).
      (let (next, frames) =
          send (record ctx { send_buffer = filled; send_index = ctx.send_index + cplen }) in
        write_loop fuel next buf (offset + cplen) (len - cplen) (sent ++ frames)) in
    if ltb 0 len
    then elim (memcpy ctx.send_buffer ctx.send_index buf offset cplen) [
      | none ↦ none
      | some filled ↦ round filled
    ]
    else some (ctx, sent)

-- `ltststools_reframer_write`
pub write : Reframer → List ℕ → Option (Reframer × List (List ℕ))
unfolding write_loop
write ctx buf =
    if ctx.min_send_bytes == 0
    then some (ctx, buf ∷ [])
    else write_loop (length buf + 1) ctx buf 0 (length buf) []
