-- ===== src/Ring.antt =====
-- src/klringbuffer.c: a byte ring that grows up to a limit. A call is one step on the record,
-- for a caller that alone uses the ring meanwhile: the source holds the ring's lock in most of a call,
-- and lets go of it on the overflow path of a write, before it drops the oldest bytes.
pub mod Valid
pub mod Contents
pub mod Write
pub mod Read
pub mod Dump
pub mod Queue
pub mod Refine
mod Tests
use libltntstools.Base.{
  ℕ, ◌+◌, ◌-◌, ◌*◌, ◌%◌, ◌^◌, ltb, leb, ◌==◌, ◌&&◌, ◌||◌, if◌then◌else◌, u64, Bool, true, false,
  Option, none, some, List, [], ◌∷◌, ◌++◌, length, take, drop,
}
use libltntstools.Memory.{memcpy, read_block, realloc}

-- `KLRingBuffer`; `storage` is the allocation that `data` points to.
pub record RingBuffer : Type 0 where
  pub storage : List ℕ
  pub size : ℕ
  pub size_initial : ℕ
  pub size_max : ℕ
  pub head : ℕ
  pub fill : ℕ
  pub using_mutex : Bool

infixl 5 ◌>>=◌
abbrev ◌>>=◌ {ℓ κ} : {A : Type ℓ} {B : Type κ} → Option A → (A → Option B) → Option B
none >>= f = none
some a >>= f = f a

-- `struct_ok` and `storage` are what the two calls of malloc return; the storage is not cleared.
pub rb_new : Bool → Option (List ℕ) → ℕ → ℕ → Option RingBuffer
rb_new struct_ok storage size size_max =
    if size == 0 || ltb size_max size
    then none
    else if struct_ok
    then (do
      s ← storage
      some (record {
        storage = s;
        size = size;
        size_initial = size;
        size_max = size_max;
        head = 0;
        fill = 0;
        using_mutex = false;
      }))
    else none

pub rb_new_threadsafe : Bool → Option (List ℕ) → ℕ → ℕ → Option RingBuffer
rb_new_threadsafe struct_ok storage size size_max = do
  rb ← rb_new struct_ok storage size size_max
  some (record rb { using_mutex = true })

pub rb_is_empty : RingBuffer → Bool
rb_is_empty rb = rb.fill == 0

pub rb_is_full : RingBuffer → Bool
rb_is_full rb = rb.fill == rb.size_max

pub rb_used : RingBuffer → ℕ
rb_used rb = rb.fill

pub rb_unused : RingBuffer → ℕ
rb_unused rb = u64 (rb.size_max + 2 ^ 64 - rb.fill)

pub rb_empty : RingBuffer → RingBuffer
rb_empty rb = record rb { head = 0; fill = 0 }

-- `_rb_remain_in_seg`
pub rb_remain_in_seg : RingBuffer → ℕ
rb_remain_in_seg rb = u64 (rb.size + 2 ^ 64 - rb.fill)

-- `_rb_grow`; `none` is its -2, which leaves the ring as it is.
pub rb_grow : (ℕ → List ℕ) → RingBuffer → ℕ → Option RingBuffer
rb_grow spare buf increment =
    if ltb buf.size_max (u64 (buf.size + increment))
    then none
    else some (record buf {
      storage = realloc spare buf.storage (u64 (buf.size + increment));
      size = u64 (buf.size + increment);
    })

-- `_rb_shrink_reset`
pub rb_shrink_reset : (ℕ → List ℕ) → RingBuffer → RingBuffer
rb_shrink_reset spare buf = record buf {
  storage = realloc spare buf.storage buf.size_initial;
  size = buf.size_initial;
  head = 0;
  fill = 0;
}

-- `_advance_tail`
pub advance_tail : RingBuffer → ℕ → RingBuffer
advance_tail buf bytes = record buf { fill = u64 (buf.fill + bytes) }

-- `_advance_head`
pub advance_head : RingBuffer → ℕ → RingBuffer
advance_head buf bytes = record buf {
  head = u64 (buf.head + bytes) % buf.size;
  fill = u64 (buf.fill + 2 ^ 64 - bytes);
}

pub rb_get_write_pos : RingBuffer → ℕ
rb_get_write_pos buf = u64 (buf.head + buf.fill) % buf.size % 2 ^ 32

pub rb_get_read_pos : RingBuffer → ℕ
rb_get_read_pos buf = buf.head % 2 ^ 32

pub rb_discard : RingBuffer → ℕ → RingBuffer
rb_discard rb bytes = advance_head rb bytes

-- The first half of `rb_write_with_state`: space for `bytes`, and `*didOverflow`.
pub make_room : (ℕ → List ℕ) → RingBuffer → ℕ → RingBuffer × Bool
make_room spare buf bytes =
    if ltb (rb_remain_in_seg buf) bytes
    then (elim (rb_grow spare buf (u64 (bytes * 128))) [
      | none ↦ (rb_discard buf bytes, true)
      | some grown ↦ (grown, false)
    ])
    else (buf, false)

-- The second half: the bytes are stored at the tail, in one run or in two.
pub place : RingBuffer → List ℕ → Option (List ℕ)
place buf from =
    let bytes = length from in
    let tail = u64 (buf.head + buf.fill) % buf.size in
    let write_end = u64 (buf.head + buf.fill + bytes) % buf.size in
    let first_write = buf.size - tail in
    if leb tail write_end then memcpy buf.storage tail from 0 bytes else (do
      first ← memcpy buf.storage tail from 0 first_write
      memcpy first 0 from first_write (u64 (bytes + 2 ^ 64 - first_write)))

-- The new ring, `*didOverflow` and the result. `none` is undefined behaviour: a memcpy past the
-- end, or a store through `didOverflow` where it is no pointer (`has_flag` is false).
pub rb_write_with_state : (ℕ → List ℕ) → RingBuffer → List ℕ → Bool → Option (RingBuffer × Bool × ℕ)
rb_write_with_state spare buf from has_flag =
    let (roomy, overflow) = make_room spare buf (length from) in
    if has_flag
    then (do
      stored ← place roomy from
      some (advance_tail (record roomy { storage = stored }) (length from), overflow, length from))
    else none

pub rb_write : (ℕ → List ℕ) → RingBuffer → List ℕ → Option (RingBuffer × Bool × ℕ)
rb_write spare buf from = rb_write_with_state spare buf from false

-- What `rb_reader` copies out: `bytes` from the head, in one run or in two.
pub fetch : RingBuffer → ℕ → Option (List ℕ)
fetch buf bytes =
    let end_read = u64 (buf.head + bytes) % buf.size in
    let first_read = buf.size - buf.head in
    if leb end_read buf.head
    then (do
      first ← read_block buf.storage buf.head first_read
      second ← read_block buf.storage 0 (u64 (bytes + 2 ^ 64 - first_read))
      some (first ++ second))
    else read_block buf.storage buf.head bytes

-- The end of `rb_reader`: an empty ring gives back what it grew by.
pub release : (ℕ → List ℕ) → RingBuffer → RingBuffer
release spare b =
    if (rb_used b == 0) && ltb b.size_initial b.size then rb_shrink_reset spare b else b

-- The new ring and what is copied to the caller, whose length is the result.
pub rb_reader : (ℕ → List ℕ) → RingBuffer → ℕ → Bool → Option (RingBuffer × List ℕ)
rb_reader spare buf wanted advance_read_head =
    let bytes = if ltb (rb_used buf) wanted then rb_used buf else wanted in
    if bytes == 0 then some (buf, []) else (do
      out ← fetch buf bytes
      some (release spare (if advance_read_head then advance_head buf bytes else buf), out))

pub rb_read : (ℕ → List ℕ) → RingBuffer → ℕ → Option (RingBuffer × List ℕ)
rb_read spare buf bytes = rb_reader spare buf bytes true

pub rb_peek : (ℕ → List ℕ) → RingBuffer → ℕ → Option (RingBuffer × List ℕ)
rb_peek spare buf bytes = rb_reader spare buf bytes false

-- `malloc` of the caller's buffer does not fail.
pub rb_read_alloc : (ℕ → List ℕ) → RingBuffer → ℕ → Option (RingBuffer × List ℕ)
rb_read_alloc spare buf bytes = rb_reader spare buf bytes true
