-- ===== src/Sei/Times.antt =====
-- Times in the SEI payload, and the latency between two of them.
use libltntstools.Base.{
  ℕ, ◌+◌, ◌*◌, ◌/◌, ◌^◌, ◌<◌, ◌≤◌, ◌≡◌, refl, ap₂, ◌∙◌, some, List, length, arith,
}
use libltntstools.Timeval.{Timeval}
use libltntstools.Base.Int.{sub_ℕ}
use libltntstools.Sei.{time_of, value_timeval_query, value_timeval_set, query_codec_latency_ms}
use libltntstools.Sei.Fields.{IsField, value_timeval_set_lem}

-- A time of two 32-bit numbers.
pub record IsShort (t : Timeval) : Type 0 where
  pub secs : t.tv_sec < 2 ^ 32
  pub usecs : t.tv_usec < 2 ^ 32

IsField-at : (buffer : List ℕ) (nr : ℕ) → 58 ≤ length buffer → 1 ≤ nr → nr ≤ 7 → IsField buffer nr
IsField-at buffer nr long low high = record {
  low = low;
  high = omega (arith, high);
  room = omega (arith, long, high, low);
}

-- A time whose two fields, numbered 1 to 9, lie inside the buffer and whose seconds and microseconds
-- fit 32 bits is read back after it is set.
pub query-set :
    (buffer : List ℕ) (nr : ℕ) (t : Timeval)
    → IsField buffer nr
    → IsField buffer (nr + 1)
    → IsShort t
    → value_timeval_query (value_timeval_set buffer nr t) nr ≡ some t
unfolding value_timeval_query
query-set buffer nr t f g k =
    let (len, first, second, other) = value_timeval_set_lem buffer nr t f g k.secs k.usecs in
    ap₂ time_of first second

-- In a buffer of at least 58 bytes, with the time of frame codec entry in the fields 4 and 5 and then
-- the time of frame codec exit in the fields 6 and 7, all of them 32-bit numbers, the latency is
-- the exit time less the entry time, each of them in whole milliseconds, and negative where the exit is
-- before the entry.
pub latency_lem :
    (buffer : List ℕ) (begin end : Timeval)
    → 58 ≤ length buffer
    → IsShort begin
    → IsShort end
    → query_codec_latency_ms (value_timeval_set (value_timeval_set buffer 4 begin) 6 end)
      ≡ some (
          sub_ℕ
            (end.tv_sec * 1000 + end.tv_usec / 1000)
            (begin.tv_sec * 1000 + begin.tv_usec / 1000))
unfolding query_codec_latency_ms
latency_lem buffer begin end long k l =
    let entry = value_timeval_set buffer 4 begin in
    let (len, f₄, f₅, other) =
      value_timeval_set_lem buffer 4 begin (IsField-at buffer 4 long (omega arith) (omega arith))
        (IsField-at buffer 5 long (omega arith) (omega arith)) k.secs k.usecs in
    let long' : 58 ≤ length entry = omega (arith, len, long) in
    let (len', f₆, f₇, other') =
      value_timeval_set_lem entry 6 end (IsField-at entry 6 long' (omega arith) (omega arith))
        (IsField-at entry 7 long' (omega arith) (omega arith)) l.secs l.usecs in
    rw
      (
        query_codec_latency_ms,
        other' 4 (omega arith) (λ e. absurd (omega (arith, e))) (λ e. absurd (omega (arith, e)))
            ∙ f₄,
        other' 5 (omega arith) (λ e. absurd (omega (arith, e))) (λ e. absurd (omega (arith, e)))
            ∙ f₅,
        f₆,
        f₇,
      )
      refl
