-- ===== src/Sei.antt =====
-- src/sei-timestamp.c: times in a user-data SEI message. The buffer is a list of bytes, whose length
-- is `lengthBytes`.
pub mod Fields
pub mod Times
mod Tests
use libltntstools.Base.{
  ℕ, zero, suc, ◌+◌, ◌-◌, ◌*◌, ◌/◌, ◌^◌, ltb, ◌||◌, if◌then◌else◌, u32, bit_and, bit_or, Option,
  none, some, List, [], ◌∷◌, length, get_or, replicate,
}
use libltntstools.Base.Int.{ℤ}
use libltntstools.Memory.{store}
use libltntstools.Timeval.{Timeval, timeval_subtract_ms}

abbrev pub uuid_sei_timestamp : List ℕ
uuid_sei_timestamp =
    0x59 ∷ 0x96 ∷ 0xff ∷ 0x28 ∷ 0x17 ∷ 0xca ∷ 0x41 ∷ 0x96 ∷ 0x8d ∷ 0xe3 ∷ 0xe5 ∷ 0x3f ∷ 0xe2 ∷ 0xf9
    ∷ 0x92 ∷ 0xae ∷ []

abbrev pub bit_delimiter : ℕ
bit_delimiter = 0x81

abbrev pub field_count : ℕ
field_count = 9

abbrev pub payload_length : ℕ
payload_length = 16 + field_count * 6

-- `sei_timestamp_alloc`, where there is memory.
unfoldable pub alloc : List ℕ
alloc = store (replicate payload_length 0) 0 uuid_sei_timestamp

-- `sei_timestamp_init`: `none` is -1.
unfoldable pub init : List ℕ → Option (List ℕ)
init buf =
    if ltb (length buf) payload_length
    then none
    else some (store (store buf 0 (replicate (length buf) 0)) 0 uuid_sei_timestamp)

abbrev pub field_offset : ℕ → ℕ
field_offset nr = 16 + (nr - 1) * 6

-- The six bytes of a field.
abbrev pub field_bytes : ℕ → List ℕ
field_bytes v =
    bit_and (v / 2 ^ 24) 0xff
    ∷ bit_and (v / 2 ^ 16) 0xff
    ∷ bit_delimiter
    ∷ bit_and (v / 2 ^ 8) 0xff
    ∷ bit_and v 0xff
    ∷ bit_delimiter
    ∷ []

-- `sei_timestamp_field_set`: `none` is -1, which leaves the buffer as it is.
unfoldable pub field_set : List ℕ → ℕ → ℕ → Option (List ℕ)
field_set buffer nr v =
    if ltb nr 1 || ltb field_count nr
    then none
    else if ltb (length buffer) (field_offset nr + 6)
    then none
    else some (store buffer (field_offset nr) (field_bytes v))

-- What a reader of a field finds: its number is refused, it lies past the end of the buffer, which C
-- leaves undefined, or its value.
pub data Got : Type 0 where
  refused : Got
  out_of_bounds : Got
  got : ℕ → Got

-- `sei_timestamp_field_get`
unfoldable pub field_get : List ℕ → ℕ → Got
field_get buffer nr =
    let o = field_offset nr in
    if ltb nr 1 || ltb field_count nr
    then refused
    else if ltb (length buffer) (o + 5)
    then out_of_bounds
    else got (
        bit_or
          (bit_or
            (bit_or (u32 (get_or buffer o 0 * 2 ^ 24)) (u32 (get_or buffer (o + 1) 0 * 2 ^ 16)))
            (u32 (get_or buffer (o + 3) 0 * 2 ^ 8)))
          (u32 (get_or buffer (o + 4) 0)))

-- A time in two variables: `none` is a read past the end, or of a variable that was never set.
abbrev pub time_of : Got → Got → Option Timeval
time_of (got secs) (got usecs) = some (record { tv_sec = secs; tv_usec = usecs })
time_of g h = none

-- `sei_timestamp_value_timeval_query`
unfoldable pub value_timeval_query : List ℕ → ℕ → Option Timeval
value_timeval_query buffer nr = time_of (field_get buffer nr) (field_get buffer (nr + 1))

-- A store that is refused is not looked at.
abbrev pub or_else : Option (List ℕ) → List ℕ → List ℕ
or_else none buffer = buffer
or_else (some b) buffer = b

-- `sei_timestamp_value_timeval_set`, with the time given.
unfoldable pub value_timeval_set : List ℕ → ℕ → Timeval → List ℕ
value_timeval_set buffer nr t =
    let b = or_else (field_set buffer nr (u32 t.tv_sec)) buffer in
    or_else (field_set b (nr + 1) (u32 t.tv_usec)) b

-- `sei_timestamp_query_codec_latency_ms`: the loop reads the fields 0 to 7 into v[0] to v[7], of
-- which v[4] to v[7] are used; `none` as in `time_of`.
unfoldable pub query_codec_latency_ms : List ℕ → Option ℤ
query_codec_latency_ms buffer = elim (time_of (field_get buffer 4) (field_get buffer 5)) [
  | none ↦ none
  | some begin ↦ elim (time_of (field_get buffer 6) (field_get buffer 7)) [
    | none ↦ none
    | some end ↦ some (timeval_subtract_ms end begin)
  ]
]
