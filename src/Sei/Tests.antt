-- ===== src/Sei/Tests.antt =====
-- SEI timestamps at concrete inputs.
use libltntstools.Base.{
  ◌*◌, ◌/◌, ◌+◌, ℕ, ◌≡◌, ◌≢◌, ◌<◌, ◌≤◌, refl, arith, none, some, List, length, replicate, get_or,
}
use libltntstools.Base.Int.{sub_ℕ, pos}
use libltntstools.Memory.{store}
use libltntstools.Timeval.{Timeval}
use libltntstools.Sei.{
  alloc, init, field_get, field_set, refused, out_of_bounds, got, value_timeval_query,
  value_timeval_set, query_codec_latency_ms,
}
use libltntstools.Sei.Fields.{IsField, field_set_lem}
use libltntstools.Sei.Times.{query-set, latency_lem}

abbrev payload : List ℕ
payload = replicate 70 0

abbrev entry_time : Timeval
entry_time = record { tv_sec = 1600000000; tv_usec = 500000 }

abbrev exit_time : Timeval
exit_time = record { tv_sec = 1600000001; tv_usec = 250000 }

init_short : init (replicate 69 0) ≡ none
unfolding init
init_short = refl

init-alloc : init (replicate 70 7) ≡ some alloc
unfolding init alloc store
init-alloc = refl

get_refused : field_get payload 0 ≡ refused
unfolding field_get
get_refused = refl

-- The reader does not look at the length of the buffer.
get_short : field_get (replicate 20 0) 1 ≡ out_of_bounds
unfolding field_get
get_short = refl

latency_test :
    query_codec_latency_ms (value_timeval_set (value_timeval_set payload 4 entry_time) 6 exit_time)
    ≡ some (pos 750)
unfolding query_codec_latency_ms value_timeval_set field_set field_get store
latency_test = refl

payload-IsField_3 : IsField payload 3
payload-IsField_3 = record { low = omega arith; high = omega arith; room = omega arith }

payload-IsField_4 : IsField payload 4
payload-IsField_4 = record { low = omega arith; high = omega arith; room = omega arith }

field_set_lem_example :
    (b : List ℕ) × (field_set payload 3 0x12345678 ≡ some b)
    × (length b ≡ length payload)
    × ((i : ℕ) → i < 16 → get_or b i 0 ≡ get_or payload i 0)
    × (field_get b 3 ≡ got 0x12345678)
    × ((other : ℕ) → 1 ≤ other → 3 ≢ other → field_get b other ≡ field_get payload other)
field_set_lem_example = field_set_lem payload 3 0x12345678 payload-IsField_3 (omega arith)

query-set_example : value_timeval_query (value_timeval_set payload 3 entry_time) 3 ≡ some entry_time
query-set_example =
    query-set payload 3 entry_time payload-IsField_3 payload-IsField_4
      (record { secs = omega arith; usecs = omega arith })

latency_lem_example :
    query_codec_latency_ms (value_timeval_set (value_timeval_set payload 4 entry_time) 6 exit_time)
    ≡ some (sub_ℕ (1600000001 * 1000 + 250000 / 1000) (1600000000 * 1000 + 500000 / 1000))
latency_lem_example =
    latency_lem payload entry_time exit_time (omega arith)
      (record { secs = omega arith; usecs = omega arith })
      (record { secs = omega arith; usecs = omega arith })
