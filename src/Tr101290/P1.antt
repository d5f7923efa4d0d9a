-- ===== src/Tr101290/P1.antt =====
-- src/tr101290-p1.c: the checks of priority 1 that need no program tables.
use libltntstools.Base.{
  ℕ, zero, suc, ◌+◌, ◌^◌, ◌&&◌, u32, ltb, leb, ◌==◌, not, if◌then◌else◌, Bool, true, false, Option,
  none, some, List,
}
use libltntstools.Packet.{
  Pointer, sync_present, pid, get_section_tableid, transport_scrambling_control,
}
use libltntstools.Timeval.{Timeval, timeradd, timer_ge}
use libltntstools.Tr101290.{
  TrEvent, alarm_raise, alarm_clear, p1_1_ts_sync_loss, p1_2_sync_byte_error, p1_3_pat_error,
  p1_3a_pat_error_2, p1_4_continuity_counter_error,
}

-- `struct ltntstools_tr101290_s`, as far as these checks use it.
pub record Monitor : Type 0 where
  pub event_tbl : List TrEvent
  pub consecutive_sync_bytes : ℕ
  pub consecutive_sync_errors : ℕ
  pub now : Timeval
  pub last_pat : Timeval
  pub cc_counter_last_write : ℕ

abbrev pub sync_loss_threshold : ℕ
sync_loss_threshold = 2

-- One operation on the alarms behind the other.
abbrev pub and_then :
    Option (List TrEvent) → (List TrEvent → Option (List TrEvent)) → Option (List TrEvent)
and_then none f = none
and_then (some tbl) f = f tbl

abbrev pub with_table : Monitor → Option (List TrEvent) → Option Monitor
with_table s none = none
with_table s (some tbl) = some (record s { event_tbl = tbl })

abbrev pub raise_two : List TrEvent → ℕ → ℕ → Timeval → Option (List TrEvent)
raise_two tbl e f time_now =
    and_then (alarm_raise tbl e time_now) (λ next. alarm_raise next f time_now)

abbrev pub clear_two : List TrEvent → ℕ → ℕ → Timeval → Option (List TrEvent)
clear_two tbl e f time_now =
    and_then (alarm_clear tbl e time_now) (λ next. alarm_clear next f time_now)

-- A packet with the sync byte, in the loop of `p1_write`.
unfoldable pub sync_seen : Monitor → Timeval → Option Monitor
sync_seen s time_now =
    let bytes = s.consecutive_sync_bytes + 1 in
    with_table
      (record s {
        consecutive_sync_bytes = if leb 50000 bytes then 16 else bytes;
        consecutive_sync_errors = 0;
      })
      (if ltb 5 bytes
        then clear_two s.event_tbl p1_2_sync_byte_error p1_1_ts_sync_loss time_now
        else some s.event_tbl)

-- A packet without it. The counter of errors is an `int` that nothing keeps from wrapping; it stands
-- here as its 32 bits, from 2^31 on those of a negative number.
unfoldable pub sync_missing : Monitor → Timeval → Option Monitor
sync_missing s time_now =
    let errors = u32 (s.consecutive_sync_errors + 1) in
    with_table (record s { consecutive_sync_bytes = 0; consecutive_sync_errors = errors })
      (if leb sync_loss_threshold errors && ltb errors (2 ^ 31)
        then raise_two s.event_tbl p1_2_sync_byte_error p1_1_ts_sync_loss time_now
        else alarm_raise s.event_tbl p1_2_sync_byte_error time_now)

-- The loop of `p1_write`.
unfoldable pub sync_loop : ℕ → Pointer → Monitor → Timeval → Option Monitor
sync_loop zero pkt s time_now = some s
sync_loop (suc n) pkt s time_now =
    let rest = sync_loop n (λ i. pkt (188 + i)) in
    elim (if sync_present pkt then sync_seen s time_now else sync_missing s time_now) [
      | none ↦ none
      | some next ↦ rest next time_now
    ]

-- What the loop of `p1_process_p1_3` finds: whether there is a PAT, and how many faults.
pub record PatFound : Type 0 where
  pub got_pat : Bool
  pub pat_issue : ℕ

abbrev pub pat_loop : ℕ → Pointer → PatFound → PatFound
pat_loop zero pkt f = f
pat_loop (suc n) pkt f =
    pat_loop n (λ i. pkt (188 + i))
      (if pid pkt == 0
        then record {
          got_pat = true;
          pat_issue =
              f.pat_issue
              + (if get_section_tableid pkt == 0 then 0 else 1)
              + (if transport_scrambling_control pkt == 0 then 0 else 1);
        }
        else f)

-- Half a second has gone by since `tv`.
abbrev pub half_second_since : Timeval → Timeval → Bool
half_second_since time_now tv =
    timer_ge time_now (timeradd tv (record { tv_sec = 0; tv_usec = 500000 }))

-- `timer_expired`, which returns 0, here `false`, when the time is over.
abbrev pub timer_expired : Monitor → Timeval → Bool
timer_expired s tv = not (half_second_since s.now tv)

-- `p1_process_p1_3`
unfoldable pub process_p1_3 : Monitor → Pointer → ℕ → Timeval → Option Monitor
process_p1_3 s pkt packet_count time_now =
    let f = pat_loop packet_count pkt (record { got_pat = false; pat_issue = 0 }) in
    let late = if f.got_pat then false else half_second_since time_now s.last_pat in
    let issues = f.pat_issue + (if late then 1 else 0) in
    with_table (record s { last_pat = if f.got_pat then time_now else s.last_pat })
      (if issues == 0
        then clear_two s.event_tbl p1_3_pat_error p1_3a_pat_error_2 time_now
        else raise_two s.event_tbl p1_3_pat_error p1_3a_pat_error_2 time_now)

-- `p1_process_p1_4`; `count` is the statistics' count of continuity errors.
unfoldable pub process_p1_4 : Monitor → ℕ → Timeval → Option Monitor
process_p1_4 s count time_now =
    with_table (record s { cc_counter_last_write = count })
      (if s.cc_counter_last_write == count
        then alarm_clear s.event_tbl p1_4_continuity_counter_error time_now
        else alarm_raise s.event_tbl p1_4_continuity_counter_error time_now)
