-- ===== src/Tr101290/Tests.antt =====
-- The alarms of TR 101 290 at concrete inputs.
use libltntstools.Base.{
  ℕ, ◌+◌, ◌*◌, ◌≡◌, ◌≢◌, refl, arith, ltb, true, none, some, List, [], ◌∷◌, ◌++◌, replicate,
}
use libltntstools.Packet.{Pointer, pointer_to}
use libltntstools.Timeval.{Timeval, timeval_to_us}
use libltntstools.Tr101290.{
  TrEvent, event_at, events_tbl, time_zero, alarm_raise, alarm_clear, event_processing_all,
  p4_1_udp_drops, raised_at,
}
use libltntstools.Tr101290.Alarms.{raise-clear}
use libltntstools.Tr101290.All.{event_processing_all-faults}
use libltntstools.Tr101290.P1.{Monitor}

abbrev at : ℕ → Timeval
at secs = record { tv_sec = secs; tv_usec = 0 }

-- `ltntstools_tr101290_alloc`, the monitor's part.
abbrev fresh : Monitor
fresh = record {
  event_tbl = events_tbl;
  consecutive_sync_bytes = 0;
  consecutive_sync_errors = 0;
  now = time_zero;
  last_pat = time_zero;
  cc_counter_last_write = 0;
}

abbrev bad_packet : List ℕ
bad_packet = replicate 188 0

abbrev good_packet : List ℕ
good_packet = 0x47 ∷ replicate 187 0

abbrev two_bad : Pointer
two_bad = pointer_to (bad_packet ++ bad_packet) 0

abbrev only_good : Pointer
only_good =
    pointer_to
      (good_packet ++ good_packet ++ good_packet ++ good_packet ++ good_packet ++ good_packet) 0

-- The last event of the enumeration has no entry in the table.
raise_udp_drops : alarm_raise events_tbl p4_1_udp_drops (at 1) ≡ none
raise_udp_drops = refl

raise-clear_example :
    (tbl₁ : List TrEvent) × (tbl₂ : List TrEvent) × (alarm_raise events_tbl 5 (at 10) ≡ some tbl₁)
    × (alarm_clear tbl₁ 5 (at 12) ≡ some tbl₂)
    × ((event_at tbl₁ 5).raised ≡ true)
    × ((event_at tbl₂ 5).raised ≡ ltb (timeval_to_us (at 12)) (timeval_to_us (at 10) + 1000 * 5000))
    × ((o : ℕ) → 5 ≢ o → event_at tbl₂ o ≡ event_at events_tbl o)
raise-clear_example =
    raise-clear events_tbl 5 (at 10) (at 12) 5000 (omega arith) (omega arith) (omega arith) refl
      refl (omega arith) (omega arith)

event_processing_all-faults_example : event_processing_all true events_tbl ≡ none
event_processing_all-faults_example = event_processing_all-faults true events_tbl refl

-- Both alarms raised at 1 s.
abbrev alarmed : Monitor
alarmed = record fresh {
  event_tbl =
      event_at events_tbl 0
      ∷ raised_at (at 1) (event_at events_tbl 1)
      ∷ raised_at (at 1) (event_at events_tbl 2)
      ∷ [];
  consecutive_sync_errors = 2;
}
