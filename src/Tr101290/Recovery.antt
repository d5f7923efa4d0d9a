-- ===== src/Tr101290/Recovery.antt =====
-- The alarms of the loss of synchronisation end when the packets are good again.
use libltntstools.Base.{
  ℕ, zero, suc, ◌+◌, ◌*◌, ◌≤◌, ◌≡◌, leb, if◌then◌else◌, true, false, some, length,
}
use libltntstools.Packet.{Pointer, sync_present}
use libltntstools.Timeval.{Timeval, timeval_to_us, IsNormal}
use libltntstools.Tr101290.{TrEvent, event_at, cleared_at}
use libltntstools.Tr101290.P1.{Monitor, sync_seen, sync_loop}
use libltntstools.Tr101290.Sync.{changed, sync_loop_more}

-- If the event is raised, its interval is over at time `t`.
pub record IsDue (t : Timeval) (ev : TrEvent) : Type 0 where
  pub normal : IsNormal ev.last_changed
  pub over :
      ev.raised ≡ true
      → timeval_to_us ev.last_changed + 1000 * ev.auto_clear_alarm_after_report ≤ timeval_to_us t

-- Both alarms are clear.
pub record IsClear (s : Monitor) : Type 0 where
  pub loss : (event_at s.event_tbl 1).raised ≡ false
  pub error : (event_at s.event_tbl 2).raised ≡ false

-- The packets all have the sync byte.
abbrev pub AllSync : ℕ → Pointer → Type 0
AllSync zero pkt = Unit {0}
AllSync (suc n) pkt = (sync_present pkt ≡ true) × AllSync n (λ i. pkt (188 + i))

module _ (s : Monitor) (t : Timeval) (room : 3 ≤ length s.event_tbl) where
  abbrev counted : Monitor
  counted = record s {
    consecutive_sync_bytes =
        if leb 50000 (s.consecutive_sync_bytes + 1) then 16 else s.consecutive_sync_bytes + 1;
    consecutive_sync_errors = 0;
  }

  abbrev cleared : Monitor
  cleared = record counted { event_tbl = changed s.event_tbl (cleared_at t) room }

taken :
    (n : ℕ) (pkt : Pointer) (s next : Monitor) (t : Timeval)
    → sync_present pkt ≡ true
    → sync_seen s t ≡ some next
    → sync_loop (suc n) pkt s t ≡ sync_loop n (λ i. pkt (188 + i)) next t
taken n pkt s next t here e = sync_loop_more n pkt s next t (rw here e)
