-- ===== src/Tr101290/Sync.antt =====
-- The loss of synchronisation: the counters of `p1_write` and its two alarms.
use libltntstools.Base.{
  ℕ, zero, suc, ◌+◌, u32, ◌<◌, ◌≤◌, ◌≡◌, refl, ap, ◌∙◌, leb, ◌&&◌, if◌then◌else◌, Bool, true, false,
  some, List, [], ◌∷◌, length, set, arith, length-set,
}
use libltntstools.Packet.{Pointer, sync_present}
use libltntstools.Timeval.{Timeval, timeradd, timer_ge}
use libltntstools.Tr101290.{TrEvent, interval_of, event_at, cleared_at}
use libltntstools.Tr101290.Alarms.{event_at-set, event_at-set_other, alarm_clear-ok}
use libltntstools.Tr101290.P1.{Monitor, clear_two, sync_seen, sync_missing, sync_loop}

-- Two events changed one after the other.
module _ (tbl : List TrEvent) (f : TrEvent → TrEvent) (room : 3 ≤ length tbl) where
  abbrev changed_2 : List TrEvent
  changed_2 = set tbl 2 (f (event_at tbl 2))

  abbrev pub changed : List TrEvent
  changed = set changed_2 1 (f (event_at changed_2 1))

  length-changed_2 : length changed_2 ≡ length tbl
  length-changed_2 = length-set tbl 2 (f (event_at tbl 2))

  pub length-changed : length changed ≡ length tbl
  length-changed = length-set changed_2 1 (f (event_at changed_2 1)) ∙ length-changed_2

  pub changed-1 : event_at changed 1 ≡ f (event_at tbl 1)
  changed-1 =
      event_at-set changed_2 1 f (omega (arith, length-changed_2, room))
      ∙ ap f (event_at-set_other tbl 2 f (omega (arith, room)) 1 (λ e. absurd (omega (arith, e))))

  pub changed-2 : event_at changed 2 ≡ f (event_at tbl 2)
  changed-2 =
      event_at-set_other changed_2 1 f (omega (arith, length-changed_2, room)) 2
        (λ e. absurd (omega (arith, e)))
      ∙ event_at-set tbl 2 f (omega (arith, room))

pub clear_two-ok :
    (tbl : List TrEvent) (t : Timeval) (room : 3 ≤ length tbl)
    → clear_two tbl 2 1 t ≡ some (changed tbl (cleared_at t) room)
clear_two-ok tbl t room = rw (alarm_clear-ok tbl 2 t (omega arith) (omega (arith, room))) (
    alarm_clear-ok (changed_2 tbl (cleared_at t) room) 1 t (omega arith)
      (omega (arith, length-changed_2 tbl (cleared_at t) room, room)))

-- What was seen so far, the newest packet first; `false` is a packet without the sync byte.
abbrev pub run_of : Bool → List Bool → ℕ
run_of b [] = 0
run_of true (true ∷ hist) = suc (run_of true hist)
run_of true (false ∷ hist) = 0
run_of false (true ∷ hist) = 0
run_of false (false ∷ hist) = suc (run_of false hist)

-- Two packets in a row were without it.
abbrev pub two_missed : List Bool → Bool
two_missed [] = false
two_missed (true ∷ hist) = two_missed hist
two_missed (false ∷ hist) = if leb 1 (run_of false hist) then true else two_missed hist

-- The monitor against what was seen.
pub record IsTracking (s : Monitor) (hist : List Bool) : Type 0 where
  pub room : 3 ≤ length s.event_tbl
  pub errors : s.consecutive_sync_errors ≡ run_of false hist
  pub bounded : s.consecutive_sync_bytes < 50000
  pub bytes : run_of true hist < 50000 → s.consecutive_sync_bytes ≡ run_of true hist
  pub many : 6 ≤ run_of true hist → 6 ≤ s.consecutive_sync_bytes
  pub loss_raised : 2 ≤ run_of false hist → (event_at s.event_tbl 1).raised ≡ true
  pub error_raised : 1 ≤ run_of false hist → (event_at s.event_tbl 2).raised ≡ true
  pub loss_needed : (event_at s.event_tbl 1).raised ≡ true → two_missed hist ≡ true

pub cleared_at-only :
    (t : Timeval) (ev : TrEvent) → (cleared_at t ev).raised ≡ true → ev.raised ≡ true
cleared_at-only t ev h =
    elim (ev.raised && timer_ge t (timeradd (interval_of ev) ev.last_changed))
        as (λ b.
          (if b then record ev { raised = false; last_changed = t; arg = [] } else ev).raised ≡ true
          → ev.raised ≡ true) [ true ↦ λ e. absurd (ground (arith, e)) | false ↦ λ e. e ]
      h

module _ (s : Monitor) (hist : List Bool) (t : Timeval) (k : IsTracking s hist) where
  abbrev tbl : List TrEvent
  tbl = s.event_tbl

  -- The counters behind a packet with the sync byte.
  abbrev counted : Monitor
  counted = record s {
    consecutive_sync_bytes =
        if leb 50000 (s.consecutive_sync_bytes + 1) then 16 else s.consecutive_sync_bytes + 1;
    consecutive_sync_errors = 0;
  }

  abbrev missed : Monitor
  missed = record s {
    consecutive_sync_bytes = 0;
    consecutive_sync_errors = u32 (s.consecutive_sync_errors + 1);
  }

-- The packets of a call, behind those seen before.
abbrev pub seen : ℕ → Pointer → List Bool → List Bool
seen zero pkt hist = hist
seen (suc n) pkt hist = seen n (λ i. pkt (188 + i)) (sync_present pkt ∷ hist)

pub sync_loop_more :
    (n : ℕ) (pkt : Pointer) (s next : Monitor) (t : Timeval)
    → (if sync_present pkt then sync_seen s t else sync_missing s t) ≡ some next
    → sync_loop (suc n) pkt s t ≡ sync_loop n (λ i. pkt (188 + i)) next t
unfolding sync_loop
sync_loop_more n pkt s next t e = rw (sync_loop, e) refl
