-- ===== src/Tr101290.antt =====
-- src/tr101290-types.h, src/tr101290-events.c and src/tr101290-alarms.c: the events of TR 101 290 and
-- their alarms. A table of events is a list, indexed by the event; `none` is an access behind its
-- end, which C leaves undefined. Timers, names and the lock are left out.
pub mod P1
pub mod Alarms
pub mod All
pub mod Sync
pub mod Recovery
mod Tests
use libltntstools.Base.{
  ℕ, zero, suc, ◌+◌, ◌-◌, ◌*◌, ◌/◌, ◌%◌, ltb, leb, ◌&&◌, if◌then◌else◌, Bool, true, false, Option,
  none, some, List, [], ◌∷◌, ◌++◌, length, get_or, set, take, replicate,
}
use libltntstools.Timeval.{Timeval, timeradd, timer_ge}

-- `enum ltntstools_tr101290_event_e`: the events with a name here, and the number of them.
abbrev pub p1_1_ts_sync_loss : ℕ
p1_1_ts_sync_loss = 1

abbrev pub p1_2_sync_byte_error : ℕ
p1_2_sync_byte_error = 2

abbrev pub p1_3_pat_error : ℕ
p1_3_pat_error = 3

abbrev pub p1_3a_pat_error_2 : ℕ
p1_3a_pat_error_2 = 4

abbrev pub p1_4_continuity_counter_error : ℕ
p1_4_continuity_counter_error = 5

abbrev pub p4_1_udp_drops : ℕ
p4_1_udp_drops = 16

abbrev pub event_max : ℕ
event_max = 17

-- `struct tr_event_s`
pub record TrEvent : Type 0 where
  pub enabled : Bool
  pub priority_nr : ℕ
  pub raised : Bool
  pub last_changed : Timeval
  pub last_reported : Timeval
  pub next_alarm : Timeval
  pub report_interval : Timeval
  pub auto_clear_alarm_after_report : ℕ
  pub arg : List ℕ

abbrev pub time_zero : Timeval
time_zero = record { tv_sec = 0; tv_usec = 0 }

-- An entry of `tr_events_tbl`.
abbrev pub entry : Bool → ℕ → ℕ → TrEvent
entry on priority ms = record {
  enabled = on;
  priority_nr = priority;
  raised = false;
  last_changed = time_zero;
  last_reported = time_zero;
  next_alarm = time_zero;
  report_interval = record { tv_sec = 1; tv_usec = 0 };
  auto_clear_alarm_after_report = ms;
  arg = [];
}

-- `tr_events_tbl`, from E101290_UNDEFINED to E101290_P2_6__CAT_ERROR.
abbrev pub events_tbl : List TrEvent
events_tbl =
    entry false 1 0 ∷ replicate 8 (entry true 1 5000)
    ++ replicate 4 (entry true 2 5000)
    ++ (entry false 2 0 ∷ entry false 2 0 ∷ entry true 2 5000 ∷ [])

-- `event_tbl[event]`
abbrev pub event_at : List TrEvent → ℕ → TrEvent
event_at tbl event = get_or tbl event (entry false 0 0)

abbrev pub update : List TrEvent → ℕ → (TrEvent → TrEvent) → Option (List TrEvent)
update tbl event f =
    if ltb event (length tbl) then some (set tbl event (f (event_at tbl event))) else none

-- The product is one of `int`, which stays in range for intervals below 2147484 milliseconds; those
-- of the table are 5000 at most.
abbrev pub interval_of : TrEvent → Timeval
interval_of ev = record {
  tv_sec = ev.auto_clear_alarm_after_report / 1000;
  tv_usec = ev.auto_clear_alarm_after_report * 1000 % 1000000;
}

-- The next alarm is due an interval from now.
abbrev pub due : Timeval → TrEvent → TrEvent
due time_now ev = record ev { next_alarm = timeradd time_now (interval_of ev) }

abbrev pub raised_at : Timeval → TrEvent → TrEvent
raised_at time_now ev =
    due time_now
      (if ev.raised then ev else record ev { raised = true; last_changed = time_now; arg = [] })

abbrev pub raised_with : List ℕ → Timeval → TrEvent → TrEvent
raised_with msg time_now ev =
    due time_now
      (record (if ev.raised then ev else record ev { raised = true; last_changed = time_now }) {
        arg = take 127 msg;
      })

abbrev pub cleared_at : Timeval → TrEvent → TrEvent
cleared_at time_now ev = due time_now (
    if ev.raised && timer_ge time_now (timeradd (interval_of ev) ev.last_changed)
    then record ev { raised = false; last_changed = time_now; arg = [] }
    else ev)

-- `ltntstools_tr101290_alarm_raise`
abbrev pub alarm_raise : List TrEvent → ℕ → Timeval → Option (List TrEvent)
alarm_raise tbl event time_now =
    if leb event_max event then some tbl else update tbl event (raised_at time_now)

-- `ltntstools_tr101290_alarm_raise_with_arg`
abbrev pub alarm_raise_with_arg : List TrEvent → ℕ → List ℕ → Timeval → Option (List TrEvent)
alarm_raise_with_arg tbl event msg time_now =
    if leb event_max event then some tbl else update tbl event (raised_with msg time_now)

-- `ltntstools_tr101290_alarm_clear`
abbrev pub alarm_clear : List TrEvent → ℕ → Timeval → Option (List TrEvent)
alarm_clear tbl event time_now =
    if leb event_max event then some tbl else update tbl event (cleared_at time_now)

-- The loop of `ltntstools_tr101290_alarm_raise_all` from event `i` on, over `n` events.
abbrev pub raise_from : ℕ → ℕ → List TrEvent → Timeval → Option (List TrEvent)
raise_from zero i tbl now = some tbl
raise_from (suc n) i tbl now = elim (alarm_raise tbl i now) [
  | none ↦ none
  | some next ↦ raise_from n (i + 1) next now
]

-- `ltntstools_tr101290_alarm_raise_all`: every event of the default table but the first one.
unfoldable pub alarm_raise_all : List TrEvent → Timeval → Option (List TrEvent)
alarm_raise_all tbl now = raise_from (length events_tbl - 1) 1 tbl now

-- The loop of `ltntstools_tr101290_event_processing_enable_all` and of `..._disable_all`.
abbrev pub enable_from : ℕ → ℕ → Bool → List TrEvent → Option (List TrEvent)
enable_from zero i on tbl = some tbl
enable_from (suc n) i on tbl = elim (update tbl i (λ ev. record ev { enabled = on })) [
  | none ↦ none
  | some next ↦ enable_from n (i + 1) on next
]

-- `ltntstools_tr101290_event_processing_enable_all`, and with `false` `..._disable_all`
unfoldable pub event_processing_all : Bool → List TrEvent → Option (List TrEvent)
event_processing_all on tbl = enable_from (event_max - 1) 1 on tbl
