-- ===== src/Tr101290/All.antt =====
-- The operations on every event of the table.
use native.Mathlib.Decide.{dec_lt}
use libltntstools.Base.{
  ℕ, zero, suc, ◌+◌, ◌<◌, ◌≤◌, ◌≡◌, refl, ap, ◌∙◌, ltb, Bool, true, false, none, some, List, length,
  set, arith, length-set,
}
use libltntstools.Timeval.{Timeval}
use libltntstools.Tr101290.{
  TrEvent, event_at, raised_at, alarm_raise, raise_from, alarm_raise_all, enable_from,
  event_processing_all, events_tbl,
}
use libltntstools.Tr101290.Alarms.{
  update-ok, event_at-set, event_at-set_other, alarm_raise-ok, raised_at-raised,
}

raise_from_more :
    (n i : ℕ) (tbl next : List TrEvent) (now : Timeval)
    → alarm_raise tbl i now ≡ some next
    → raise_from (suc n) i tbl now ≡ raise_from n (i + 1) next now
raise_from_more n i tbl next now e = rw (raise_from, e) refl

raise_from_lem :
    (n i : ℕ) (tbl : List TrEvent) (now : Timeval)
    → i + n ≤ length tbl
    → i + n ≤ 17
    → (t : List TrEvent) × (raise_from n i tbl now ≡ some t)
      × (length t ≡ length tbl)
      × ((o : ℕ) → i ≤ o → o < i + n → (event_at t o).raised ≡ true)
      × ((o : ℕ) → o < i → event_at t o ≡ event_at tbl o)
raise_from_lem zero i tbl now h k =
    (tbl, refl, refl, λ o p q. absurd (omega (arith, p, q)), λ o p. refl)
raise_from_lem (suc n) i tbl now h k =
    let f = raised_at now in
    let inside : i < length tbl = omega (arith, h) in
    let next = set tbl i (f (event_at tbl i)) in
    let len : length next ≡ length tbl = length-set tbl i (f (event_at tbl i)) in
    let step = alarm_raise-ok tbl i now (omega (arith, k)) inside in
    let (t, ran, same, up, kept) =
      raise_from_lem n (i + 1) next now (omega (arith, h, len)) (omega (arith, k)) in
    (
      t,
      raise_from_more n i tbl next now step ∙ ran,
      same ∙ len,
      λ o p q. elim (dec_lt i o) [
        | yes r ↦ up o (omega (arith, r)) (omega (arith, q))
        | no r ↦
            ap (λ m. (event_at t m).raised) {x = o} {y = i} (omega (arith, p, r))
            ∙ ap (λ ev. ev.raised) (kept i (omega arith) ∙ event_at-set tbl i f inside)
            ∙ raised_at-raised now (event_at tbl i)
      ],
      λ o p.
          kept o (omega (arith, p))
          ∙ event_at-set_other tbl i f inside o (λ e. absurd (omega (arith, e, p))),
    )

-- On a table with as many events as the default one, raising all of them is within the table, keeps
-- its length, leaves the event 0 as it is, and raises every other event.
pub alarm_raise_all_lem :
    (tbl : List TrEvent) (now : Timeval)
    → length tbl ≡ length events_tbl
    → (t : List TrEvent) × (alarm_raise_all tbl now ≡ some t)
      × (length t ≡ length tbl)
      × ((o : ℕ) → 1 ≤ o → o < length tbl → (event_at t o).raised ≡ true)
      × (event_at t 0 ≡ event_at tbl 0)
unfolding alarm_raise_all
alarm_raise_all_lem tbl now e =
    let (t, ran, len, up, kept) = raise_from_lem 15 1 tbl now (omega (arith, e)) (omega arith) in
    (t, ran, len, λ o p q. up o p (omega (arith, q, e)), kept 0 (omega arith))

enable_from-faults :
    (n i : ℕ) (on : Bool) (tbl : List TrEvent)
    → i ≤ length tbl
    → length tbl < i + n
    → enable_from n i on tbl ≡ none
enable_from-faults zero i on tbl h k = absurd (omega (arith, h, k))
enable_from-faults (suc n) i on tbl h k =
    let f = λ (ev : TrEvent). record ev { enabled = on } in
    elim (dec_lt i (length tbl)) [
      | yes r ↦
          (let len = length-set tbl i (f (event_at tbl i)) in
            rw (enable_from, update-ok tbl i f r)
              (enable_from-faults n (i + 1) on (set tbl i (f (event_at tbl i)))
                (omega (arith, len, r)) (omega (arith, len, k))))
      | no r ↦
          (let over : ltb i (length tbl) ≡ false = ground (arith, r) in rw (enable_from, over) refl)
    ]

-- Enabling or disabling all events writes behind the end of any table that has as many events as the
-- default one.
pub event_processing_all-faults :
    (on : Bool) (tbl : List TrEvent)
    → length tbl ≡ length events_tbl
    → event_processing_all on tbl ≡ none
unfolding event_processing_all
event_processing_all-faults on tbl e =
    enable_from-faults 16 1 on tbl (omega (arith, e)) (omega (arith, e))
