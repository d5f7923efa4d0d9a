-- ===== src/Tr101290/Alarms.antt =====
-- What raising and clearing do to the table of events.
use libltntstools.Base.{
  ℕ, ◌+◌, ◌*◌, ◌<◌, ◌≡◌, ◌≢◌, refl, ap, ◌∙◌, ltb, ◌&&◌, if◌then◌else◌, Bool, true, false, some, not,
  List, [], length, set, arith, length-set, get_or-set_self, get_or-set_ne,
}
use libltntstools.Timeval.{
  Timeval, timeradd, timer_ge, timeval_to_us, IsNormal, timeradd_lem, timeradd-IsNormal,
  timer_ge_lem,
}
use libltntstools.Tr101290.{
  TrEvent, due, event_at, entry, update, interval_of, raised_at, cleared_at, alarm_raise,
  alarm_clear,
}

-- A change of one event of the table.
module _ (tbl : List TrEvent) (e : ℕ) (f : TrEvent → TrEvent) (inside : e < length tbl) where
  pub update-ok : update tbl e f ≡ some (set tbl e (f (event_at tbl e)))
  update-ok = ground (arith, inside)

  pub event_at-set : event_at (set tbl e (f (event_at tbl e))) e ≡ f (event_at tbl e)
  event_at-set = get_or-set_self tbl e (f (event_at tbl e)) (entry false 0 0) inside

  pub event_at-set_other :
      (o : ℕ) → e ≢ o → event_at (set tbl e (f (event_at tbl e))) o ≡ event_at tbl o
  event_at-set_other o ne = get_or-set_ne tbl e o (f (event_at tbl e)) (entry false 0 0) ne

module _ (tbl : List TrEvent) (e : ℕ) (t : Timeval) (known : e < 17) (inside : e < length tbl) where
  pub alarm_raise-ok : alarm_raise tbl e t ≡ some (set tbl e (raised_at t (event_at tbl e)))
  alarm_raise-ok = ground (arith, known, inside)

  pub alarm_clear-ok : alarm_clear tbl e t ≡ some (set tbl e (cleared_at t (event_at tbl e)))
  alarm_clear-ok = ground (arith, known, inside)

pub raised_at-raised : (t : Timeval) (ev : TrEvent) → (raised_at t ev).raised ≡ true
raised_at-raised t ev =
    elim ev.raised
        as (λ b.
          ev.raised ≡ b
          → (if b then ev else record ev { raised = true; last_changed = t; arg = [] }).raised
            ≡ true) [ true ↦ λ e. e | false ↦ λ e. refl ]
      refl

interval_of-IsNormal : (ev : TrEvent) → IsNormal (interval_of ev)
interval_of-IsNormal ev = omega arith

interval_of_lem :
    (ev : TrEvent) → timeval_to_us (interval_of ev) ≡ 1000 * ev.auto_clear_alarm_after_report
interval_of_lem ev = omega arith

not_chosen :
    (b : Bool) (ev other : TrEvent)
    → other.raised ≡ false
    → ev.raised ≡ true
    → (if b then other else ev).raised ≡ not b
not_chosen true ev other e f = e
not_chosen false ev other e f = f

-- An event that is raised since `last_changed`.
pub cleared_at-raised :
    (t : Timeval) (ev : TrEvent)
    → ev.raised ≡ true
    → IsNormal ev.last_changed
    → IsNormal t
    → (cleared_at t ev).raised
      ≡ ltb
          (timeval_to_us t)
          (timeval_to_us ev.last_changed + 1000 * ev.auto_clear_alarm_after_report)
cleared_at-raised t ev r h k =
    let after = timeradd (interval_of ev) ev.last_changed in
    ap
      (λ b.
        (if b && timer_ge t after
          then record ev { raised = false; last_changed = t; arg = [] }
          else ev).raised)
      r
    ∙ not_chosen (timer_ge t after) ev (record ev { raised = false; last_changed = t; arg = [] })
        refl r
    ∙ ap not (
        timer_ge_lem t after k
          (timeradd-IsNormal (interval_of ev) ev.last_changed (interval_of-IsNormal ev) h))
    ∙ ground (arith, timeradd_lem (interval_of ev) ev.last_changed, interval_of_lem ev)

fresh_raise :
    (t₀ : Timeval) (ev : TrEvent)
    → ev.raised ≡ false
    → raised_at t₀ ev ≡ record ev {
      raised = true;
      last_changed = t₀;
      arg = [];
      next_alarm = timeradd t₀ (interval_of ev);
    }
fresh_raise t₀ ev e =
    ap (λ b. due t₀ (if b then ev else record ev { raised = true; last_changed = t₀; arg = [] })) e

lingers :
    (t₀ t : Timeval) (ev : TrEvent)
    → ev.raised ≡ false
    → IsNormal t₀
    → IsNormal t
    → (cleared_at t (raised_at t₀ ev)).raised
      ≡ ltb (timeval_to_us t) (timeval_to_us t₀ + 1000 * ev.auto_clear_alarm_after_report)
lingers t₀ t ev e h k =
    let now_up : TrEvent = record ev {
      raised = true;
      last_changed = t₀;
      arg = [];
      next_alarm = timeradd t₀ (interval_of ev);
    } in
    ap (λ x. (cleared_at t x).raised) (fresh_raise t₀ ev e) ∙ cleared_at-raised t now_up refl h k

-- An event that was clear and is raised at `t₀`, with an interval of `n` milliseconds, fewer than
-- 2147484, and that is then asked to clear at `t`, both times with fewer than a million microseconds:
-- it stays raised exactly while `t` is before `t₀` and the interval, so it clears at once where the
-- interval is zero, and no other event changes.
pub raise-clear :
    (tbl : List TrEvent) (e : ℕ) (t₀ t : Timeval) (n : ℕ)
    → n < 2147484
    → e < 17
    → e < length tbl
    → (event_at tbl e).raised ≡ false
    → (event_at tbl e).auto_clear_alarm_after_report ≡ n
    → IsNormal t₀
    → IsNormal t
    → (tbl₁ : List TrEvent) × (tbl₂ : List TrEvent) × (alarm_raise tbl e t₀ ≡ some tbl₁)
      × (alarm_clear tbl₁ e t ≡ some tbl₂)
      × ((event_at tbl₁ e).raised ≡ true)
      × ((event_at tbl₂ e).raised ≡ ltb (timeval_to_us t) (timeval_to_us t₀ + 1000 * n))
      × ((o : ℕ) → e ≢ o → event_at tbl₂ o ≡ event_at tbl o)
raise-clear tbl e t₀ t n short known inside clear period h k =
    let up = raised_at t₀ in
    let down = cleared_at t in
    let tbl₁ = set tbl e (up (event_at tbl e)) in
    let inside₁ : e < length tbl₁ = omega (arith, inside, length-set tbl e (up (event_at tbl e))) in
    let at₁ : event_at tbl₁ e ≡ up (event_at tbl e) = event_at-set tbl e up inside in
    (
      tbl₁,
      set tbl₁ e (down (event_at tbl₁ e)),
      alarm_raise-ok tbl e t₀ known inside,
      alarm_clear-ok tbl₁ e t known inside₁,
      ap (λ ev. ev.raised) at₁ ∙ raised_at-raised t₀ (event_at tbl e),
      ap (λ ev. ev.raised) (event_at-set tbl₁ e down inside₁ ∙ ap down at₁)
          ∙ lingers t₀ t (event_at tbl e) clear h k
          ∙ ap (λ m. ltb (timeval_to_us t) (timeval_to_us t₀ + 1000 * m)) period,
      λ o ne. event_at-set_other tbl₁ e down inside₁ o ne ∙ event_at-set_other tbl e up inside o ne,
    )
