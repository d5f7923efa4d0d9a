-- ===== src/Packet/Clock.antt =====
-- Differences and sums on the 27 MHz and the 90 kHz clocks. The arguments are clock values, which
-- are not negative; the results are `int64_t`, and no sum of the code leaves that range.
use libltntstools.Base.{
  ℕ, ◌+◌, ◌-◌, ◌*◌, ◌%◌, ◌^◌, ◌≤◌, ◌<◌, ◌≡◌, ltb, ◌&&◌, if◌then◌else◌, false, arith,
}
use libltntstools.Base.Int.{ℤ, pos, negsuc, ◌+ℤ◌, ◌-ℤ◌, lt_ℤ, sub_ℕ}

-- `MAX_SCR_VALUE` and `MAX_PTS_VALUE`
abbrev pub max_scr_value : ℕ
max_scr_value = 2576980377600

abbrev pub max_pts_value : ℕ
max_pts_value = 8589934591

unfoldable pub scr_diff : ℕ → ℕ → ℤ
scr_diff from to =
    if ltb to from && ltb to (5 * 27000000)
    then sub_ℕ max_scr_value from +ℤ pos to
    else sub_ℕ to from

unfoldable pub scr_add : ℕ → ℤ → ℤ
scr_add scr ticks =
    let clock = pos scr +ℤ ticks in
    if lt_ℤ (pos max_scr_value) clock
    then clock -ℤ pos max_scr_value
    else if lt_ℤ clock (pos 0)
    then clock +ℤ pos max_scr_value
    else clock

unfoldable pub pts_diff : ℕ → ℕ → ℤ
pts_diff from to = if ltb to from then sub_ℕ max_pts_value from +ℤ pos to else sub_ℕ to from

-- Ticks added to a clock come back as the difference, over the wrap too, if they are fewer than
-- five seconds' worth.
pub scr_diff-scr_add :
    (from ticks to : ℕ)
    → from ≤ max_scr_value
    → ticks < 5 * 27000000
    → scr_add from (pos ticks) ≡ pos to
    → scr_diff from to ≡ pos ticks
unfolding scr_diff scr_add
scr_diff-scr_add from ticks to h k e = ground arith

-- Adding ticks to a clock within range stays within range, whatever their sign, if they are no
-- more than one round of the clock.
pub scr_add_range :
    (scr : ℕ) (ticks : ℕ)
    → scr ≤ max_scr_value
    → ticks ≤ max_scr_value
    → (lt_ℤ (pos max_scr_value) (scr_add scr (pos ticks)) ≡ false)
      × (lt_ℤ (scr_add scr (pos ticks)) (pos 0) ≡ false)
      × (lt_ℤ (pos max_scr_value) (scr_add scr (sub_ℕ 0 ticks)) ≡ false)
      × (lt_ℤ (scr_add scr (sub_ℕ 0 ticks)) (pos 0) ≡ false)
unfolding scr_add
scr_add_range scr ticks h k = (ground arith, ground arith, ground arith, ground arith)

-- A clock that steps back to five seconds or more gives a negative difference.
pub scr_diff_negative :
    (from to : ℕ) → 5 * 27000000 ≤ to → to < from → scr_diff from to ≡ negsuc (from - to - 1)
unfolding scr_diff
scr_diff_negative from to h k = ground arith

-- Over the wrap of the 33-bit clock, `pts_diff` is one tick short of the distance modulo 2 ^ 33.
pub pts_diff_short :
    (from to : ℕ)
    → from < 2 ^ 33
    → to < from
    → pts_diff from to +ℤ pos 1 ≡ pos ((to + 2 ^ 33 - from) % 2 ^ 33)
unfolding pts_diff
pts_diff_short from to h k = ground arith

pub pts_diff_forward : (from to : ℕ) → from ≤ to → pts_diff from to ≡ pos (to - from)
unfolding pts_diff
pts_diff_forward from to h = ground arith
