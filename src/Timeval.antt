-- ===== src/Timeval.antt =====
-- src/libltntstools/timeval.h, and timeradd and timercmp of the C library on the times that the
-- library keeps: seconds and microseconds since the epoch, neither of them negative.
use libltntstools.Base.{ℕ, ◌+◌, ◌-◌, ◌*◌, ◌/◌, ◌≡◌, ◌<◌, ltb, leb, ◌==◌, if◌then◌else◌, Bool, arith}
use libltntstools.Base.Int.{ℤ, sub_ℕ}

pub record Timeval : Type 0 where
  pub tv_sec : ℕ
  pub tv_usec : ℕ

-- `ltn_timeval_to_ms`
abbrev pub timeval_to_ms : Timeval → ℕ
timeval_to_ms tv = tv.tv_sec * 1000 + tv.tv_usec / 1000

-- `ltn_timeval_to_us`
abbrev pub timeval_to_us : Timeval → ℕ
timeval_to_us tv = tv.tv_sec * 1000000 + tv.tv_usec

-- `ltn_timeval_subtract_ms`
abbrev pub timeval_subtract_ms : Timeval → Timeval → ℤ
timeval_subtract_ms x y = sub_ℕ (timeval_to_ms x) (timeval_to_ms y)

-- `ltn_timeval_subtract_us`
abbrev pub timeval_subtract_us : Timeval → Timeval → ℤ
timeval_subtract_us x y = sub_ℕ (timeval_to_us x) (timeval_to_us y)

-- timeradd(a, b, result), as its manual page has it: one carry of a second.
abbrev pub timeradd : Timeval → Timeval → Timeval
timeradd a b =
    if leb 1000000 (a.tv_usec + b.tv_usec)
    then record { tv_sec = a.tv_sec + b.tv_sec + 1; tv_usec = a.tv_usec + b.tv_usec - 1000000 }
    else record { tv_sec = a.tv_sec + b.tv_sec; tv_usec = a.tv_usec + b.tv_usec }

-- timercmp(a, b, >=)
abbrev pub timer_ge : Timeval → Timeval → Bool
timer_ge a b = if a.tv_sec == b.tv_sec then leb b.tv_usec a.tv_usec else ltb b.tv_sec a.tv_sec

-- Fewer than a million microseconds.
abbrev pub IsNormal : Timeval → Type 0
IsNormal tv = tv.tv_usec < 1000000

pub timeradd_lem :
    (a b : Timeval) → timeval_to_us (timeradd a b) ≡ timeval_to_us a + timeval_to_us b
timeradd_lem a b = ground arith

pub timeradd-IsNormal : (a b : Timeval) → IsNormal a → IsNormal b → IsNormal (timeradd a b)
timeradd-IsNormal a b h k = ground (arith, h, k)

pub timer_ge_lem :
    (a b : Timeval)
    → IsNormal a
    → IsNormal b
    → timer_ge a b ≡ leb (timeval_to_us b) (timeval_to_us a)
timer_ge_lem a b h k = ground (arith, h, k)
