-- ===== src/Ring/Contents.antt =====
-- The bytes that a ring holds, oldest first.
use native.Mathlib.Nat.{mod-eq_of_lt, mod-eq-sub-mod}
use libltntstools.Base.{ℕ, ◌+◌, ◌-◌, ◌%◌, ◌≤◌, ◌<◌, ◌≡◌, ◌∙◌, List, length, get_or, arith}
use libltntstools.Base.Table.{table, length-table}
use libltntstools.Ring.{RingBuffer}

abbrev pub contents : RingBuffer → List ℕ
contents b = table b.fill (λ i. get_or b.storage ((b.head + i) % b.size) 0)

pub length-contents : (b : RingBuffer) → length (contents b) ≡ b.fill
length-contents b = length-table b.fill (λ i. get_or b.storage ((b.head + i) % b.size) 0)

-- An index that has not gone round, and one that has gone round once.
pub mod_below : {x n : ℕ} → x < n → x % n ≡ x
mod_below h = mod-eq_of_lt h

pub mod_above : {x n : ℕ} → n ≤ x → x < n + n → x % n ≡ x - n
mod_above {x} {n} h k =
    mod-eq-sub-mod {n = x} {m = n} h ∙ mod-eq_of_lt {n = x - n} {m = n} (omega arith)

-- What no operation changes.
abbrev pub SameLimits : RingBuffer → RingBuffer → Type 0
SameLimits b c = (c.size_max ≡ b.size_max) × (c.size_initial ≡ b.size_initial)
