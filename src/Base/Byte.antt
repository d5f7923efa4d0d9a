-- ===== src/Base/Byte.antt =====
-- Facts about single bytes, checked value by value.
use Prim.Native.Nat.{ℕ, zero, suc, ◌<◌}
use mathlib.Core.Path.{◌≡◌}
use mathlib.Core.Bool.{Bool, true, ◌&&◌}
use native.Mathlib.Omega.{arith}
use mathlib.Core.List.{List, [], ◌∷◌, ◌++◌}
use libltntstools.Base.Lists.{get_or}

unfoldable pub all_below : ℕ → (ℕ → Bool) → Bool
all_below zero test = true
all_below (suc bound) test = test bound && all_below bound test

pub all_below_sound :
    (bound : ℕ) (test : ℕ → Bool) (i : ℕ) → all_below bound test ≡ true → i < bound → test i ≡ true
unfolding all_below
all_below_sound zero test i passed small = absurd (omega (arith, small))
all_below_sound (suc bound) test i passed small =
    ground (arith, passed, small, all_below_sound bound test i)

-- Every element of a list is a byte.
abbrev pub IsBytes : List ℕ → Type 0
IsBytes [] = Unit {0}
IsBytes (x ∷ xs) = (x < 256) × IsBytes xs

pub append-IsBytes : (xs ys : List ℕ) → IsBytes xs → IsBytes ys → IsBytes (xs ++ ys)
append-IsBytes [] ys h k = k
append-IsBytes (x ∷ xs) ys (h, hs) k = (h, append-IsBytes xs ys hs k)

pub IsBytes-get_or : (xs : List ℕ) (i : ℕ) → IsBytes xs → get_or xs i 0 < 256
IsBytes-get_or [] i h = omega arith
IsBytes-get_or (x ∷ xs) zero h = h.0
IsBytes-get_or (x ∷ xs) (suc i) h = IsBytes-get_or xs i h.1
