-- ===== src/Memory/Prefix.antt =====
-- What a copy does to the front of an array.
use libltntstools.Base.{
  ℕ, zero, suc, ◌+◌, ◌≤◌, ◌≡◌, refl, ap, ◌∙◌, List, [], ◌∷◌, ◌++◌, length, set, take, arith,
}
use libltntstools.Memory.{store}

-- A store behind the first element leaves it.
store-cons :
    (x : ℕ) (buf : List ℕ) (o : ℕ) (xs : List ℕ) → store (x ∷ buf) (suc o) xs ≡ x ∷ store buf o xs
unfolding store
store-cons x buf o [] = refl
store-cons x buf o (y ∷ ys) =
    ap (λ n. store (x ∷ set buf o y) n ys) {x = suc o + 1} {y = suc (o + 1)} (omega arith)
    ∙ store-cons x (set buf o y) (o + 1) ys

take-store_start :
    (buf xs : List ℕ) → length xs ≤ length buf → take (length xs) (store buf 0 xs) ≡ xs
unfolding store
take-store_start buf [] h = refl
take-store_start [] (x ∷ xs) h = absurd (omega (arith, h))
take-store_start (b ∷ buf) (x ∷ xs) h =
    ap (take (suc (length xs)))
      (ap (λ n. store (x ∷ buf) n xs) {x = 0 + 1} {y = suc 0} refl ∙ store-cons x buf 0 xs)
    ∙ ap (λ ys. x ∷ ys) (take-store_start buf xs (omega (arith, h)))

-- The front up to the end of what is stored: the old front, and the new bytes.
pub take-store :
    (buf : List ℕ) (o : ℕ) (xs : List ℕ)
    → o + length xs ≤ length buf
    → take (o + length xs) (store buf o xs) ≡ take o buf ++ xs
take-store buf zero xs h =
    ap (λ n. take n (store buf 0 xs)) {x = 0 + length xs} {y = length xs} (omega arith)
    ∙ take-store_start buf xs (omega (arith, h))
take-store [] (suc o) xs h = absurd (omega (arith, h))
take-store (b ∷ buf) (suc o) xs h =
    ap (λ n. take n (store (b ∷ buf) (suc o) xs)) {x = suc o + length xs} {y = suc (o + length xs)}
      (omega arith)
    ∙ ap (take (suc (o + length xs))) (store-cons b buf o xs)
    ∙ ap (λ ys. b ∷ ys) (take-store buf o xs (omega (arith, h)))
