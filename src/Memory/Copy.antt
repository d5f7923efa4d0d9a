-- ===== src/Memory/Copy.antt =====
-- What the block operations leave in an array, index by index.
use libltntstools.Base.{
  ℕ, zero, suc, ◌+◌, ◌≤◌, ◌<◌, ◌≡◌, refl, ◌∙◌, ◌⊎◌, List, [], ◌∷◌, length, get_or, set, take, drop,
  length-set, get_or-set_self, get_or-set_ne, arith, some, none, ap, take_over, get_or-append_left,
  get_or-append_right, ◌-◌,
}
use libltntstools.Memory.{store, memcpy, read_block, realloc}

pub length-store : (buf : List ℕ) (o : ℕ) (xs : List ℕ) → length (store buf o xs) ≡ length buf
unfolding store
length-store buf o [] = refl
length-store buf o (x ∷ xs) = length-store (set buf o x) (o + 1) xs ∙ length-set buf o x

pub get_or-store_outside :
    (buf : List ℕ) (o : ℕ) (xs : List ℕ) (j d : ℕ)
    → (j < o) ⊎ (o + length xs ≤ j)
    → get_or (store buf o xs) j d ≡ get_or buf j d
unfolding store
get_or-store_outside buf o [] j d h = refl
get_or-store_outside buf o (x ∷ xs) j d h =
    get_or-store_outside (set buf o x) (o + 1) xs j d (omega arith)
    ∙ get_or-set_ne buf o j x d (omega arith)

pub get_or-store_inside :
    (buf : List ℕ) (o : ℕ) (xs : List ℕ) (i d : ℕ)
    → o + length xs ≤ length buf
    → i < length xs
    → get_or (store buf o xs) (o + i) d ≡ get_or xs i d
unfolding store
get_or-store_inside buf o [] i d fits h = absurd (omega arith)
get_or-store_inside buf o (x ∷ xs) zero d fits h =
    ap (λ k. get_or (store (set buf o x) (o + 1) xs) k d) {x = o + 0} {y = o} (omega arith)
    ∙ get_or-store_outside (set buf o x) (o + 1) xs o d (omega arith)
    ∙ get_or-set_self buf o x d (omega arith)
get_or-store_inside buf o (x ∷ xs) (suc i) d fits h =
    ap (λ k. get_or (store (set buf o x) (o + 1) xs) k d) {x = o + suc i} {y = o + 1 + i}
      (omega arith)
    ∙ get_or-store_inside (set buf o x) (o + 1) xs i d (omega (arith, length-set buf o x))
        (omega arith)

pub get_or-take : (n : ℕ) (xs : List ℕ) (i d : ℕ) → i < n → get_or (take n xs) i d ≡ get_or xs i d
get_or-take zero xs i d h = absurd (omega arith)
get_or-take (suc n) [] i d h = refl
get_or-take (suc n) (x ∷ xs) zero d h = refl
get_or-take (suc n) (x ∷ xs) (suc i) d h = get_or-take n xs i d (omega arith)

pub get_or-drop : (n : ℕ) (xs : List ℕ) (i d : ℕ) → get_or (drop n xs) i d ≡ get_or xs (n + i) d
get_or-drop zero xs i d = ap (λ k. get_or xs k d) {x = i} {y = 0 + i} (omega arith)
get_or-drop (suc n) [] i d = refl
get_or-drop (suc n) (x ∷ xs) i d =
    get_or-drop n xs i d
    ∙ ap (λ k. get_or (x ∷ xs) k d) {x = suc (n + i)} {y = suc n + i} (omega arith)

-- memcpy within bounds.
pub memcpy-ok :
    (dst : List ℕ) (o : ℕ) (src : List ℕ) (so n : ℕ)
    → o + n ≤ length dst
    → so + n ≤ length src
    → memcpy dst o src so n ≡ some (store dst o (take n (drop so src)))
unfolding memcpy
memcpy-ok dst o src so n h k = ground arith

pub memcpy-fault :
    (dst : List ℕ) (o : ℕ) (src : List ℕ) (so n : ℕ)
    → length dst < o + n
    → memcpy dst o src so n ≡ none
unfolding memcpy
memcpy-fault dst o src so n h = ground arith

pub read_block-ok :
    (src : List ℕ) (o n : ℕ) → o + n ≤ length src → read_block src o n ≡ some (take n (drop o src))
unfolding read_block
read_block-ok src o n h = ground arith

pub take-length : (xs : List ℕ) → take (length xs) xs ≡ xs
take-length [] = refl
take-length (x ∷ xs) = ap (λ r. x ∷ r) (take-length xs)

-- realloc to a larger size keeps the old elements, and adds unknown ones behind them.
pub get_or-realloc_old :
    (spare : ℕ → List ℕ) (xs : List ℕ) (n i : ℕ)
    → length xs ≤ n
    → i < length xs
    → get_or (realloc spare xs n) i 0 ≡ get_or xs i 0
unfolding realloc
get_or-realloc_old spare xs n i h k =
    rw (take_over n xs h) (get_or-append_left xs (spare (n - length xs)) i 0 k)

pub get_or-realloc_new :
    (spare : ℕ → List ℕ) (xs : List ℕ) (n i : ℕ)
    → length xs ≤ n
    → length xs ≤ i
    → get_or (realloc spare xs n) i 0 ≡ get_or (spare (n - length xs)) (i - length xs) 0
unfolding realloc
get_or-realloc_new spare xs n i h k =
    rw (take_over n xs h) (get_or-append_right xs (spare (n - length xs)) i 0 k)
