-- ===== src/Base/Table.antt =====
-- Lists given by a function of the index, for arguments index by index.
use Prim.Native.Nat.{ℕ, zero, suc, ◌+◌, ◌≤◌, ◌<◌}
use mathlib.Core.Path.{◌≡◌, refl, ap, ap₂, ◌∙◌}
use mathlib.Core.List.{List, [], ◌∷◌, ◌++◌}
use native.Mathlib.Omega.{arith}
use libltntstools.Base.Lists.{length, get_or, take, drop}

module _ {ℓ} {A : Type ℓ} where
  abbrev pub table : ℕ → (ℕ → A) → List A
  table zero f = []
  table (suc n) f = f 0 ∷ table n (λ i. f (suc i))

  pub length-table : (n : ℕ) (f : ℕ → A) → length (table n f) ≡ n
  length-table zero f = refl
  length-table (suc n) f = ap suc (length-table n (λ i. f (suc i)))

  pub table_ext : (n : ℕ) (f g : ℕ → A) → ((i : ℕ) → i < n → f i ≡ g i) → table n f ≡ table n g
  table_ext zero f g h = refl
  table_ext (suc n) f g h =
      ap₂ ◌∷◌ (h 0 (omega arith))
        (table_ext n (λ i. f (suc i)) (λ i. g (suc i)) (λ i p. h (suc i) (omega arith)))

  pub table-append : (m n : ℕ) (f : ℕ → A) → table (m + n) f ≡ table m f ++ table n (λ i. f (m + i))
  table-append zero n f =
      (λ i. table (e i) f) ∙ table_ext n f (λ i. f (0 + i)) (λ i p. ap f (omega arith))
    where
      e : 0 + n ≡ n
      e = omega arith
  table-append (suc m) n f =
      (λ i. table (e i) f)
      ∙ ap (λ r. f 0 ∷ r)
          (table-append m n (λ i. f (suc i))
            ∙ ap (λ r. table m (λ i. f (suc i)) ++ r)
                (table_ext n (λ i. f (suc (m + i))) (λ i. f (suc m + i))
                  (λ i p. ap f (omega arith))))
    where
      e : suc m + n ≡ suc (m + n)
      e = omega arith

  pub take-table : (m n : ℕ) (f : ℕ → A) → m ≤ n → take m (table n f) ≡ table m f
  take-table zero n f h = refl
  take-table (suc m) zero f h = absurd (omega arith)
  take-table (suc m) (suc n) f h = ap (λ r. f 0 ∷ r) (take-table m n (λ i. f (suc i)) (omega arith))

  pub drop-table :
      (m n k : ℕ) (f : ℕ → A) → m + k ≡ n → drop m (table n f) ≡ table k (λ i. f (m + i))
  drop-table zero n k f h =
      (λ i. table (e i) f) ∙ table_ext k f (λ i. f (0 + i)) (λ i p. ap f (omega arith))
    where
      e : n ≡ k
      e = omega arith
  drop-table (suc m) zero k f h = absurd (omega arith)
  drop-table (suc m) (suc n) k f h =
      drop-table m n k (λ i. f (suc i)) (omega arith)
      ∙ table_ext k (λ i. f (suc (m + i))) (λ i. f (suc m + i)) (λ i p. ap f (omega arith))

  -- A list is the table of its own elements.
  pub table-get_or : (xs : List A) (d : A) → table (length xs) (λ i. get_or xs i d) ≡ xs
  table-get_or [] d = refl
  table-get_or (x ∷ xs) d = ap (λ r. x ∷ r) (table-get_or xs d)

  -- A slice of a list, as a table.
  pub take-drop-eq-table :
      (o n : ℕ) (xs : List A) (d : A)
      → o + n ≤ length xs
      → take n (drop o xs) ≡ table n (λ i. get_or xs (o + i) d)
  take-drop-eq-table zero zero xs d h = refl
  take-drop-eq-table zero (suc n) [] d h = absurd (omega arith)
  take-drop-eq-table zero (suc n) (x ∷ xs) d h = ap₂ ◌∷◌ refl (
      take-drop-eq-table zero n xs d (omega arith)
      ∙ table_ext n (λ i. get_or xs (0 + i) d) (λ i. get_or (x ∷ xs) (0 + suc i) d)
          (λ i p. ap (λ k. get_or (x ∷ xs) k d) {x = suc (0 + i)} {y = 0 + suc i} (omega arith)))
  take-drop-eq-table (suc o) n [] d h = absurd (omega arith)
  take-drop-eq-table (suc o) n (x ∷ xs) d h =
      take-drop-eq-table o n xs d (omega arith)
      ∙ table_ext n (λ i. get_or xs (o + i) d) (λ i. get_or (x ∷ xs) (suc o + i) d)
          (λ i p. ap (λ k. get_or (x ∷ xs) k d) {x = suc (o + i)} {y = suc o + i} (omega arith))

  pub get_or-table : (n : ℕ) (f : ℕ → A) (i : ℕ) (d : A) → i < n → get_or (table n f) i d ≡ f i
  get_or-table zero f i d h = absurd (omega arith)
  get_or-table (suc n) f zero d h = refl
  get_or-table (suc n) f (suc i) d h = get_or-table n (λ k. f (suc k)) i d (omega arith)
