-- ===== src/NalReader/Tables.antt =====
-- The tables of `NALBitReader_read_me` are one to one.
use libltntstools.Base.{
  ℕ, suc, ◌≤◌, ◌<◌, ◌≡◌, refl, ap, ◌∙◌, sym, ltb, ltb→lt, ◌==◌, ==→eq, if◌then◌else◌, Bool, true,
  false, List, [], ◌∷◌, get_or, arith,
}
use libltntstools.Base.Int.{pos, negsuc, pos_part}
use libltntstools.Base.Byte.{all_below, all_below_sound}
use libltntstools.NalReader.{me_of, cbp_inter, cbp_intra}

-- The place of a value in a table, or its length.
abbrev index_of : List ℕ → ℕ → ℕ
index_of [] v = 0
index_of (x ∷ xs) v = if x == v then 0 else suc (index_of xs v)

-- The code number of a coded block pattern.
abbrev pub code_number : Bool → ℕ → ℕ
code_number intra v = if intra then index_of cbp_intra v else index_of cbp_inter v

abbrev value : Bool → ℕ → ℕ
value intra k = if intra then get_or cbp_intra k 0 else get_or cbp_inter k 0

-- Each code number and each coded block pattern, from 0 to 47, has its partner in the table.
value-code_number : (intra : Bool) (v : ℕ) → v < 48 → value intra (code_number intra v) ≡ v
value-code_number true v h =
    ==→eq _ _ (
      all_below_sound 48 (λ y. value true (code_number true y) == y) v (unfold all_below in refl) h)
value-code_number false v h = ==→eq _ _ (
    all_below_sound 48 (λ y. value false (code_number false y) == y) v (unfold all_below in refl) h)

code_number-value : (intra : Bool) (k : ℕ) → k < 48 → code_number intra (value intra k) ≡ k
code_number-value true v h =
    ==→eq _ _ (
      all_below_sound 48 (λ y. code_number true (value true y) == y) v (unfold all_below in refl) h)
code_number-value false v h = ==→eq _ _ (
    all_below_sound 48 (λ y. code_number false (value false y) == y) v (unfold all_below in refl) h)

code_number-small : (intra : Bool) (v : ℕ) → v < 48 → ltb (code_number intra v) 48 ≡ true
code_number-small true v h =
    all_below_sound 48 (λ y. ltb (code_number true y) 48) v (unfold all_below in refl) h
code_number-small false v h =
    all_below_sound 48 (λ y. ltb (code_number false y) 48) v (unfold all_below in refl) h

-- The values of `NALBitReader_read_me` and the code numbers 0 to 47 correspond one to one, for intra
-- and for inter macroblocks: each coded block pattern below 48 is the value of its own code number,
-- which no other has, and a code that is negative or from 48 on is -1.
pub me_of_lem :
    (intra : Bool)
    → ((v : ℕ)
        → v < 48
        → (k : ℕ) × (k < 48)
          × (me_of intra (pos k) ≡ pos v)
          × ((j : ℕ) → j < 48 → me_of intra (pos j) ≡ pos v → j ≡ k))
      × ((k : ℕ) → 48 ≤ k → me_of intra (pos k) ≡ negsuc 0)
      × ((k : ℕ) → me_of intra (negsuc k) ≡ negsuc 0)
me_of_lem intra = (
  λ v h. (
    code_number intra v,
    ltb→lt _ _ (code_number-small intra v h),
    in_table intra (code_number intra v) (ltb→lt _ _ (code_number-small intra v h))
        ∙ ap pos (value-code_number intra v h),
    λ j k e.
        sym (code_number-value intra j k)
        ∙ ap (code_number intra) (ap pos_part (sym (in_table intra j k) ∙ e)),
  ),
  λ k h. ground (arith, h),
  λ k. refl,
)
  where
    in_table : (b : Bool) (k : ℕ) → k < 48 → me_of b (pos k) ≡ pos (value b k)
    in_table b k h = ground (arith, h)
