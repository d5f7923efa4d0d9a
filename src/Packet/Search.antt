-- ===== src/Packet/Search.antt =====
-- Searches for a sync position and for the start of a PES header.
use mathlib.Core.Logic.{◌↔◌}
use native.Mathlib.Decide.{dec_lt}
use libltntstools.Base.{
  ℕ, zero, suc, ◌+◌, ◌-◌, ◌*◌, ◌≤◌, ◌<◌, ◌≡◌, refl, sym, ap, subst, ltb, ◌==◌, ◌&&◌, if◌then◌else◌,
  Bool, true, false, Option, none, some, arith, Bool-cases, inl, inr,
}
use libltntstools.Packet.{Pointer}

-- `for (i = lo; i < lo + n; i++) if (test) return i; return -1;`
unfoldable pub first_match : (ℕ → Bool) → ℕ → ℕ → Option ℕ
first_match test zero i = none
first_match test (suc n) i =
    let rest = first_match test n (i + 1) in if test i then some i else rest

-- `for (i = n - 1; i >= 0; i--) if (test) return i; return -1;`
unfoldable pub last_match : (ℕ → Bool) → ℕ → Option ℕ
last_match test zero = none
last_match test (suc n) = let rest = last_match test n in if test n then some n else rest

abbrev pub sync_at : Pointer → ℕ → Bool
sync_at buf i = buf i == 0x47 && (buf (i + 188) == 0x47 && buf (i + 2 * 188) == 0x47)

-- `ltntstools_findSyncPosition`; `none` is -1.
unfoldable pub find_sync_position : Pointer → ℕ → Option ℕ
find_sync_position buf length_bytes =
    if ltb length_bytes (3 * 188) then none else first_match (sync_at buf) 188 0

-- memcmp with 00 00 01
abbrev pub pes_header_at : Pointer → ℕ → Bool
pes_header_at buf i = buf i == 0 && (buf (i + 1) == 0 && buf (i + 2) == 1)

unfoldable pub contains_pes_header_reverse : Pointer → ℕ → Option ℕ
contains_pes_header_reverse buf length_bytes = last_match (pes_header_at buf) (length_bytes + 1 - 3)

unfoldable pub contains_pes_header : Pointer → ℕ → Option ℕ
contains_pes_header buf length_bytes = first_match (pes_header_at buf) (length_bytes - 3) 0

-- `k` is the first index from `lo` on, below `hi`, that passes the test.
abbrev pub IsFirst : (ℕ → Bool) → ℕ → ℕ → ℕ → Type 0
IsFirst test lo hi k =
    (lo ≤ k) × (k < hi) × (test k ≡ true) × ((j : ℕ) → lo ≤ j → j < k → test j ≡ false)

-- `k` is the last index below `hi` that passes the test.
abbrev pub IsLast : (ℕ → Bool) → ℕ → ℕ → Type 0
IsLast test hi k = (k < hi) × (test k ≡ true) × ((j : ℕ) → k < j → j < hi → test j ≡ false)

first_match_sound :
    (test : ℕ → Bool) (n i hi k : ℕ)
    → i + n ≡ hi
    → first_match test n i ≡ some k
    → IsFirst test i hi k
unfolding first_match
first_match_sound test zero i hi k e h = cc
first_match_sound test (suc n) i hi k e h = elim (Bool-cases (test i)) [
  | inl hit ↦
      let here : i ≡ k = ground arith in
      (omega arith, omega arith, subst (λ j. test j ≡ true) here hit, λ j p q. absurd (omega arith))
  | inr miss ↦
      let later = first_match_sound test n (i + 1) hi k (omega arith) (rw miss at h) in
      (
        omega arith,
        later.1,
        later.2,
        λ j p q. elim (dec_lt i j) [
          | yes past ↦ later.3 j (omega arith) q
          | no at ↦ subst (λ j. test j ≡ false) {x = i} {y = j} (omega arith) miss
        ],
      )
]

first_match_complete :
    (test : ℕ → Bool) (n i hi k : ℕ)
    → i + n ≡ hi
    → IsFirst test i hi k
    → first_match test n i ≡ some k
unfolding first_match
first_match_complete test zero i hi k e h = absurd (omega (arith, h.0, h.1))
first_match_complete test (suc n) i hi k e (lo, below, hit, before) = elim (dec_lt i k) [
  | yes p ↦ rw (before i (omega arith) p) (
      first_match_complete test n (i + 1) hi k (omega arith)
        (omega arith, below, hit, λ j a b. before j (omega arith) b))
  | no p ↦
      let here : i ≡ k = omega arith in
      rw (subst (λ j. test j ≡ true) (sym here) hit) (ap some here)
]

first_match-none :
    (test : ℕ → Bool) (n i : ℕ)
    → ((j : ℕ) → i ≤ j → j < i + n → test j ≡ false)
    → first_match test n i ≡ none
unfolding first_match
first_match-none test zero i h = refl
first_match-none test (suc n) i h =
    rw (h i (omega arith) (omega arith))
      (first_match-none test n (i + 1) (λ j a b. h j (omega arith) (omega arith)))

last_match_sound : (test : ℕ → Bool) (n k : ℕ) → last_match test n ≡ some k → IsLast test n k
unfolding last_match
last_match_sound test zero k h = cc
last_match_sound test (suc n) k h = elim (Bool-cases (test n)) [
  | inl hit ↦
      let here : n ≡ k = ground arith in
      (omega arith, subst (λ j. test j ≡ true) here hit, λ j p q. absurd (omega arith))
  | inr miss ↦
      let earlier = last_match_sound test n k (rw miss at h) in
      (
        omega (arith, earlier.0),
        earlier.1,
        λ j p q. elim (dec_lt j n) [
          | yes below ↦ earlier.2 j p below
          | no at ↦ subst (λ j. test j ≡ false) {x = n} {y = j} (omega arith) miss
        ],
      )
]

last_match_complete : (test : ℕ → Bool) (n k : ℕ) → IsLast test n k → last_match test n ≡ some k
unfolding last_match
last_match_complete test zero k h = absurd (omega (arith, h.0))
last_match_complete test (suc n) k (below, hit, after) = elim (dec_lt k n) [
  | yes p ↦
      rw (after n p (omega arith))
        (last_match_complete test n k (p, hit, λ j a b. after j a (omega arith)))
  | no p ↦
      let here : n ≡ k = omega arith in
      rw (subst (λ j. test j ≡ true) (sym here) hit) (ap some here)
]

-- Three sync bytes, each a packet of 188 bytes behind the one before.
abbrev pub HasSync : Pointer → ℕ → Type 0
HasSync buf i = (buf i ≡ 0x47) × (buf (i + 188) ≡ 0x47) × (buf (i + 376) ≡ 0x47)

sync_at-HasSync : (buf : Pointer) (i : ℕ) → sync_at buf i ≡ true → HasSync buf i
sync_at-HasSync buf i h = (ground (arith, h), ground (arith, h), ground (arith, h))

HasSync-sync_at : (buf : Pointer) (i : ℕ) → HasSync buf i → sync_at buf i ≡ true
HasSync-sync_at buf i (x, y, z) = ground (arith, x, y, z)

-- The bytes 00 00 01.
abbrev pub HasHeader : Pointer → ℕ → Type 0
HasHeader buf i = (buf i ≡ 0) × (buf (i + 1) ≡ 0) × (buf (i + 2) ≡ 1)

pes_header_at-HasHeader : (buf : Pointer) (i : ℕ) → pes_header_at buf i ≡ true → HasHeader buf i
pes_header_at-HasHeader buf i h = (ground (arith, h), ground (arith, h), ground (arith, h))

HasHeader-pes_header_at : (buf : Pointer) (i : ℕ) → HasHeader buf i → pes_header_at buf i ≡ true
HasHeader-pes_header_at buf i (x, y, z) = ground (arith, x, y, z)

-- A test and what it says.
module _ (test : ℕ → Bool) (P : ℕ → Type 0) (sound : (i : ℕ) → test i ≡ true → P i)
    (complete : (i : ℕ) → P i → test i ≡ true) where
  refutes : (i : ℕ) → test i ≡ false → ¬ P i
  refutes i e p = ground (arith, e, complete i p)

  fails : (i : ℕ) → ¬ P i → test i ≡ false
  fails i n = elim (Bool-cases (test i)) [ inl e ↦ absurd (n (sound i e)) | inr e ↦ e ]

  first_match_iff :
      (n k : ℕ) → (first_match test n 0 ≡ some k) ↔ ((k < n) × P k × ((j : ℕ) → j < k → ¬ P j))
  first_match_iff n k = (
    λ e.
        let f = first_match_sound test n 0 n k (omega arith) e in
        (f.1, sound k f.2, λ j b. refutes j (f.3 j (omega arith) b)),
    λ f.
        first_match_complete test n 0 n k (omega arith)
          (omega arith, f.0, complete k f.1, λ j a b. fails j (f.2 j b)),
  )

  last_match_iff :
      (n k : ℕ) → (last_match test n ≡ some k) ↔ ((k < n) × P k × ((j : ℕ) → k < j → j < n → ¬ P j))
  last_match_iff n k = (
    λ e. let f = last_match_sound test n k e in (f.0, sound k f.1, λ j a b. refutes j (f.2 j a b)),
    λ f. last_match_complete test n k (f.0, complete k f.1, λ j a b. fails j (f.2 j a b)),
  )

-- In a buffer of at least three packets a position is found exactly if it is the first of the 188 at
-- which three sync bytes stand 188 bytes apart.
pub find_sync_position_iff :
    (buf : Pointer) (length_bytes k : ℕ)
    → 3 * 188 ≤ length_bytes
    → (find_sync_position buf length_bytes ≡ some k)
      ↔ ((k < 188) × HasSync buf k × ((j : ℕ) → j < k → ¬ HasSync buf j))
unfolding find_sync_position
find_sync_position_iff buf length_bytes k h =
    rw (long length_bytes h) (
      first_match_iff (sync_at buf) (HasSync buf) (sync_at-HasSync buf) (HasSync-sync_at buf) 188 k)
  where
    long : (n : ℕ) → 3 * 188 ≤ n → ltb n (3 * 188) ≡ false
    long n p = ground arith

-- The reverse search finds exactly the last place in the buffer where the bytes 00 00 01 stand.
pub contains_pes_header_reverse_iff :
    (buf : Pointer) (length_bytes k : ℕ)
    → (contains_pes_header_reverse buf length_bytes ≡ some k) ↔ (
        (k < length_bytes + 1 - 3)
        × HasHeader buf k
        × ((j : ℕ) → k < j → j < length_bytes + 1 - 3 → ¬ HasHeader buf j))
unfolding contains_pes_header_reverse
contains_pes_header_reverse_iff buf length_bytes k =
    last_match_iff (pes_header_at buf) (HasHeader buf) (pes_header_at-HasHeader buf)
      (HasHeader-pes_header_at buf) (length_bytes + 1 - 3) k

-- A header that ends the buffer, the only one in it, is found by the reverse search and missed by
-- the forward one.
pub contains_pes_header_misses_end :
    (buf : Pointer) (length_bytes : ℕ)
    → 3 ≤ length_bytes
    → pes_header_at buf (length_bytes - 3) ≡ true
    → ((j : ℕ) → j < length_bytes - 3 → pes_header_at buf j ≡ false)
    → (contains_pes_header buf length_bytes ≡ none)
      × (contains_pes_header_reverse buf length_bytes ≡ some (length_bytes - 3))
unfolding contains_pes_header contains_pes_header_reverse
contains_pes_header_misses_end buf length_bytes h last none_before = (
  first_match-none (pes_header_at buf) (length_bytes - 3) 0 (λ j a b. none_before j (omega arith)),
  last_match_complete (pes_header_at buf) (length_bytes + 1 - 3) (length_bytes - 3)
      (omega arith, last, λ j a b. absurd (omega arith)),
)
