-- ===== src/Memory.antt =====
-- The C library's block operations that the sources call: memcpy, memset and realloc on arrays of
-- bytes. `none` is an access past the end of an array, which C leaves undefined.
pub mod Copy
pub mod Prefix
use libltntstools.Base.{
  ℕ, zero, suc, ◌+◌, ◌-◌, leb, ◌&&◌, if◌then◌else◌, Option, none, some, List, [], ◌∷◌, ◌++◌, length,
  set, take, drop, replicate,
}

-- The bytes `xs` stored one after the other from index `o` on.
unfoldable pub store : List ℕ → ℕ → List ℕ → List ℕ
store buf o [] = buf
store buf o (x ∷ xs) = store (set buf o x) (o + 1) xs

-- memcpy(dst + o, src + so, n)
unfoldable pub memcpy : List ℕ → ℕ → List ℕ → ℕ → ℕ → Option (List ℕ)
memcpy dst o src so n =
    if leb (o + n) (length dst) && leb (so + n) (length src)
    then some (store dst o (take n (drop so src)))
    else none

-- memset(dst + o, v, n)
unfoldable pub memset : List ℕ → ℕ → ℕ → ℕ → Option (List ℕ)
memset dst o v n = if leb (o + n) (length dst) then some (store dst o (replicate n v)) else none

-- realloc(xs, n): `spare k` stands for the `k` bytes of unknown content that it may add.
unfoldable pub realloc : (ℕ → List ℕ) → List ℕ → ℕ → List ℕ
realloc spare xs n = take n xs ++ spare (n - length xs)

-- What memcpy(to, src + o, n) puts into `to`.
unfoldable pub read_block : List ℕ → ℕ → ℕ → Option (List ℕ)
read_block src o n = if leb (o + n) (length src) then some (take n (drop o src)) else none
