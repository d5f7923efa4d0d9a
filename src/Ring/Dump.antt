-- ===== src/Ring/Dump.antt =====
-- `rb_fwrite`: a ring saved to a file between two marks, and emptied.
use native.Mathlib.Decide.{dec_lt}
use libltntstools.Base.{
  ℕ, zero, suc, ◌/◌, ◌^◌, ◌<◌, ◌≡◌, ◌∙◌, ap, u8, u32, if◌then◌else◌, Option, none, some, List, [],
  ◌∷◌, ◌++◌, length, take, arith, take-append-drop, length-drop, length-take, drop_over, take_over,
}
use libltntstools.Ring.{RingBuffer, rb_read, rb_is_empty, rb_used}
use libltntstools.Ring.Valid.{IsValid, IsSpare}
use libltntstools.Ring.Contents.{contents, length-contents}
use libltntstools.Ring.Read.{rb_read_lem}

-- The loop of `rb_fwrite`: what it hands to fwrite. `none` is a fault, or the end of the fuel.
pub drain : (ℕ → List ℕ) → ℕ → RingBuffer → Option (RingBuffer × List ℕ)
drain spare zero buf = none
drain spare (suc fuel) buf = elim (rb_read spare buf 8192) [
  | none ↦ none
  | some (rest, out) ↦ elim out [
    | [] ↦ some (rest, [])
    | x ∷ xs ↦ elim (drain spare fuel rest) [
      | none ↦ none
      | some (end, more) ↦ some (end, (x ∷ xs) ++ more)
    ]
  ]
]

-- The bytes of the marks, and of `hdrlen`.
abbrev pub head_mark : List ℕ
head_mark = b'H' ∷ b'E' ∷ b'A' ∷ b'D' ∷ []

abbrev pub tail_mark : List ℕ
tail_mark = b'T' ∷ b'A' ∷ b'I' ∷ b'L' ∷ []

abbrev pub length_mark : ℕ → List ℕ
length_mark n = u8 (n / 2 ^ 24) ∷ u8 (n / 2 ^ 16) ∷ u8 (n / 2 ^ 8) ∷ u8 n ∷ []

-- The ring afterwards, and the bytes written to the file.
pub rb_fwrite : (ℕ → List ℕ) → ℕ → RingBuffer → Option (RingBuffer × List ℕ)
rb_fwrite spare fuel buf =
    if rb_is_empty buf then some (buf, []) else (elim (drain spare fuel buf) [
      | none ↦ none
      | some (end, out) ↦
          some (end, head_mark ++ (length_mark (u32 (rb_used buf)) ++ (out ++ tail_mark)))
    ])

drain_step :
    (spare : ℕ → List ℕ) (fuel : ℕ) (buf rest end : RingBuffer) (out more : List ℕ)
    → rb_read spare buf 8192 ≡ some (rest, out)
    → 0 < length out
    → drain spare fuel rest ≡ some (end, more)
    → drain spare (suc fuel) buf ≡ some (end, out ++ more)
unfolding drain
drain_step spare fuel buf rest end [] more reads pos tail = absurd (omega arith)
drain_step spare fuel buf rest end (x ∷ xs) more reads pos tail = rw (reads, drain) (rw tail)

drain_stop :
    (spare : ℕ → List ℕ) (fuel : ℕ) (buf rest : RingBuffer) (out : List ℕ)
    → rb_read spare buf 8192 ≡ some (rest, out)
    → length out ≡ 0
    → drain spare (suc fuel) buf ≡ some (rest, out)
unfolding drain
drain_stop spare fuel buf rest [] reads e = rw (reads, drain)
drain_stop spare fuel buf rest (x ∷ xs) reads e = absurd (omega arith)

-- Fuel above the number of bytes is enough: each round but the last takes at least one.
drain_lem :
    (spare : ℕ → List ℕ) (fuel : ℕ) (buf : RingBuffer)
    → IsSpare spare
    → IsValid buf
    → length (contents buf) < fuel
    → (end : RingBuffer) × (drain spare fuel buf ≡ some (end, contents buf))
      × (contents end ≡ [])
      × IsValid end
drain_lem spare zero buf s v h = absurd (omega arith)
drain_lem spare (suc fuel) buf s v h =
    let (rest, reads, left, valid, _) = rb_read_lem spare buf 8192 s v in
    elim (dec_lt 0 (length (contents buf))) [
      | yes p ↦
          let (end, drains, empty, ends) =
            drain_lem spare fuel rest s valid
              (rw left (omega (arith, length-drop 8192 (contents buf)))) in
          (
            end,
            drain_step spare fuel buf rest end (take 8192 (contents buf)) (contents rest) reads
                  (omega (arith, length-take 8192 (contents buf))) drains
                ∙ ap (λ r. some (end, take 8192 (contents buf) ++ r)) left
                ∙ ap (λ r. some (end, r)) (take-append-drop 8192 (contents buf)),
            empty,
            ends,
          )
      | no p ↦ (
        rest,
        drain_stop spare fuel buf rest (take 8192 (contents buf)) reads
              (omega (arith, length-take 8192 (contents buf)))
            ∙ ap (λ r. some (rest, r)) (take_over 8192 (contents buf) (omega arith)),
        left ∙ drop_over 8192 (contents buf) (omega arith),
        valid,
      )
    ]

-- A ring that holds something is saved whole, oldest byte first, between the marks and behind its
-- length, and is left empty and valid; the loop ends within one round for each byte and one more.
pub rb_fwrite_lem :
    (spare : ℕ → List ℕ) (fuel : ℕ) (buf : RingBuffer)
    → IsSpare spare
    → IsValid buf
    → 0 < buf.fill
    → buf.fill < fuel
    → (end : RingBuffer) × (rb_fwrite spare fuel buf
        ≡ some (end, head_mark ++ (length_mark (u32 buf.fill) ++ (contents buf ++ tail_mark))))
      × (contents end ≡ [])
      × IsValid end
unfolding rb_fwrite rb_is_empty rb_used
rb_fwrite_lem spare fuel buf s v pos h =
    let (end, drains, empty, ends) =
      drain_lem spare fuel buf s v (omega (arith, length-contents buf)) in
    (end, ground (arith, drains), empty, ends)
