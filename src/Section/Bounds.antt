-- ===== src/Section/Bounds.antt =====
-- Every packet, well formed or not: the extractor stays within its allocation.
use libltntstools.Base.{
  ℕ, ◌+◌, ◌-◌, ◌≤◌, ◌≡◌, inl, inr, refl, ◌∙◌, ltb, ◌==◌, ◌&&◌, not, if◌then◌else◌, Bool, true,
  false, none, some, length, arith, Bool-cases,
}
use libltntstools.Memory.Copy.{length-store}
use libltntstools.Packet.{Pointer, sync_present}
use libltntstools.Section.{
  Extractor, Written, bytes_at, section_offset, announced, at_most_183, begun, copy_in,
  write_packet,
}

pub record IsSane (ctx : Extractor) : Type 0 where
  pub allocated : length ctx.section ≡ 4096
  pub inside : ctx.section_length_current ≤ ctx.section_length
  pub short : ctx.section_length ≤ 4096

-- Where the packet starts a section, this has at most 4096 bytes. A packet starts one if it has its
-- sync byte, the extractor neither collects a section nor has one, and the table is the one asked for.
abbrev pub IsShort : Extractor → Pointer → Type 0
IsShort ctx pkt =
    (o : ℕ)
    → sync_present pkt ≡ true
    → section_offset pkt ≡ some o
    → ctx.appending ≡ false
    → ctx.complete ≡ false
    → pkt o ≡ ctx.table_id
    → announced pkt o ≤ 4096

copy_in-IsSane :
    (ctx : Extractor) (pkt : Pointer) (o n : ℕ) (before : Bool)
    → IsSane ctx
    → ctx.section_length_current + n ≤ ctx.section_length
    → (v : Written) × (copy_in ctx pkt o n before ≡ some v) × IsSane v.ctx
unfolding copy_in
copy_in-IsSane ctx pkt o n before k h =
    let fits : ltb (length ctx.section) (ctx.section_length_current + n) ≡ false =
      ground (arith, h, k.allocated, k.short) in
    let same =
      length-store ctx.section ctx.section_length_current (bytes_at pkt o n) ∙ k.allocated in
    elim (Bool-cases (ctx.section_length == ctx.section_length_current + n)) [
      | inl e ↦
          rw (copy_in, fits, e) (_, refl, record { allocated = same; inside = h; short = k.short })
      | inr e ↦
          rw (copy_in, fits, e) (_, refl, record { allocated = same; inside = h; short = k.short })
    ]

at_most_183-le : (m : ℕ) → at_most_183 m ≤ m
at_most_183-le m = ground arith

-- The packet's table data stands at `o`.
module _ (ctx : Extractor) (pkt : Pointer) (before : Bool) (k : IsSane ctx) where
  abbrev Fine : Type 0
  Fine = (v : Written) × (write_packet ctx pkt before ≡ some v) × IsSane v.ctx

  unsynced : sync_present pkt ≡ false → Fine
  unfolding write_packet
  unsynced e = rw (write_packet, e) (_, refl, k)

  too_far : sync_present pkt ≡ true → section_offset pkt ≡ none → Fine
  unfolding write_packet
  too_far e f = rw (write_packet, e, f) (_, refl, k)

  module _ (o : ℕ) (synced : sync_present pkt ≡ true) (at : section_offset pkt ≡ some o) where
    abbrev starts : Bool
    starts = not ctx.appending && (not ctx.complete && (pkt o == ctx.table_id))

    abbrev goes_on : Bool
    goes_on = ctx.appending && not ctx.complete

    started : starts ≡ true → announced pkt o ≤ 4096 → Fine
    unfolding write_packet
    started e h =
        let (v, ran, sane) =
          copy_in-IsSane (begun ctx pkt o) pkt o (at_most_183 (announced pkt o)) before
            (record { allocated = k.allocated; inside = omega arith; short = h })
            (omega (arith, at_most_183-le (announced pkt o))) in
        (v, rw (write_packet, synced, at, e) ran, sane)

    continued : starts ≡ false → goes_on ≡ true → Fine
    unfolding write_packet
    continued e f =
        let n =
          if ltb ctx.section_length (ctx.section_length_current + 183)
          then ctx.section_length - ctx.section_length_current
          else 183 in
        let (v, ran, sane) = copy_in-IsSane ctx pkt o n before k (ground (arith, k.inside)) in
        (v, rw (write_packet, synced, at, e, f) ran, sane)

    ignored : starts ≡ false → goes_on ≡ false → Fine
    unfolding write_packet
    ignored e f =
        rw (write_packet, synced, at, e, f)
          (_, refl, record { allocated = k.allocated; inside = k.inside; short = k.short })

-- An extractor whose section has at most 4096 bytes, no more of them collected, takes any packet that
-- does not start a section of more than 4096 bytes, without a write out of bounds, and is left in
-- such a state.
pub write_packet-IsSane :
    (ctx : Extractor) (pkt : Pointer) (before : Bool)
    → IsSane ctx
    → IsShort ctx pkt
    → (v : Written) × (write_packet ctx pkt before ≡ some v) × IsSane v.ctx
write_packet-IsSane ctx pkt before k small = elim (Bool-cases (sync_present pkt)) [
  | inr e ↦ unsynced ctx pkt before k e
  | inl e ↦
      elim (section_offset pkt) as (λ r. section_offset pkt ≡ r → Fine ctx pkt before k) [
        | none ↦ λ f. too_far ctx pkt before k e f
        | some o ↦ λ f. elim (Bool-cases (starts ctx pkt before k o e f)) [
          | inl g ↦
              started ctx pkt before k o e f g
                (small o e f (ground (arith, g)) (ground (arith, g)) (ground (arith, g)))
          | inr g ↦ elim (Bool-cases (goes_on ctx pkt before k o e f)) [
            | inl h ↦ continued ctx pkt before k o e f g h
            | inr h ↦ ignored ctx pkt before k o e f g h
          ]
        ]
      ]
        refl
]
