-- ===== src/Packetizer/Shape.antt =====
-- The shapes of a packet in `ltntstools_ts_packetizer_with_pcr` fit their payloads.
use native.Mathlib.Decide.{dec_lt}
use libltntstools.Base.{
  ℕ, ◌+◌, ◌-◌, ◌/◌, ◌%◌, ◌≤◌, ◌<◌, ◌≡◌, refl, ◌∙◌, ◌==◌, ◌||◌, ◌&&◌, if◌then◌else◌, bit_or, Bool,
  true, false, Option, none, some, arith, ==→eq,
}
use libltntstools.Base.Bits.{bit_and_mask}
use libltntstools.Base.Byte.{all_below, all_below_sound}
use libltntstools.Packet.{Pointer, adaption_field_length}
use libltntstools.Packet.Fields.{has_adaption_lem}
use libltntstools.Packetizer.{
  put_pcr, Shaped, shape_pcr, shape_flags, shape_plain, timed_header, timed_shape, af_flags_of,
}
use libltntstools.Packetizer.Payload.{payload_start, with_start}

-- A packet ready for `cpy` of `rem` bytes: its payload starts where they go and ends with them,
-- and bytes 0 to 2 and the low bits of byte 3 are those of `p`.
pub record IsShaped (p : Pointer) (rem : ℕ) (s : Shaped) : Type 0 where
  pub started : payload_start s.packet ≡ s.payload_offset
  pub full : s.payload_offset + s.cpy ≡ 188
  pub within : s.cpy ≤ rem
  pub some_more : 0 < s.cpy
  pub ample : s.cpy < 176 → rem ≤ s.cpy
  pub headed : (i : ℕ) → i < 3 → s.packet i ≡ p i
  pub counted : s.packet 3 % 16 ≡ p 3

-- Byte 3 with the two bits that say what follows the header.
pub with_control : (x : ℕ) → x < 16 → (bit_or x 0x30 ≡ x + 48) × (bit_or x 0x10 ≡ x + 16)
with_control x h = (
  ==→eq _ _ (all_below_sound 16 (λ y. bit_or y 0x30 == y + 48) x (unfold all_below in refl) h),
  ==→eq _ _ (all_below_sound 16 (λ y. bit_or y 0x10 == y + 16) x (unfold all_below in refl) h),
)

start_behind : (q : Pointer) (x n : ℕ) → x < 16 → q 3 ≡ x + 48 → q 4 ≡ n → payload_start q ≡ 5 + n
unfolding payload_start adaption_field_length
start_behind q x n low e f = ground (arith, e, f, low, has_adaption_lem q)

start_plain : (q : Pointer) (x : ℕ) → x < 16 → q 3 ≡ x + 16 → payload_start q ≡ 4
unfolding payload_start
start_plain q x low e = ground (arith, e, low, has_adaption_lem q)

module _ (p : Pointer) (rem af_flags pcr : ℕ) (low : p 3 < 16) (more : 0 < rem) where
  shape_plain-IsShaped : IsShaped p rem (shape_plain p rem)
  unfolding shape_plain
  shape_plain-IsShaped =
      let q = (shape_plain p rem).packet in
      elim (dec_lt rem 184) [
        | yes h ↦
            (let e : q 3 ≡ p 3 + 48 = ground (arith, h, with_control (p 3) low) in
              record {
                started =
                    start_behind q (p 3) (183 - rem) low e (ground (arith, h)) ∙ ground (arith, h);
                full = ground (arith, h);
                within = ground (arith, h);
                some_more = ground (arith, h);
                ample = λ k. ground (arith, h, k);
                headed = λ i j. ground (arith, h, j);
                counted = omega (arith, e, low);
              })
        | no h ↦
            (let e : q 3 ≡ p 3 + 16 = ground (arith, h, with_control (p 3) low) in
              record {
                started = start_plain q (p 3) low e ∙ ground (arith, h);
                full = ground (arith, h);
                within = ground (arith, h);
                some_more = ground (arith, h);
                ample = λ k. ground (arith, h, k);
                headed = λ i j. ground (arith, h, j);
                counted = omega (arith, e, low);
              })
      ]

  shape_flags-IsShaped : IsShaped p rem (shape_flags p rem af_flags)
  unfolding shape_flags
  shape_flags-IsShaped =
      let q = (shape_flags p rem af_flags).packet in
      elim (dec_lt rem 182) [
        | yes h ↦
            (let e : q 3 ≡ p 3 + 48 = ground (arith, h, with_control (p 3) low) in
              record {
                started =
                    start_behind q (p 3) (183 - rem) low e (ground (arith, h)) ∙ ground (arith, h);
                full = ground (arith, h);
                within = ground (arith, h);
                some_more = ground (arith, h);
                ample = λ k. ground (arith, h, k);
                headed = λ i j. ground (arith, h, j);
                counted = omega (arith, e, low);
              })
        | no h ↦
            (let e : q 3 ≡ p 3 + 48 = ground (arith, h, with_control (p 3) low) in
              record {
                started = start_behind q (p 3) 1 low e (ground (arith, h)) ∙ ground (arith, h);
                full = ground (arith, h);
                within = ground (arith, h);
                some_more = ground (arith, h);
                ample = λ k. ground (arith, h, k);
                headed = λ i j. ground (arith, h, j);
                counted = omega (arith, e, low);
              })
      ]

  shape_pcr-IsShaped : IsShaped p rem (shape_pcr p rem af_flags pcr)
  unfolding shape_pcr put_pcr
  shape_pcr-IsShaped =
      let q = (shape_pcr p rem af_flags pcr).packet in
      elim (dec_lt rem 176) [
        | yes h ↦
            (let e : q 3 ≡ p 3 + 48 = ground (arith, h, with_control (p 3) low) in
              record {
                started =
                    start_behind q (p 3) (183 - rem) low e (ground (arith, h)) ∙ ground (arith, h);
                full = ground (arith, h);
                within = ground (arith, h);
                some_more = ground (arith, h);
                ample = λ k. ground (arith, h, k);
                headed = λ i j. ground (arith, h, j);
                counted = omega (arith, e, low);
              })
        | no h ↦
            (let e : q 3 ≡ p 3 + 48 = ground (arith, h, with_control (p 3) low) in
              record {
                started = start_behind q (p 3) 7 low e (ground (arith, h)) ∙ ground (arith, h);
                full = ground (arith, h);
                within = ground (arith, h);
                some_more = ground (arith, h);
                ample = λ k. ground (arith, h, k);
                headed = λ i j. ground (arith, h, j);
                counted = omega (arith, e, low);
              })
      ]

pub timed_header_bytes :
    (pid_nr cnt_cc : ℕ) (first : Bool)
    → pid_nr < 8192
    → let p = timed_header pid_nr cnt_cc first in
      (p 0 ≡ 0x47)
      × (p 1 ≡ (if first then pid_nr / 256 + 64 else pid_nr / 256))
      × (p 2 ≡ pid_nr % 256)
      × (p 3 ≡ cnt_cc % 16)
unfolding timed_header
timed_header_bytes pid_nr cnt_cc first narrow = (
  ground arith,
  ground (arith, bit_and_mask 5 (pid_nr / 256), with_start (pid_nr / 256) (omega arith)),
  ground (arith, bit_and_mask 8 pid_nr),
  ground (arith, bit_and_mask 4 cnt_cc),
)

-- Each of the three shapes that the loop picks from is one that fits its payload.
pub timed_shape-IsShaped :
    (pid_nr cnt_cc : ℕ) (pcr : Option ℕ) (rai priority : Bool) (rem cnt : ℕ)
    → pid_nr < 8192
    → 0 < rem
    → IsShaped
        (timed_header pid_nr cnt_cc (cnt == 0))
        rem
        (timed_shape pid_nr cnt_cc pcr rai priority rem cnt)
unfolding timed_shape
timed_shape-IsShaped pid_nr cnt_cc none rai priority rem cnt narrow more =
    let p = timed_header pid_nr cnt_cc (cnt == 0) in
    let low : p 3 < 16 = omega (arith, timed_header_bytes pid_nr cnt_cc (cnt == 0) narrow) in
    elim ((cnt == 0) && (rai || priority))
      as (λ b. IsShaped p rem (
        if b
        then shape_flags p rem (af_flags_of false (cnt == 0) rai priority)
        else shape_plain p rem)) [
          | true ↦ shape_flags-IsShaped p rem (af_flags_of false (cnt == 0) rai priority) 0 low more
          | false ↦ shape_plain-IsShaped p rem 0 0 low more
        ]
timed_shape-IsShaped pid_nr cnt_cc (some t) rai priority rem cnt narrow more =
    let p = timed_header pid_nr cnt_cc (cnt == 0) in
    let low : p 3 < 16 = omega (arith, timed_header_bytes pid_nr cnt_cc (cnt == 0) narrow) in
    elim (cnt == 0)
      as (λ b. IsShaped p rem (
        if b
        then shape_pcr p rem (af_flags_of true (cnt == 0) rai priority) t
        else shape_plain p rem)) [
          | true ↦ shape_pcr-IsShaped p rem (af_flags_of true (cnt == 0) rai priority) t low more
          | false ↦ shape_plain-IsShaped p rem 0 0 low more
        ]
