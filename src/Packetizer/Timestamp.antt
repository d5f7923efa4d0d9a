-- ===== src/Packetizer/Timestamp.antt =====
-- The clock in the first packet of `ltntstools_ts_packetizer_with_pcr`.
use libltntstools.Base.{
  ℕ, ◌+◌, ◌-◌, ◌*◌, ◌/◌, ◌%◌, ◌^◌, ◌<◌, ◌≡◌, refl, ap, ap₂, ◌∙◌, u8, bit_and, bit_or, Bool, true,
  false, some, List, ◌∷◌, arith,
}
use libltntstools.Base.Bits.{bit_and_mask, bit_and_bit}
use libltntstools.Packet.{Pointer, sync_present, adaption_field_control}
use libltntstools.Packet.Pcr.{pcr_to_scr, pcr_pack_to, scr, pcr_to_scr-pcr_pack_to, middle_byte}
use libltntstools.Packetizer.{
  copy_at, put_pcr, shape_pcr, timed_header, timed_shape, af_flags_of, ts_packetizer_with_pcr,
}
use libltntstools.Packetizer.Shape.{with_control, timed_header_bytes, timed_shape-IsShaped}
use libltntstools.Packetizer.Payload.{in_array-inside}
use libltntstools.Packetizer.{in_array, timed_room}
use libltntstools.Packetizer.Timed.{timed_starts, timed_room_lem, timed_loop_more, timed_loop-times}

-- The clock of a packet depends on the six bytes that hold it.
pcr_to_scr_same : (p q : Pointer) → ((i : ℕ) → i < 6 → p i ≡ q i) → pcr_to_scr p ≡ pcr_to_scr q
unfolding pcr_to_scr
pcr_to_scr_same p q h = ground (
  arith,
  h 0 (omega arith),
  h 1 (omega arith),
  h 2 (omega arith),
  h 3 (omega arith),
  h 4 (omega arith),
  h 5 (omega arith),
)

middle_byte_same :
    (base ext : ℕ)
    → ext < 512
    → u8 (bit_or (bit_or (bit_and base 0x1 * 2 ^ 7) 0x7e) (bit_and (ext / 2 ^ 8) 0x01))
      ≡ u8 (bit_or (bit_or (u8 (base * 2 ^ 7)) 0x7e) (bit_and ext 0x100 / 2 ^ 8))
middle_byte_same base ext h =
    ap₂ (λ a b. u8 (bit_or (bit_or a 0x7e) b)) (ground (arith, bit_and_mask 1 base))
      (ground (arith, h, bit_and_bit 8 ext, bit_and_mask 1 (ext / 256)))

-- The clock's bytes are those that `ltntstools_pcr_packTo` writes.
put_pcr-bytes :
    (p : Pointer) (pcr i : ℕ) → i < 6 → put_pcr p pcr (6 + i) ≡ pcr_pack_to p 6 pcr (6 + i)
unfolding put_pcr pcr_pack_to
put_pcr-bytes p pcr i h = ground (
  arith,
  h,
  middle_byte_same (pcr / 300) (pcr % 300) (omega arith),
  middle_byte (pcr / 300) (pcr % 300) (omega arith),
  bit_and_mask 8 (pcr / 300 / 2 ^ 25),
  bit_and_mask 8 (pcr / 300 / 2 ^ 17),
  bit_and_mask 8 (pcr / 300 / 2 ^ 9),
  bit_and_mask 8 (pcr / 300 / 2 ^ 1),
  bit_and_mask 8 (pcr % 300),
)

-- The first packet, where there is a clock.
clocked_packet : Pointer → ℕ → ℕ → ℕ → ℕ → Bool → Bool → Pointer
clocked_packet buf byte_count pid_nr cnt_cc t rai priority =
    let s =
      shape_pcr (timed_header pid_nr cnt_cc true) (byte_count - 0)
        (af_flags_of true true rai priority) t in
    copy_at s.packet s.payload_offset buf 0 s.cpy

module _ (buf : Pointer) (byte_count pid_nr cnt_cc t : ℕ) (rai priority : Bool)
    (narrow : pid_nr < 8192) where
  abbrev clocked : Pointer
  clocked = clocked_packet buf byte_count pid_nr cnt_cc t rai priority

  clocked_clock : (i : ℕ) → i < 6 → clocked (6 + i) ≡ put_pcr (λ j. 0) t (6 + i)
  unfolding clocked_packet shape_pcr put_pcr
  clocked_clock i h = ground (arith, h)

  clocked_flag : (r q : Bool) → af_flags_of true true r q / 16 % 2 ≡ 1
  unfolding af_flags_of
  clocked_flag true true = refl
  clocked_flag true false = refl
  clocked_flag false true = refl
  clocked_flag false false = refl

  clocked_af : clocked 5 ≡ af_flags_of true true rai priority
  unfolding clocked_packet shape_pcr put_pcr
  clocked_af = ground arith

  clocked_flags :
      (clocked 0 ≡ 0x47)
      × (clocked 3 ≡ cnt_cc % 16 + 48)
      × (0 < clocked 4)
      × (clocked 5 / 16 % 2 ≡ 1)
  unfolding clocked_packet shape_pcr put_pcr
  clocked_flags =
      let b = timed_header_bytes pid_nr cnt_cc true narrow in
      (
        ground (arith, b),
        ground (arith, b, with_control (cnt_cc % 16) (omega arith)),
        ground (arith),
        ap (λ f. f / 16 % 2) clocked_af ∙ clocked_flag rai priority,
      )

  clocked-scr : t < 2 ^ 33 * 300 → scr clocked ≡ some t
  unfolding scr sync_present adaption_field_control
  clocked-scr fits =
      let e : pcr_to_scr (λ i. clocked (6 + i)) ≡ t =
        pcr_to_scr_same (λ i. clocked (6 + i)) (λ i. pcr_pack_to (λ j. 0) 6 t (6 + i))
          (λ i h. clocked_clock i h ∙ put_pcr-bytes (λ j. 0) t i h)
        ∙ pcr_to_scr-pcr_pack_to (λ j. 0) t fits in
      ground (arith, e, clocked_flags, bit_and_bit 4 (clocked 5), bit_and_mask 2 (clocked 3 / 16))

clocked_shape :
    (buf : Pointer) (byte_count pid_nr cnt_cc t : ℕ) (rai priority : Bool)
    → let s = timed_shape pid_nr cnt_cc (some t) rai priority (byte_count - 0) 0 in
      copy_at s.packet s.payload_offset buf 0 s.cpy
      ≡ clocked_packet buf byte_count pid_nr cnt_cc t rai priority
unfolding timed_shape clocked_packet
clocked_shape buf byte_count pid_nr cnt_cc t rai priority = refl

-- For 0 < byte_count with an array, of (byte_count + 175) / 176 + 2 packets, below 2^32 bytes, a pid of
-- 13 bits and a clock below 2^33 * 300, `ltntstools_scr` reads it back from the first packet that
-- `ltntstools_ts_packetizer_with_pcr` makes, whatever the flags.
pub ts_packetizer_with_pcr-scr :
    (buf : Pointer) (byte_count cnt_cc pid_nr t : ℕ) (rai priority : Bool)
    → 0 < byte_count
    → ((byte_count + 175) / 176 + 2) * 188 < 2 ^ 32
    → pid_nr < 8192
    → t < 2 ^ 33 * 300
    → (first : Pointer) × (others : List Pointer) × (counter : ℕ) × (ts_packetizer_with_pcr buf
          byte_count 188 cnt_cc pid_nr
          (some t)
          rai
          priority
        ≡ some (record { packets = first ∷ others; cc = counter }))
      × (scr first ≡ some t)
ts_packetizer_with_pcr-scr buf byte_count cnt_cc pid_nr t rai priority more sized narrow fits =
    let s = timed_shape pid_nr cnt_cc (some t) rai priority (byte_count - 0) 0 in
    let shaped =
      timed_shape-IsShaped pid_nr cnt_cc (some t) rai priority (byte_count - 0) 0 narrow
        (omega (arith, more)) in
    let (out, e, k) =
      timed_loop-times byte_count buf byte_count pid_nr (bit_and (cnt_cc + 1) 0x0f) (some t) rai
        priority (0 + s.cpy) (0 + 1) narrow (omega (arith, more, shaped.some_more)) in
    (
      clocked_packet buf byte_count pid_nr cnt_cc t rai priority,
      out.packets,
      out.cc,
      timed_starts buf byte_count pid_nr cnt_cc (some t) rai priority more narrow
          ∙ ap (in_array (timed_room byte_count) (2 ^ 32)) (
              timed_loop_more byte_count buf byte_count pid_nr cnt_cc (some t) rai priority 0 0 out
                more e)
          ∙ in_array-inside (timed_room byte_count) (2 ^ 32)
              (record {
                packets = copy_at s.packet s.payload_offset buf 0 s.cpy ∷ out.packets;
                cc = out.cc;
              })
              (omega (arith, k.sized, timed_room_lem byte_count sized))
              (omega (arith, k.sized, sized))
          ∙ ap (λ p. some (record { packets = p ∷ out.packets; cc = out.cc }))
              (clocked_shape buf byte_count pid_nr cnt_cc t rai priority),
      clocked-scr buf byte_count pid_nr cnt_cc t rai priority narrow fits,
    )
