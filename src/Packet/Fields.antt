-- ===== src/Packet/Fields.antt =====
-- The four bytes of a packet's header, taken apart.
use libltntstools.Base.{
  ℕ, ◌+◌, ◌*◌, ◌/◌, ◌%◌, ◌^◌, ◌<◌, ◌≡◌, refl, ltb, ◌==◌, if◌then◌else◌, true, false, arith,
}
use libltntstools.Base.Bits.{bit_and_mask, bit_and_bit, bit_or_sum}
use libltntstools.Packet.{
  Pointer, sync_present, tei_set, payload_unit_start_indicator, transport_priority, pid,
  transport_scrambling_control, adaption_field_control, has_adaption, continuity_counter,
  generate_null_packet,
}

-- Every byte of the header is a byte.
pub record IsHeader (pkt : Pointer) : Type 0 where
  pub byte_1 : pkt 1 < 256
  pub byte_2 : pkt 2 < 256
  pub byte_3 : pkt 3 < 256

pub pid_lem : (pkt : Pointer) → pkt 2 < 256 → pid pkt ≡ pkt 1 % 32 * 256 + pkt 2
unfolding pid
pid_lem pkt h =
    ground (arith, bit_or_sum 8 (pkt 1) (pkt 2) h, bit_and_mask 13 (pkt 1 * 256 + pkt 2))

pub adaption_field_control_lem : (pkt : Pointer) → adaption_field_control pkt ≡ pkt 3 / 16 % 4
unfolding adaption_field_control
adaption_field_control_lem pkt = bit_and_mask 2 (pkt 3 / 16)

pub continuity_counter_lem : (pkt : Pointer) → continuity_counter pkt ≡ pkt 3 % 16
unfolding continuity_counter
continuity_counter_lem pkt = bit_and_mask 4 (pkt 3)

pub payload_unit_start_indicator_lem :
    (pkt : Pointer) → payload_unit_start_indicator pkt ≡ pkt 1 / 64 % 2
unfolding payload_unit_start_indicator
payload_unit_start_indicator_lem pkt = ground (arith, bit_and_bit 6 (pkt 1))

tei_set_lem : (pkt : Pointer) → tei_set pkt ≡ pkt 1 / 128 % 2
unfolding tei_set
tei_set_lem pkt = ground (arith, bit_and_bit 7 (pkt 1))

transport_priority_lem : (pkt : Pointer) → transport_priority pkt ≡ pkt 1 / 32 % 2
unfolding transport_priority
transport_priority_lem pkt = ground (arith, bit_and_bit 5 (pkt 1))

-- The header's fields lose nothing: the three bytes behind the sync byte are their sum.
pub header_fields :
    (pkt : Pointer)
    → IsHeader pkt
    → (pkt 1 * 256 + pkt 2
        ≡ tei_set pkt * 2 ^ 15
          + payload_unit_start_indicator pkt * 2 ^ 14
          + transport_priority pkt * 2 ^ 13
          + pid pkt)
      × (pkt 3
          ≡ transport_scrambling_control pkt * 64
            + adaption_field_control pkt * 16
            + continuity_counter pkt)
unfolding transport_scrambling_control
header_fields pkt h = omega (
  arith,
  h.byte_1,
  h.byte_2,
  h.byte_3,
  pid_lem pkt h.byte_2,
  tei_set_lem pkt,
  payload_unit_start_indicator_lem pkt,
  transport_priority_lem pkt,
  adaption_field_control_lem pkt,
  continuity_counter_lem pkt,
)

-- `has_adaption` tests the upper bit of the adaption field control.
pub has_adaption_lem :
    (pkt : Pointer) → has_adaption pkt ≡ (if pkt 3 / 32 % 2 == 0 then false else true)
unfolding has_adaption
has_adaption_lem pkt = ground (arith, bit_and_mask 2 (pkt 3 / 16))

-- A null packet has the sync byte and the pid of padding, carries payload only, and is written in
-- 188 bytes, those behind the header being 0xff.
pub generate_null_packet_lem :
    (pkt : Pointer)
    → let q = generate_null_packet pkt in
      (sync_present q ≡ true)
      × (pid q ≡ 0x1fff)
      × (adaption_field_control q ≡ 1)
      × ((i : ℕ) → q (4 + i) ≡ (if ltb (4 + i) 188 then 0xff else pkt (4 + i)))
unfolding generate_null_packet sync_present pid adaption_field_control
generate_null_packet_lem pkt = (refl, refl, refl, λ i. ground arith)
