-- ===== src/Packetizer/Plain.antt =====
-- What `ltntstools_ts_packetizer` makes of a buffer.
use native.Mathlib.Decide.{dec_lt}
use libltntstools.Base.{
  ℕ, zero, suc, ◌+◌, ◌-◌, ◌*◌, ◌/◌, ◌%◌, ◌^◌, ◌≤◌, ◌<◌, ◌≡◌, refl, sym, ap, ap₂, ◌∙◌, ltb, ◌==◌,
  if◌then◌else◌, u8, Bool, true, false, some, List, [], ◌∷◌, ◌++◌, length, append_assoc, arith, inl,
  inr, ◌⊎◌, ◌≢◌, append-nil, subst,
}
use libltntstools.Base.Table.{table, table_ext, table-append}
use libltntstools.Base.Bits.{bit_and_mask, bit_or_sum}
use libltntstools.Packet.{
  Pointer, sync_present, payload_unit_start_indicator, pid, continuity_counter,
}
use libltntstools.Packet.Fields.{
  pid_lem, continuity_counter_lem, payload_unit_start_indicator_lem, has_adaption_lem,
}
use libltntstools.Packetizer.{
  Packets, cons_packet, plain_packet, plain_loop, ts_packetizer, in_array, plain_room,
}
use libltntstools.Packetizer.Payload.{
  payload_start, payload, payloads, IsRun, with_start, in_array-inside,
}

module _ (buf : Pointer) (pid_nr cc offset rem cnt : ℕ) (narrow : pid_nr < 8192)
    (fits : rem ≤ 184) where
  abbrev packet : Pointer
  packet = plain_packet buf pid_nr cc offset rem cnt

  packet_header :
      (packet 0 ≡ 0x47)
      × (packet 1 ≡ (if cnt == 0 then pid_nr / 256 + 64 else pid_nr / 256))
      × (packet 2 ≡ pid_nr % 256)
      × (packet 3 ≡ 16 + cc % 16)
  unfolding plain_packet
  packet_header = (
    ground arith,
    ground (arith, with_start (pid_nr / 256) (omega arith)),
    ground arith,
    ground (arith, bit_and_mask 4 cc, bit_or_sum 4 1 (cc % 16) (omega arith)),
  )

  packet_body : (i : ℕ) → i < 184 → packet (4 + i) ≡ (if ltb i rem then buf (offset + i) else 0xff)
  unfolding plain_packet
  packet_body i h = ground (arith, ap buf {x = offset + (4 + i - 4)} {y = offset + i} (omega arith))

  packet_fields :
      (sync_present packet ≡ true)
      × (pid packet ≡ pid_nr)
      × (continuity_counter packet ≡ cc % 16)
      × (payload_unit_start_indicator packet ≡ (if cnt == 0 then 1 else 0))
      × (payload_start packet ≡ 4)
  unfolding sync_present payload_start
  packet_fields =
      let h = packet_header in
      (
        ground (arith, h),
        ground (arith, h, pid_lem packet (omega (arith, h))),
        ground (arith, h, continuity_counter_lem packet),
        ground (arith, h, payload_unit_start_indicator_lem packet),
        ground (arith, h, has_adaption_lem packet),
      )

  -- The payload, and the stuffing behind it where the buffer ends.
  packet_payload :
      payload packet ≡ table rem (λ i. buf (offset + i)) ++ table (184 - rem) (λ i. 0xff)
  unfolding payload
  packet_payload =
      ap (λ s. table (188 - s) (λ i. packet (s + i))) packet_fields.4
      ∙ ap (λ k. table k (λ i. packet (4 + i))) {x = 184} {y = rem + (184 - rem)} (omega arith)
      ∙ table-append rem (184 - rem) (λ i. packet (4 + i))
      ∙ ap₂ ◌++◌
          (table_ext rem (λ i. packet (4 + i)) (λ i. buf (offset + i))
            (λ i h. packet_body i (omega arith) ∙ ground arith))
          (table_ext (184 - rem) (λ i. packet (4 + (rem + i))) (λ i. 0xff)
            (λ i h. packet_body (rem + i) (omega arith) ∙ ground arith))

-- What the loop returns, from the byte `offset` on.
pub record IsPacked (buf : Pointer) (byte_count pid_nr cc offset : ℕ) (first : Bool) (pad : ℕ)
    (out : Packets) : Type 0 where
  pub run : IsRun pid_nr (cc % 16) first out.packets
  pub joined :
      payloads out.packets
      ≡ table (byte_count - offset) (λ i. buf (offset + i)) ++ table pad (λ i. 0xff)
  pub short : pad < 184
  pub sized : byte_count - offset + pad ≡ 184 * length out.packets
  pub counter : out.cc ≡ (cc + length out.packets) % 256

module _ (buf : Pointer) (byte_count offset rem pad : ℕ) where
  abbrev data_at : ℕ → ℕ → List ℕ
  data_at o n = table n (λ i. buf (o + i))

  abbrev stuffing : ℕ → List ℕ
  stuffing n = table n (λ i. 0xff)

  join_data : (m : ℕ) → data_at offset rem ++ data_at (offset + rem) m ≡ data_at offset (rem + m)
  join_data m =
      ap (λ r. data_at offset rem ++ r)
        (table_ext m (λ i. buf (offset + rem + i)) (λ i. buf (offset + (rem + i)))
          (λ i h. ap buf {x = offset + rem + i} {y = offset + (rem + i)} (omega arith)))
      ∙ sym (table-append rem m (λ i. buf (offset + i)))

  -- Either the packet is full, or it is the last.
  joined_packets :
      rem ≤ byte_count - offset
      → (rem ≡ 184) ⊎ (rem ≡ byte_count - offset)
      → pad + (184 - rem) < 184
      → (rem ≢ 184 → pad ≡ 0)
      → (data_at offset rem ++ stuffing (184 - rem))
          ++ (data_at (offset + rem) (byte_count - (offset + rem)) ++ stuffing pad)
        ≡ data_at offset (byte_count - offset) ++ stuffing (pad + (184 - rem))
  joined_packets within (inl full) small last =
      ap
        (λ k.
          (data_at offset rem ++ stuffing k)
          ++ (data_at (offset + rem) (byte_count - (offset + rem)) ++ stuffing pad))
        {x = 184 - rem} {y = 0} (omega arith)
      ∙ ap (λ r. r ++ (data_at (offset + rem) (byte_count - (offset + rem)) ++ stuffing pad))
          (append-nil (data_at offset rem))
      ∙ sym (
          append_assoc (data_at offset rem) (data_at (offset + rem) (byte_count - (offset + rem)))
            (stuffing pad))
      ∙ ap (λ r. r ++ stuffing pad) (join_data (byte_count - (offset + rem)))
      ∙ ap₂ (λ k j. data_at offset k ++ stuffing j) (omega arith) (omega arith)
  joined_packets within (inr ends) small last =
      ap
        (λ k.
          (data_at offset rem ++ stuffing (184 - rem))
          ++ (data_at (offset + rem) k ++ stuffing pad))
        {x = byte_count - (offset + rem)} {y = 0} (omega arith)
      ∙ append_assoc (data_at offset rem) (stuffing (184 - rem)) (stuffing pad)
      ∙ ap (λ r. data_at offset rem ++ r) (sym (table-append (184 - rem) pad (λ i. 0xff)))
      ∙ ap₂ (λ k j. data_at offset k ++ stuffing j) (omega arith) (omega arith)

plain_step :
    (buf : Pointer) (byte_count pid_nr cc offset rem cnt pad : ℕ) (out : Packets)
    → pid_nr < 8192
    → offset < byte_count
    → rem ≡ (if ltb 184 (byte_count - offset) then 184 else byte_count - offset)
    → IsPacked buf byte_count pid_nr (u8 (cc + 1)) (offset + rem) false pad out
    → IsPacked buf byte_count pid_nr cc offset
        (cnt == 0)
        (pad + (184 - rem))
        (record { packets = plain_packet buf pid_nr cc offset rem cnt ∷ out.packets; cc = out.cc })
unfolding payloads
plain_step buf byte_count pid_nr cc offset rem cnt pad out narrow more e k =
    let f = packet_fields buf pid_nr cc offset rem cnt narrow small in
    record {
      run = (
        f.0,
        f.1,
        f.2 ∙ omega arith,
        f.3,
        subst (λ c. IsRun pid_nr c false out.packets) {x = (cc + 1) % 256 % 16}
            {y = (cc % 16 + 1) % 16} (omega arith) k.run,
      );
      joined =
          ap₂ ◌++◌ (packet_payload buf pid_nr cc offset rem cnt narrow small) k.joined
          ∙ joined_packets buf byte_count offset rem pad within full_or_last fewer last;
      short = fewer;
      sized = omega (arith, k.sized, within, full_or_last, last, k.short, small);
      counter = omega (arith, k.counter);
    }
  where
    within : rem ≤ byte_count - offset
    within = ground arith

    small : rem ≤ 184
    small = ground arith

    full_or_last : (rem ≡ 184) ⊎ (rem ≡ byte_count - offset)
    full_or_last = elim (dec_lt 184 (byte_count - offset)) [
      | yes p ↦ inl (ground arith)
      | no p ↦ inr (ground arith)
    ]

    last : rem ≢ 184 → pad ≡ 0
    last h = omega (arith, full_or_last, k.sized, k.short)

    fewer : pad + (184 - rem) < 184
    fewer = elim (dec_lt rem 184) [
      | yes p ↦ (let z = last (λ q. omega (arith, q, p)) in omega (arith, z, full_or_last, more))
      | no p ↦ omega (arith, k.short, small, p)
    ]

module _ (fuel : ℕ) (buf : Pointer) (byte_count pid_nr cnt_cc offset cnt : ℕ) where
  plain_loop_ends :
      byte_count - offset ≡ 0
      → plain_loop (suc fuel) buf byte_count pid_nr cnt_cc offset cnt
        ≡ some (record { packets = []; cc = cnt_cc })
  unfolding plain_loop
  plain_loop_ends e = ground (arith, e)

  abbrev left : ℕ
  left = if ltb 184 (byte_count - offset) then 184 else byte_count - offset

  plain_loop_more :
      (out : Packets)
      → offset < byte_count
      → plain_loop fuel buf byte_count pid_nr (u8 (cnt_cc + 1)) (offset + left) (cnt + 1) ≡ some out
      → plain_loop (suc fuel) buf byte_count pid_nr cnt_cc offset cnt
        ≡ some (record {
          packets = plain_packet buf pid_nr cnt_cc offset left cnt ∷ out.packets;
          cc = out.cc;
        })
  unfolding plain_loop cons_packet
  plain_loop_more out more e = ground (arith, more, e)

plain_loop-packs :
    (fuel : ℕ) (buf : Pointer) (byte_count pid_nr cnt_cc offset cnt : ℕ)
    → pid_nr < 8192
    → cnt_cc < 256
    → byte_count - offset < fuel
    → (out : Packets) × (pad : ℕ) × (plain_loop fuel buf byte_count pid_nr cnt_cc offset cnt
        ≡ some out)
      × IsPacked buf byte_count pid_nr cnt_cc offset (cnt == 0) pad out
unfolding payloads
plain_loop-packs zero buf byte_count pid_nr cnt_cc offset cnt narrow byte h =
    absurd (omega (arith, h))
plain_loop-packs (suc fuel) buf byte_count pid_nr cnt_cc offset cnt narrow byte h =
    elim (dec_lt offset byte_count) [
      | yes more ↦
          (let rem = if ltb 184 (byte_count - offset) then 184 else byte_count - offset in
            let (out, pad, e, k) =
              plain_loop-packs fuel buf byte_count pid_nr (u8 (cnt_cc + 1)) (offset + rem) (cnt + 1)
                narrow (omega arith) (ground (arith, h, more)) in
            (
              record {
                packets = plain_packet buf pid_nr cnt_cc offset rem cnt ∷ out.packets;
                cc = out.cc;
              },
              pad + (184 - rem),
              plain_loop_more fuel buf byte_count pid_nr cnt_cc offset cnt out more e,
              plain_step buf byte_count pid_nr cnt_cc offset rem cnt pad out narrow more refl (
                  subst
                    (λ b. IsPacked buf byte_count pid_nr (u8 (cnt_cc + 1)) (offset + rem) b pad out)
                    {x = cnt + 1 == 0} {y = false} (ground arith) k),
            ))
      | no ended ↦ (
        record { packets = []; cc = cnt_cc },
        0,
        plain_loop_ends fuel buf byte_count pid_nr cnt_cc offset cnt (omega (arith, ended)),
        record {
          run = tt;
          joined =
              ap (λ k. table k (λ i. buf (offset + i)) ++ []) {x = 0} {y = byte_count - offset}
                (omega (arith, ended));
          short = omega arith;
          sized = omega (arith, ended);
          counter = omega (arith, byte);
        },
      )
    ]

ts_packetizer-starts :
    (buf : Pointer) (byte_count cnt_cc pid_nr : ℕ)
    → 0 < byte_count
    → pid_nr < 8192
    → ts_packetizer buf byte_count 188 cnt_cc pid_nr
      ≡ in_array
          (plain_room byte_count)
          (2 ^ 31)
          (plain_loop (byte_count + 1) buf byte_count pid_nr cnt_cc 0 0)
unfolding ts_packetizer
ts_packetizer-starts buf byte_count cnt_cc pid_nr more narrow = ground (arith, more, narrow)

plain_room_lem :
    (byte_count : ℕ)
    → (byte_count / 184 + 1) * 188 < 2 ^ 31
    → plain_room byte_count ≡ (byte_count / 184 + 1) * 188
unfolding plain_room
plain_room_lem byte_count h = ground (arith, h)

-- For 0 < byte_count with an array, of 188 * (byte_count / 184 + 1) elements, below 2^31, a pid of 13
-- bits, packets of 188 bytes and a counter of 8 bits, `ltntstools_ts_packetizer` succeeds, with every
-- packet inside the array: the packets are a run of that pid from the counter on, their payloads
-- joined are the buffer followed by fewer than 184 stuffing bytes, and the counter handed back is as
-- many steps further as there are packets.
pub ts_packetizer_lem :
    (buf : Pointer) (byte_count cnt_cc pid_nr : ℕ)
    → 0 < byte_count
    → (byte_count / 184 + 1) * 188 < 2 ^ 31
    → pid_nr < 8192
    → cnt_cc < 256
    → (out : Packets) × (pad : ℕ) × (ts_packetizer buf byte_count 188 cnt_cc pid_nr ≡ some out)
      × IsPacked buf byte_count pid_nr cnt_cc 0 true pad out
ts_packetizer_lem buf byte_count cnt_cc pid_nr more fits narrow byte =
    let (out, pad, e, k) =
      plain_loop-packs (byte_count + 1) buf byte_count pid_nr cnt_cc 0 0 narrow byte
        (omega arith) in
    (
      out,
      pad,
      ts_packetizer-starts buf byte_count cnt_cc pid_nr more narrow
          ∙ ap (in_array (plain_room byte_count) (2 ^ 31)) e
          ∙ in_array-inside (plain_room byte_count) (2 ^ 31) out
              (omega (arith, k.sized, k.short, plain_room_lem byte_count fits))
              (omega (arith, k.sized, k.short, fits)),
      k,
    )
