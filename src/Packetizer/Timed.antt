-- ===== src/Packetizer/Timed.antt =====
-- What `ltntstools_ts_packetizer_with_pcr` makes of a buffer: its payloads are the buffer itself.
use native.Mathlib.Decide.{dec_lt}
use libltntstools.Base.{
  ℕ, zero, suc, ◌*◌, ◌^◌, ◌+◌, ◌-◌, ◌/◌, ◌%◌, ◌≤◌, ◌<◌, ◌≡◌, sym, ap, ap₂, ◌∙◌, ◌==◌, if◌then◌else◌,
  bit_and, Bool, true, false, Option, some, [], ◌∷◌, ◌++◌, length, arith, subst,
}
use libltntstools.Base.Table.{table, table_ext, table-append}
use libltntstools.Base.Bits.{bit_and_mask}
use libltntstools.Packet.{Pointer, sync_present, adaption_field_length}
use libltntstools.Packet.Fields.{
  pid_lem, continuity_counter_lem, payload_unit_start_indicator_lem, has_adaption_lem,
}
use libltntstools.Packetizer.{
  copy_at, Packets, cons_packet, Shaped, timed_header, timed_shape, timed_loop,
  ts_packetizer_with_pcr, in_array, timed_room,
}
use libltntstools.Packetizer.Payload.{payload_start, payload, payloads, IsRun, in_array-inside}
use libltntstools.Packetizer.Shape.{IsShaped, timed_header_bytes, timed_shape-IsShaped}

module _ (q buf : Pointer) (o pos n : ℕ) where
  -- A copy to where the payload starts leaves its start.
  payload_start-copy_at : payload_start q ≡ o → payload_start (copy_at q o buf pos n) ≡ o
  unfolding payload_start adaption_field_length
  payload_start-copy_at e =
      ground (arith, e, has_adaption_lem q, has_adaption_lem (copy_at q o buf pos n))

  payload-copy_at :
      payload_start q ≡ o
      → o + n ≡ 188
      → payload (copy_at q o buf pos n) ≡ table n (λ i. buf (pos + i))
  unfolding payload
  payload-copy_at e f =
      ap (λ s. table (188 - s) (λ i. copy_at q o buf pos n (s + i))) (payload_start-copy_at e)
      ∙ ap (λ k. table k (λ i. copy_at q o buf pos n (o + i))) {x = 188 - o} {y = n} (omega arith)
      ∙ table_ext n (λ i. copy_at q o buf pos n (o + i)) (λ i. buf (pos + i))
          (λ i h. ground (arith, h, f, ap buf {x = pos + (o + i - o)} {y = pos + i} (omega arith)))

  copy_at-below : (i : ℕ) → i < o → copy_at q o buf pos n i ≡ q i
  copy_at-below i h = ground (arith, h)

-- What the loop returns, from the byte `pos` on.
pub record IsTimed (buf : Pointer) (byte_count pid_nr cnt_cc pos : ℕ) (first : Bool) (out : Packets)
    : Type 0 where
  pub run : IsRun pid_nr (cnt_cc % 16) first out.packets
  pub joined : payloads out.packets ≡ table (byte_count - pos) (λ i. buf (pos + i))
  pub counter : out.cc % 16 ≡ (cnt_cc + length out.packets) % 16
  pub sized : length out.packets * 176 ≤ byte_count - pos + 175

module _ (buf : Pointer) (byte_count pid_nr cnt_cc pos cnt : ℕ) (s : Shaped) (out : Packets)
    (narrow : pid_nr < 8192) (more : pos < byte_count)
    (shaped : IsShaped (timed_header pid_nr cnt_cc (cnt == 0)) (byte_count - pos) s) where
  abbrev filled : Pointer
  filled = copy_at s.packet s.payload_offset buf pos s.cpy

  filled_start : 4 ≤ s.payload_offset
  unfolding payload_start
  filled_start = ground (arith, shaped.started)

  filled_bytes :
      (filled 0 ≡ 0x47)
      × (filled 1 ≡ (if cnt == 0 then pid_nr / 256 + 64 else pid_nr / 256))
      × (filled 2 ≡ pid_nr % 256)
      × (filled 3 % 16 ≡ cnt_cc % 16)
  filled_bytes =
      let below = copy_at-below s.packet buf s.payload_offset pos s.cpy in
      let header = timed_header_bytes pid_nr cnt_cc (cnt == 0) narrow in
      let at = filled_start in
      (
        below 0 (omega (arith, at)) ∙ shaped.headed 0 (omega arith) ∙ header.0,
        below 1 (omega (arith, at)) ∙ shaped.headed 1 (omega arith) ∙ header.1,
        below 2 (omega (arith, at)) ∙ shaped.headed 2 (omega arith) ∙ header.2,
        ap (λ b. b % 16) (below 3 (omega (arith, at))) ∙ shaped.counted ∙ header.3,
      )

  IsTimed-step :
      IsTimed buf byte_count pid_nr (bit_and (cnt_cc + 1) 0x0f) (pos + s.cpy) false out
      → IsTimed buf byte_count pid_nr cnt_cc pos
          (cnt == 0)
          (record { packets = filled ∷ out.packets; cc = out.cc })
  unfolding payloads sync_present
  IsTimed-step k =
      let b = filled_bytes in
      let next = bit_and_mask 4 (cnt_cc + 1) in
      record {
        run = (
          ground (arith, b),
          ground (arith, b, pid_lem filled (omega (arith, b))),
          ground (arith, b, continuity_counter_lem filled),
          ground (arith, b, payload_unit_start_indicator_lem filled),
          subst (λ c. IsRun pid_nr c false out.packets) {x = bit_and (cnt_cc + 1) 0x0f % 16}
              {y = (cnt_cc % 16 + 1) % 16} (omega (arith, next)) k.run,
        );
        joined =
            ap₂ ◌++◌
              (payload-copy_at s.packet buf s.payload_offset pos s.cpy shaped.started shaped.full)
              (k.joined
                ∙ table_ext (byte_count - (pos + s.cpy)) (λ i. buf (pos + s.cpy + i))
                    (λ i. buf (pos + (s.cpy + i)))
                    (λ i h. ap buf {x = pos + s.cpy + i} {y = pos + (s.cpy + i)} (omega arith)))
            ∙ sym (table-append s.cpy (byte_count - (pos + s.cpy)) (λ i. buf (pos + i)))
            ∙ ap (λ m. table m (λ i. buf (pos + i))) {x = s.cpy + (byte_count - (pos + s.cpy))}
                {y = byte_count - pos} (omega (arith, shaped.within, more));
        counter = omega (arith, k.counter, next);
        sized = elim (dec_lt s.cpy 176) [
          | yes last ↦ omega (arith, k.sized, shaped.ample last)
          | no long ↦ omega (arith, k.sized, shaped.within, long)
        ];
      }

module _ (fuel : ℕ) (buf : Pointer) (byte_count pid_nr cnt_cc : ℕ) (pcr : Option ℕ)
    (rai priority : Bool) (pos cnt : ℕ) where
  timed_loop_ends :
      byte_count ≤ pos
      → timed_loop (suc fuel) buf byte_count pid_nr cnt_cc pcr rai priority pos cnt
        ≡ some (record { packets = []; cc = cnt_cc })
  unfolding timed_loop
  timed_loop_ends e = ground (arith, e)

  abbrev shape_at : Shaped
  shape_at = timed_shape pid_nr cnt_cc pcr rai priority (byte_count - pos) cnt

  pub timed_loop_more :
      (out : Packets)
      → pos < byte_count
      → timed_loop fuel buf byte_count pid_nr
          (bit_and (cnt_cc + 1) 0x0f)
          pcr
          rai
          priority
          (pos + shape_at.cpy)
          (cnt + 1)
        ≡ some out
      → timed_loop (suc fuel) buf byte_count pid_nr cnt_cc pcr rai priority pos cnt
        ≡ some (record {
          packets =
              copy_at shape_at.packet shape_at.payload_offset buf pos shape_at.cpy ∷ out.packets;
          cc = out.cc;
        })
  unfolding timed_loop cons_packet
  timed_loop_more out more e = ground (arith, more, e)

pub timed_loop-times :
    (fuel : ℕ) (buf : Pointer) (byte_count pid_nr cnt_cc : ℕ) (pcr : Option ℕ) (rai priority : Bool)
    (pos cnt : ℕ)
    → pid_nr < 8192
    → byte_count - pos < fuel
    → (out : Packets) × (timed_loop fuel buf byte_count pid_nr cnt_cc pcr rai priority pos cnt
        ≡ some out)
      × IsTimed buf byte_count pid_nr cnt_cc pos (cnt == 0) out
unfolding payloads
timed_loop-times zero buf byte_count pid_nr cnt_cc pcr rai priority pos cnt narrow h =
    absurd (omega (arith, h))
timed_loop-times (suc fuel) buf byte_count pid_nr cnt_cc pcr rai priority pos cnt narrow h =
    elim (dec_lt pos byte_count) [
      | yes more ↦
          (let s = timed_shape pid_nr cnt_cc pcr rai priority (byte_count - pos) cnt in
            let shaped =
              timed_shape-IsShaped pid_nr cnt_cc pcr rai priority (byte_count - pos) cnt narrow
                (omega (arith, more)) in
            let (out, e, k) =
              timed_loop-times fuel buf byte_count pid_nr (bit_and (cnt_cc + 1) 0x0f) pcr rai
                priority (pos + s.cpy) (cnt + 1) narrow
                (omega (arith, h, more, shaped.some_more)) in
            (
              record {
                packets = copy_at s.packet s.payload_offset buf pos s.cpy ∷ out.packets;
                cc = out.cc;
              },
              timed_loop_more fuel buf byte_count pid_nr cnt_cc pcr rai priority pos cnt out more e,
              IsTimed-step buf byte_count pid_nr cnt_cc pos cnt s out narrow more shaped (
                  subst
                    (λ b.
                      IsTimed buf byte_count pid_nr (bit_and (cnt_cc + 1) 0x0f) (pos + s.cpy) b out)
                    {x = cnt + 1 == 0} {y = false} (ground arith) k),
            ))
      | no ended ↦ (
        record { packets = []; cc = cnt_cc },
        timed_loop_ends fuel buf byte_count pid_nr cnt_cc pcr rai priority pos cnt
            (omega (arith, ended)),
        record {
          run = tt;
          joined =
              ap (λ k. table k (λ i. buf (pos + i))) {x = 0} {y = byte_count - pos}
                (omega (arith, ended));
          counter = omega arith;
          sized = omega arith;
        },
      )
    ]

pub timed_starts :
    (buf : Pointer) (byte_count pid_nr cnt_cc : ℕ) (pcr : Option ℕ) (rai priority : Bool)
    → 0 < byte_count
    → pid_nr < 8192
    → ts_packetizer_with_pcr buf byte_count 188 cnt_cc pid_nr pcr rai priority
      ≡ in_array
          (timed_room byte_count)
          (2 ^ 32)
          (timed_loop (suc byte_count) buf byte_count pid_nr cnt_cc pcr rai priority 0 0)
unfolding ts_packetizer_with_pcr
timed_starts buf byte_count pid_nr cnt_cc pcr rai priority more narrow = ground (
  arith,
  more,
  narrow,
  ap (λ n. timed_loop n buf byte_count pid_nr cnt_cc pcr rai priority 0 0) {x = byte_count + 1}
      {y = suc byte_count} (omega arith),
)

pub timed_room_lem :
    (byte_count : ℕ)
    → ((byte_count + 175) / 176 + 2) * 188 < 2 ^ 32
    → timed_room byte_count ≡ (byte_count + 175) / 176 + 2
unfolding timed_room
timed_room_lem byte_count h = omega (arith, h)

-- For 0 < byte_count with an array, of (byte_count + 175) / 176 + 2 packets, below 2^32 bytes, a pid of
-- 13 bits and packets of 188 bytes, `ltntstools_ts_packetizer_with_pcr` succeeds, with every packet
-- inside the array, whatever the flags, without a clock or with one that is not negative: the packets
-- are a run of that pid from the counter on, their payloads joined are the buffer with nothing added,
-- there are at most as many packets as begun runs of 176 bytes, and the counter handed back is, modulo 16, as many
-- steps further as there are packets.
pub ts_packetizer_with_pcr_lem :
    (buf : Pointer) (byte_count cnt_cc pid_nr : ℕ) (pcr : Option ℕ) (rai priority : Bool)
    → 0 < byte_count
    → ((byte_count + 175) / 176 + 2) * 188 < 2 ^ 32
    → pid_nr < 8192
    → (out : Packets) × (ts_packetizer_with_pcr buf byte_count 188 cnt_cc pid_nr pcr rai priority
        ≡ some out)
      × IsTimed buf byte_count pid_nr cnt_cc 0 true out
ts_packetizer_with_pcr_lem buf byte_count cnt_cc pid_nr pcr rai priority more fits narrow =
    let (out, e, k) =
      timed_loop-times (suc byte_count) buf byte_count pid_nr cnt_cc pcr rai priority 0 0 narrow
        (omega arith) in
    (
      out,
      timed_starts buf byte_count pid_nr cnt_cc pcr rai priority more narrow
          ∙ ap (in_array (timed_room byte_count) (2 ^ 32)) e
          ∙ in_array-inside (timed_room byte_count) (2 ^ 32) out
              (omega (arith, k.sized, timed_room_lem byte_count fits))
              (omega (arith, k.sized, fits)),
      k,
    )
