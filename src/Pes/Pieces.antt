-- ===== src/Pes/Pieces.antt =====
-- The start, the flags and the payload of a packet, read from a stream that holds them.
use libltntstools.Base.{
  ℕ, ◌+◌, ◌-◌, ◌*◌, ◌%◌, ◌^◌, ◌≤◌, ◌<◌, ◌≡◌, refl, subst, ap, ap₂, ◌∙◌, arith, ltb, leb, ◌==◌, ◌&&◌,
  true, false, none, some, List, [], ◌∷◌, ◌++◌, length, map,
}
use libltntstools.Base.Byte.{IsBytes}
use libltntstools.Base.Prefix.{Reads, Reads-byte}
use libltntstools.Packet.{bytes_at}
use libltntstools.BitStream.Fields.{Field, Holds, total}
use libltntstools.Pes.{PesPacket}
use libltntstools.Pes.Pack.{field, start_part, flags_part}
use libltntstools.Pes.Parse.{
  State, goes_on, reads, byte_count_free, count_bits, start_step, flags_step, take_payload,
  remaining_length, payload_step,
}
use libltntstools.Pes.Clock.{IsReading, reads_first}
use libltntstools.Pes.Header.{IsPast}

-- The flags of a packet, each cut to its width, put into another packet.
abbrev pub with_flags : PesPacket → PesPacket → PesPacket
with_flags pkt q = record q {
  pes_scrambling_control = pkt.pes_scrambling_control % 2 ^ 2;
  pes_priority = pkt.pes_priority % 2 ^ 1;
  data_alignment_indicator = pkt.data_alignment_indicator % 2 ^ 1;
  copyright = pkt.copyright % 2 ^ 1;
  original_or_copy = pkt.original_or_copy % 2 ^ 1;
  pts_dts_flags = pkt.pts_dts_flags % 2 ^ 2;
  escr_flag = pkt.escr_flag % 2 ^ 1;
  es_rate_flag = pkt.es_rate_flag % 2 ^ 1;
  dsm_trick_mode_flag = pkt.dsm_trick_mode_flag % 2 ^ 1;
  additional_copy_info_flag = pkt.additional_copy_info_flag % 2 ^ 1;
  pes_crc_flag = pkt.pes_crc_flag % 2 ^ 1;
  pes_extension_flag = pkt.pes_extension_flag % 2 ^ 1;
  pes_header_data_length = pkt.pes_header_data_length % 2 ^ 8;
}

abbrev flag_calls : PesPacket → List Field
flag_calls pkt =
    field 2 2
    ∷ field pkt.pes_scrambling_control 2
    ∷ field pkt.pes_priority 1
    ∷ field pkt.data_alignment_indicator 1
    ∷ field pkt.copyright 1
    ∷ field pkt.original_or_copy 1
    ∷ field pkt.pts_dts_flags 2
    ∷ field pkt.escr_flag 1
    ∷ field pkt.es_rate_flag 1
    ∷ field pkt.dsm_trick_mode_flag 1
    ∷ field pkt.additional_copy_info_flag 1
    ∷ field pkt.pes_crc_flag 1
    ∷ field pkt.pes_extension_flag 1
    ∷ []

pub flags_step-lem :
    (pkt : PesPacket) (s : State) (p : ℕ) (gs : List Field)
    → IsReading s.bs p ((flags_part pkt).calls ++ gs)
    → (t : State) × (flags_step s ≡ some (goes_on t))
      × IsPast s t (p + 24) gs
      × (t.pkt ≡ with_flags pkt s.pkt)
      × (t.bits ≡ s.bits + 72)
flags_step-lem pkt s p gs k =
    let last = field pkt.pes_header_data_length 8 ∷ [] in
    let (c, e, k₁, s₁) = reads_first s.bs p (flag_calls pkt) (last ++ gs) k in
    let (d, e₂, k₂, s₂) = reads_first c (p + 16) last gs k₁ in
    let more : ltb (c.buflen - c.buflen_used) 1 ≡ false =
      ground (arith, k₁.room, k₁.at.place, k₁.at.part) in
    (
      count_bits 72 (record s { pkt = with_flags pkt s.pkt; bs = d }),
      rw (flags_step, reads, e, more, e₂) refl,
      record {
        reading =
            subst (λ q. IsReading d q gs) {x = p + 16 + (8 + 0)} {y = p + 24} (omega arith) k₂;
        buffer = record { bytes = s₂.bytes ∙ s₁.bytes; sized = s₂.sized ∙ s₁.sized };
        unmarked = refl;
      },
      refl,
      refl,
    )

pub start_step-lem :
    (pkt : PesPacket) (s : State) (gs : List Field)
    → IsReading s.bs 0 ((start_part pkt).calls ++ gs)
    → pkt.packet_start_code_prefix < 2 ^ 24
    → pkt.stream_id < 2 ^ 8
    → pkt.pes_packet_length < 2 ^ 16
    → 6 + pkt.pes_packet_length ≤ s.bs.buflen
    → (t : State) × (start_step s ≡ some (goes_on t))
      × IsPast s t 48 gs
      × (t.pkt ≡ record (s.pkt) {
        packet_start_code_prefix = pkt.packet_start_code_prefix;
        stream_id = pkt.stream_id;
        pes_packet_length = pkt.pes_packet_length;
      })
      × (t.bits ≡ s.bits)
start_step-lem pkt s gs k h₁ h₂ h₃ fits =
    let (c, e, k₁, s₁) = reads_first s.bs 0 (start_part pkt).calls gs k in
    let e₁ : pkt.packet_start_code_prefix % 2 ^ 24 ≡ pkt.packet_start_code_prefix =
      omega (arith, h₁) in
    let e₂ : pkt.stream_id % 2 ^ 8 ≡ pkt.stream_id = omega (arith, h₂) in
    let e₃ : pkt.pes_packet_length % 2 ^ 16 ≡ pkt.pes_packet_length = omega (arith, h₃) in
    let enough : ltb (c.buflen - c.buflen_used) pkt.pes_packet_length ≡ false =
      ground (arith, fits, s₁.sized, k₁.at.place, k₁.at.part) in
    (
      record s {
        pkt = record (s.pkt) {
          packet_start_code_prefix = pkt.packet_start_code_prefix;
          stream_id = pkt.stream_id;
          pes_packet_length = pkt.pes_packet_length;
        };
        bs = c;
      },
      rw (start_step, reads, e, e₁, e₂, e₃, enough) refl,
      record { reading = k₁; buffer = s₁; unmarked = refl },
      refl,
      refl,
    )

-- Whole bytes that the stream holds are the bytes of its buffer.
pub bytes_at-Holds :
    (buf : ℕ → ℕ) (q : ℕ) (xs : List ℕ)
    → ((i : ℕ) → buf i < 256)
    → IsBytes xs
    → Holds buf (q * 8) (map (λ x. field x 8) xs)
    → bytes_at buf q (length xs) ≡ xs
unfolding Reads
bytes_at-Holds buf q [] byte small holds = refl
bytes_at-Holds buf q (x ∷ xs) byte (h, small) (here, more) =
    ap₂ (λ a r. a ∷ r)
      (omega (arith, h, here.0, (Reads-byte buf (q * 8) q refl (byte q) (byte (q + 1))).0))
      (bytes_at-Holds buf (q + 1) xs byte small (
        subst (λ p. Holds buf p (map (λ y. field y 8) xs)) {x = q * 8 + 8} {y = (q + 1) * 8}
          (omega arith) more))

pub total-bytes : (xs : List ℕ) → total (map (λ x. field x 8) xs) ≡ 8 * length xs
total-bytes [] = omega arith
total-bytes (x ∷ xs) = omega (arith, total-bytes xs)

pub take_payload-lem :
    (s : State) (q : ℕ) (xs : List ℕ)
    → IsBytes xs
    → IsReading s.bs (q * 8) (map (λ x. field x 8) xs)
    → (t : State) × (take_payload s (length xs) ≡ some (goes_on t))
      × (t.pkt ≡ record (s.pkt) { payload = some xs })
      × (t.bits ≡ s.bits + 8 * length xs)
      × (t.truncated ≡ s.truncated)
take_payload-lem s q xs small k =
    let len = total-bytes xs in
    let none_held : s.bs.reg_used ≡ 0 = omega (arith, k.at.place, k.at.part) in
    let used : s.bs.buflen_used ≡ q = omega (arith, k.at.place, k.at.part) in
    let copied : ((s.bs.reg_used == 0) && leb (length xs) (byte_count_free s)) ≡ true =
      ground (arith, none_held, used, k.room, len) in
    let same : bytes_at s.bs.buf s.bs.buflen_used (length xs) ≡ xs =
      ap (λ m. bytes_at s.bs.buf m (length xs)) used
      ∙ bytes_at-Holds s.bs.buf q xs k.bytes small k.holds in
    (
      count_bits (8 * length xs) (record s {
        pkt = record (s.pkt) { payload = some (bytes_at s.bs.buf s.bs.buflen_used (length xs)) };
        bs = record (s.bs) { buflen_used = s.bs.buflen_used + length xs };
      }),
      rw (take_payload, copied) refl,
      ap (λ ys. record (s.pkt) { payload = some ys }) same,
      refl,
      refl,
    )

pub payload_step-lem :
    (s : State) (q : ℕ) (xs : List ℕ)
    → remaining_length (record s { pkt = record (s.pkt) { data_length_bytes = 0; payload = none } })
      ≡ length xs
    → IsBytes xs
    → IsReading s.bs (q * 8) (map (λ x. field x 8) xs)
    → (t : State) × (payload_step s 0 ≡ some (goes_on t))
      × (t.pkt ≡ record (s.pkt) { data_length_bytes = length xs; payload = some xs })
      × (t.bits ≡ s.bits + 8 * length xs)
      × (t.truncated ≡ s.truncated)
payload_step-lem s q xs n small k =
    let room : ltb (s.bs.buflen - s.bs.buflen_used) (length xs) ≡ false =
      ground (arith, k.room, k.at.place, k.at.part, total-bytes xs) in
    let (t, ran, made, bits, mark) =
      take_payload-lem
        (record s { pkt = record (s.pkt) { data_length_bytes = length xs; payload = none } }) q xs
        small k in
    (t, rw (payload_step, n, room) ran, made, bits, mark)
