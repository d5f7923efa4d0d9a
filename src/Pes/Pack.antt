-- ===== src/Pes/Pack.antt =====
-- `ltn_pes_packet_pack` of src/pes.c.
use libltntstools.Base.{
  ℕ, ◌+◌, ◌-◌, ◌*◌, ◌/◌, ◌^◌, leb, ◌==◌, if◌then◌else◌, u64, Option, none, some, List, [], ◌∷◌,
  ◌++◌, length, take, replicate, map,
}
use libltntstools.Base.Int.{ℤ, pos, negsuc}
use libltntstools.BitStream.{Context}
use libltntstools.BitStream.Fields.{Field, write_fields}
use libltntstools.Pes.{PesPacket, has_header, is_data_only}

-- The calls of `klbs_write_bits` that a piece of the code makes, and the count that it adds to `bits`.
pub record Part : Type 0 where
  pub calls : List Field
  pub counted : ℕ

abbrev pub field : ℕ → ℕ → Field
field v n = record { bits = v; width = n }

infixr 60 ◌⨟◌
abbrev pub ◌⨟◌ : Part → Part → Part
a ⨟ b = record { calls = a.calls ++ b.calls; counted = a.counted + b.counted }

abbrev pub no_part : Part
no_part = record { calls = []; counted = 0 }

abbrev pub if_set : ℕ → Part → Part
if_set flag part = if flag == 0 then no_part else part

-- An int64_t as the argument of `klbs_write_bits`.
abbrev pub int64_bits : ℤ → ℕ
int64_bits (pos n) = u64 n
int64_bits (negsuc n) = 2 ^ 64 - 1 - u64 n

-- `write33bit_ts`
abbrev pub write33bit_ts : ℤ → List Field
write33bit_ts v =
    field (int64_bits v / 2 ^ 30) 3
    ∷ field 1 1
    ∷ field (int64_bits v / 2 ^ 15) 15
    ∷ field 1 1
    ∷ field (int64_bits v) 15
    ∷ field 1 1
    ∷ []

abbrev pub start_part : PesPacket → Part
start_part pkt = record {
  calls =
      field pkt.packet_start_code_prefix 24
      ∷ field pkt.stream_id 8
      ∷ field pkt.pes_packet_length 16
      ∷ [];
  counted = 0;
}

abbrev pub flags_part : PesPacket → Part
flags_part pkt = record {
  calls =
      field 2 2
      ∷ field pkt.pes_scrambling_control 2
      ∷ field pkt.pes_priority 1
      ∷ field pkt.data_alignment_indicator 1
      ∷ field pkt.copyright 1
      ∷ field pkt.original_or_copy 1
      ∷ field pkt.pts_dts_flags 2
      ∷ field pkt.escr_flag 1
      ∷ field pkt.es_rate_flag 1
      ∷ field pkt.dsm_trick_mode_flag 1
      ∷ field pkt.additional_copy_info_flag 1
      ∷ field pkt.pes_crc_flag 1
      ∷ field pkt.pes_extension_flag 1
      ∷ field pkt.pes_header_data_length 8
      ∷ [];
  counted = 72;
}

abbrev pub pts_part : PesPacket → Part
pts_part pkt =
    if pkt.pts_dts_flags == 2
    then record { calls = field 2 4 ∷ write33bit_ts pkt.pts; counted = 40 }
    else if pkt.pts_dts_flags == 3
    then record {
      calls = field 3 4 ∷ write33bit_ts pkt.pts ++ field 1 4 ∷ write33bit_ts pkt.dts;
      counted = 80;
    }
    else no_part

-- The fields behind the clocks, up to the extension.
abbrev pub optional_part : PesPacket → Part
optional_part pkt =
    if_set pkt.escr_flag (record { calls = field 0 40 ∷ []; counted = 48 })
    ⨟ if_set pkt.es_rate_flag
        (record { calls = field 1 1 ∷ field pkt.es_rate_flag 22 ∷ field 1 1 ∷ []; counted = 24 })
    ⨟ if_set pkt.dsm_trick_mode_flag (record { calls = field 0 8 ∷ []; counted = 8 })
    ⨟ if_set pkt.additional_copy_info_flag
        (record { calls = field 1 1 ∷ field pkt.additional_copy_info 7 ∷ []; counted = 8 })
    ⨟ if_set pkt.pes_crc_flag (record { calls = field 0 16 ∷ []; counted = 16 })

abbrev pub extension_part : PesPacket → Part
extension_part pkt =
    record {
      calls =
          field pkt.pes_private_data_flag 1
          ∷ field pkt.pack_header_field_flag 1
          ∷ field pkt.program_packet_sequence_counter_flag 1
          ∷ field pkt.pstd_buffer_flag 1
          ∷ field 0xff 3
          ∷ field pkt.pes_extension_flag_2 1
          ∷ [];
      counted = 8;
    }
    ⨟ (if pkt.pes_private_data_flag == 1
        then record { calls = replicate 4 (field 0xffffffff 32); counted = 128 }
        else no_part)
    ⨟ (if pkt.program_packet_sequence_counter_flag == 1
        then record { calls = []; counted = 16 }
        else no_part)
    ⨟ (if pkt.pstd_buffer_flag == 1 then record { calls = []; counted = 16 } else no_part)
    ⨟ (if pkt.pes_extension_flag_2 == 1
        then record {
          calls = replicate pkt.pes_extension_field_length (field 0xff 8);
          counted = 8 + 8 * pkt.pes_extension_field_length;
        }
        else no_part)

abbrev pub bytes_part : List ℕ → Part
bytes_part xs = record { calls = map (λ x. field x 8) xs; counted = 8 * length xs }

-- The first `n` bytes of `data`: `none` is a read behind them, or through a null pointer.
abbrev pub first_bytes : Option (List ℕ) → ℕ → Option (List ℕ)
first_bytes none n = if n == 0 then some [] else none
first_bytes (some xs) n = if leb n (length xs) then some (take n xs) else none

abbrev pub header_part : PesPacket → Part
header_part pkt =
    start_part pkt
    ⨟ flags_part pkt
    ⨟ pts_part pkt
    ⨟ optional_part pkt
    ⨟ if_set pkt.pes_extension_flag (extension_part pkt)

-- Everything that is written.
abbrev pub packet_part : PesPacket → Option Part
packet_part pkt =
    if has_header pkt.stream_id
    then elim (first_bytes pkt.payload pkt.data_length_bytes) [
      | none ↦ none
      | some xs ↦ some (header_part pkt ⨟ bytes_part xs)
    ]
    else if is_data_only pkt.stream_id
    then elim pkt.payload [
      | none ↦ some (start_part pkt)
      | some ys ↦ elim (first_bytes (some ys) pkt.pes_packet_length) [
        | none ↦ none
        | some xs ↦ some (start_part pkt ⨟ bytes_part xs)
      ]
    ]
    else some (start_part pkt)

-- `ltn_pes_packet_pack`: the count that it returns, and the stream.
unfoldable pub pack : PesPacket → Context → Option (ℕ × Context)
pack pkt bs = elim (packet_part pkt) [
  | none ↦ none
  | some part ↦ elim (write_fields bs part.calls) [ none ↦ none | some c ↦ some (part.counted, c) ]
]
