-- ===== src/Pes/Tests.antt =====
-- PES packets at concrete inputs, and the bit stream's fields at a concrete buffer.
use libltntstools.Base.{ℕ, ◌≡◌, refl, Option, none, some, [], ◌∷◌}
use libltntstools.Base.Int.{pos}
use libltntstools.Packet.{Pointer}
use libltntstools.Pes.{PesPacket, empty_packet}
use libltntstools.Pes.Pack.{Part, packet_part}
use libltntstools.BitStream.Fields.{total}

-- A video packet with a presentation time and three bytes.
abbrev video : PesPacket
video = record empty_packet {
  packet_start_code_prefix = 1;
  stream_id = 0xe0;
  pes_packet_length = 11;
  pts_dts_flags = 2;
  pes_header_data_length = 5;
  pts = pos 900000;
  payload = some (1 ∷ 2 ∷ 3 ∷ []);
  data_length_bytes = 3;
}

abbrev blank : Pointer
blank i = 0

abbrev calls_total : Option Part → ℕ
calls_total none = 0
calls_total (some part) = total part.calls

abbrev count_of : Option Part → ℕ
count_of none = 0
count_of (some part) = part.counted

-- The clock reference is written in 40 bits and counted as 48.
escr_written : calls_total (packet_part (record video { escr_flag = 1 })) ≡ 176
escr_written = refl

escr_counted : count_of (packet_part (record video { escr_flag = 1 })) ≡ 184
escr_counted = refl

-- A padding stream gets no padding.
padding_empty : calls_total (packet_part (record video { stream_id = 0xbe })) ≡ 48
padding_empty = refl
