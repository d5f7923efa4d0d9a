-- ===== src/Pes/RoundTrip.antt =====
-- A packet that is packed and parsed again.
use libltntstools.Base.{ℕ, ◌+◌, ◌/◌, ◌^◌, ◌<◌, ◌≡◌, true, some, List, ◌++◌, length, map}
use libltntstools.Base.Byte.{IsBytes}
use libltntstools.BitStream.Fields.{Field}
use libltntstools.Pes.{PesPacket, empty_packet, has_header}
use libltntstools.Pes.Pack.{field, start_part, flags_part, pts_part}
use libltntstools.Pes.Header.{IsClock, with_clocks}
use libltntstools.Pes.Pieces.{with_flags}

-- A packet of a stream with the long header, its clocks and its payload `xs`, and none of the other
-- optional parts; its length is the one that its parts have.
pub record IsPlain (pkt : PesPacket) (xs : List ℕ) : Type 0 where
  pub long_header : has_header pkt.stream_id ≡ true
  pub prefix_small : pkt.packet_start_code_prefix < 2 ^ 24
  pub id_small : pkt.stream_id < 2 ^ 8
  pub length_small : pkt.pes_packet_length < 2 ^ 16
  pub flags_small : pkt.pts_dts_flags < 4
  pub no_escr : pkt.escr_flag ≡ 0
  pub no_es_rate : pkt.es_rate_flag ≡ 0
  pub no_trick_mode : pkt.dsm_trick_mode_flag ≡ 0
  pub no_copy_info : pkt.additional_copy_info_flag ≡ 0
  pub no_crc : pkt.pes_crc_flag ≡ 0
  pub no_extension : pkt.pes_extension_flag ≡ 0
  pub pts_clock : IsClock pkt.pts
  pub dts_clock : IsClock pkt.dts
  pub has_payload : pkt.payload ≡ some xs
  pub payload_whole : pkt.data_length_bytes ≡ length xs
  pub payload_bytes : IsBytes xs
  pub length_told : pkt.pes_packet_length ≡ 3 + (pts_part pkt).counted / 8 + length xs

-- The fields in front of the flags.
abbrev pub started : PesPacket → PesPacket
started pkt = record empty_packet {
  packet_start_code_prefix = pkt.packet_start_code_prefix;
  stream_id = pkt.stream_id;
  pes_packet_length = pkt.pes_packet_length;
}

-- What the parser makes of it: the flags cut to their widths, and the clocks that the flags announce.
abbrev pub parsed : PesPacket → List ℕ → PesPacket
parsed pkt xs = record (with_clocks pkt (with_flags pkt (started pkt))) {
  data_length_bytes = length xs;
  payload = some xs;
}

-- None of the optional parts behind the clocks.
record HasNoOptions (q : PesPacket) : Type 0 where
  no_escr : q.escr_flag ≡ 0
  no_es_rate : q.es_rate_flag ≡ 0
  no_trick_mode : q.dsm_trick_mode_flag ≡ 0
  no_copy_info : q.additional_copy_info_flag ≡ 0
  no_crc : q.pes_crc_flag ≡ 0
  no_extension : q.pes_extension_flag ≡ 0

module _ (pkt : PesPacket) (xs : List ℕ) (k : IsPlain pkt xs) where
  abbrev byte_fields : List Field
  byte_fields = map (λ x. field x 8) xs

  abbrev plain_calls : List Field
  plain_calls =
      (start_part pkt).calls ++ ((flags_part pkt).calls ++ ((pts_part pkt).calls ++ byte_fields))
