-- ===== src/Pes.antt =====
-- src/libltntstools/pes.h and src/pes.c: PES packets, written to and read from a bit stream. The raw copy
-- of the buffer, the clocks of arrival, saving and printing are left out.
pub mod Pack
pub mod Parse
pub mod Clock
pub mod Header
pub mod Pieces
pub mod RoundTrip
mod Tests
use libltntstools.Base.{
  ℕ, ◌<◌, leb, ◌==◌, ◌&&◌, ◌||◌, not, if◌then◌else◌, Bool, true, false, Option, none, some, List,
  [], ◌∷◌, bit_and,
}
use libltntstools.Base.Int.{ℤ, pos}
use libltntstools.Packet.Types.{among}

-- `struct ltn_pes_packet_s`; `payload` is `data`, and `none` the null pointer.
pub record PesPacket : Type 0 where
  pub packet_start_code_prefix : ℕ
  pub stream_id : ℕ
  pub pes_packet_length : ℕ
  pub pes_scrambling_control : ℕ
  pub pes_priority : ℕ
  pub data_alignment_indicator : ℕ
  pub copyright : ℕ
  pub original_or_copy : ℕ
  pub pts_dts_flags : ℕ
  pub escr_flag : ℕ
  pub es_rate_flag : ℕ
  pub dsm_trick_mode_flag : ℕ
  pub additional_copy_info_flag : ℕ
  pub pes_crc_flag : ℕ
  pub pes_extension_flag : ℕ
  pub pes_header_data_length : ℕ
  pub pts : ℤ
  pub dts : ℤ
  pub es_rate : ℕ
  pub additional_copy_info : ℕ
  pub previous_pes_packet_crc : ℕ
  pub pes_private_data_flag : ℕ
  pub pack_header_field_flag : ℕ
  pub program_packet_sequence_counter_flag : ℕ
  pub pstd_buffer_flag : ℕ
  pub pstd_buffer_scale : ℕ
  pub pstd_buffer_size : ℕ
  pub pes_extension_flag_2 : ℕ
  pub pes_extension_field_length : ℕ
  pub payload : Option (List ℕ)
  pub data_length_bytes : ℕ
  pub skip_payload_parsing : ℕ

-- `ltn_pes_packet_alloc`, where there is memory, and what `ltn_pes_packet_init` leaves.
abbrev pub empty_packet : PesPacket
empty_packet = record {
  packet_start_code_prefix = 0;
  stream_id = 0;
  pes_packet_length = 0;
  pes_scrambling_control = 0;
  pes_priority = 0;
  data_alignment_indicator = 0;
  copyright = 0;
  original_or_copy = 0;
  pts_dts_flags = 0;
  escr_flag = 0;
  es_rate_flag = 0;
  dsm_trick_mode_flag = 0;
  additional_copy_info_flag = 0;
  pes_crc_flag = 0;
  pes_extension_flag = 0;
  pes_header_data_length = 0;
  pts = pos 0;
  dts = pos 0;
  es_rate = 0;
  additional_copy_info = 0;
  previous_pes_packet_crc = 0;
  pes_private_data_flag = 0;
  pack_header_field_flag = 0;
  program_packet_sequence_counter_flag = 0;
  pstd_buffer_flag = 0;
  pstd_buffer_scale = 0;
  pstd_buffer_size = 0;
  pes_extension_flag_2 = 0;
  pes_extension_field_length = 0;
  payload = none;
  data_length_bytes = 0;
  skip_payload_parsing = 0;
}

-- The kinds of streams whose packets have the long header.
abbrev pub has_header : ℕ → Bool
has_header id = not (among (0xbc ∷ 0xbe ∷ 0xbf ∷ 0xf0 ∷ 0xf1 ∷ 0xff ∷ 0xf2 ∷ 0xf8 ∷ []) id)

-- The kinds of streams whose packets have nothing but data behind the length.
abbrev pub is_data_only : ℕ → Bool
is_data_only id = among (0xbf ∷ 0xf0 ∷ 0xf1 ∷ 0xff ∷ 0xf2 ∷ 0xf8 ∷ []) id

-- `ltn_pes_packet_is_audio`
unfoldable pub is_audio : PesPacket → Bool
is_audio pes =
    if leb 0xc0 pes.stream_id && leb pes.stream_id 0xdf
    then true
    else (pes.stream_id == 0xbd) || leb 0xfd pes.stream_id

-- `ltn_pes_packet_is_video`
unfoldable pub is_video : PesPacket → Bool
is_video pes = leb 0xe0 pes.stream_id && leb pes.stream_id 0xef

-- `ltn_pes_packet_has_PTS`
unfoldable pub has_pts : PesPacket → Bool
has_pts pes = not (bit_and pes.pts_dts_flags 2 == 0)

-- `ltn_pes_packet_has_DTS`
unfoldable pub has_dts : PesPacket → Bool
has_dts pes = not (bit_and pes.pts_dts_flags 1 == 0)
