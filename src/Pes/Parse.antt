-- ===== src/Pes/Parse.antt =====
-- `ltn_pes_packet_parse` of src/pes.c, with the overrun macros as the bit stream sets them.
use libltntstools.Base.{
  ℕ, ◌+◌, ◌-◌, ◌*◌, ◌/◌, ◌^◌, ltb, leb, ◌==◌, ◌&&◌, if◌then◌else◌, u64, bit_or, Bool, true, false,
  Option, none, some, List, [], ◌∷◌, replicate, get_or,
}
use libltntstools.Base.Int.{ℤ, pos, negsuc}
use libltntstools.Packet.{bytes_at}
use libltntstools.BitStream.{Context}
use libltntstools.BitStream.Fields.{read_fields}
use libltntstools.Pes.{PesPacket, has_header, is_data_only}

-- The packet and the stream so far, the count of bits, and whether the stream was marked as truncated.
pub record State : Type 0 where
  pub pkt : PesPacket
  pub bs : Context
  pub bits : ℕ
  pub truncated : Bool

-- A piece of the code returns from the function, or goes on.
pub data Step : Type 0 where
  returned : State → Step
  goes_on : State → Step

abbrev pub then_step : Option Step → (State → Option Step) → Option Step
then_step none f = none
then_step (some (returned s)) f = some (returned s)
then_step (some (goes_on s)) f = f s

-- Calls of `klbs_read_bits` one after the other, and what is done with their results.
abbrev pub reads : State → List ℕ → (List ℕ → State → Option Step) → Option Step
reads s ns f = elim (read_fields s.bs ns) [
  | none ↦ none
  | some (vs, c) ↦ f vs (record s { bs = c })
]

-- `klbs_get_byte_count_free`; the reader never passes the end.
abbrev pub byte_count_free : State → ℕ
byte_count_free s = s.bs.buflen - s.bs.buflen_used

abbrev pub nth : List ℕ → ℕ → ℕ
nth vs i = get_or vs i 0

abbrev pub count_bits : ℕ → State → State
count_bits n s = record s { bits = s.bits + n }

-- `n` bits and a marker bit: the inner `none` is a marker that is not 1.
abbrev pub marked : Context → ℕ → Option (Option ℕ × Context)
marked bs n = elim (read_fields bs (n ∷ 1 ∷ [])) [
  | none ↦ none
  | some (vs, c) ↦ some (if nth vs 1 == 1 then some (nth vs 0) else none, c)
]

-- `read33bit_ts`
unfoldable pub read33bit_ts : Context → Option (ℤ × Context)
read33bit_ts bs = elim (marked bs 3) [
  | none ↦ none
  | some (none, s) ↦ some (negsuc 0, s)
  | some (some a, s) ↦ elim (marked s 15) [
    | none ↦ none
    | some (none, t) ↦ some (negsuc 0, t)
    | some (some b, t) ↦ elim (marked t 15) [
      | none ↦ none
      | some (none, u) ↦ some (negsuc 0, u)
      | some (some c, u) ↦ some (pos (bit_or (bit_or (u64 (a * 2 ^ 30)) (u64 (b * 2 ^ 15))) c), u)
    ]
  ]
]

-- A clock behind four bits.
abbrev pub clock_step : State → (ℤ → PesPacket → PesPacket) → Option Step
clock_step s store = reads s (4 ∷ []) (λ vs t. elim (read33bit_ts t.bs) [
  | none ↦ none
  | some (v, c) ↦ some (goes_on (count_bits 40 (record t { pkt = store v t.pkt; bs = c })))
])

abbrev pub start_step : State → Option Step
start_step s = reads s (24 ∷ 8 ∷ 16 ∷ []) (λ vs t. some (
    goes_on (record t {
      pkt = record (t.pkt) {
        packet_start_code_prefix = nth vs 0;
        stream_id = nth vs 1;
        pes_packet_length =
            if ltb (byte_count_free t) (nth vs 2) then byte_count_free t else nth vs 2;
      };
    })))

abbrev pub flags_step : State → Option Step
flags_step s = reads s (2 ∷ 2 ∷ 1 ∷ 1 ∷ 1 ∷ 1 ∷ 2 ∷ 1 ∷ 1 ∷ 1 ∷ 1 ∷ 1 ∷ 1 ∷ []) (λ vs t.
    let u : State = record t {
      pkt = record (t.pkt) {
        pes_scrambling_control = nth vs 1;
        pes_priority = nth vs 2;
        data_alignment_indicator = nth vs 3;
        copyright = nth vs 4;
        original_or_copy = nth vs 5;
        pts_dts_flags = nth vs 6;
        escr_flag = nth vs 7;
        es_rate_flag = nth vs 8;
        dsm_trick_mode_flag = nth vs 9;
        additional_copy_info_flag = nth vs 10;
        pes_crc_flag = nth vs 11;
        pes_extension_flag = nth vs 12;
      };
    } in
    if ltb (byte_count_free u) 1
    then some (returned u)
    else reads u (8 ∷ []) (λ ws w. some (
        goes_on (
          count_bits 72
            (record w { pkt = record (w.pkt) { pes_header_data_length = nth ws 0 } })))))

abbrev pub store_pts : ℤ → PesPacket → PesPacket
store_pts v p = record p { pts = v }

abbrev pub store_dts : ℤ → PesPacket → PesPacket
store_dts v p = record p { dts = v }

abbrev pub pts_step : State → Option Step
pts_step s =
    if s.pkt.pts_dts_flags == 2
    then clock_step s store_pts
    else if s.pkt.pts_dts_flags == 3
    then then_step (clock_step s store_pts) (λ t. clock_step t store_dts)
    else some (goes_on s)

-- A piece that is there if a flag is set.
abbrev pub when_set : ℕ → State → Option Step → Option Step
when_set flag s step = if flag == 0 then some (goes_on s) else step

abbrev pub skip : State → List ℕ → ℕ → Option Step
skip s ns n = reads s ns (λ vs t. some (goes_on (count_bits n t)))

abbrev pub es_rate_step : State → Option Step
es_rate_step s = reads s (1 ∷ 22 ∷ 1 ∷ []) (λ vs t.
    some (goes_on (count_bits 24 (record t { pkt = record (t.pkt) { es_rate_flag = nth vs 1 } }))))

abbrev pub copy_info_step : State → Option Step
copy_info_step s = reads s (1 ∷ 7 ∷ []) (λ vs t. some (
    goes_on (count_bits 8 (record t { pkt = record (t.pkt) { additional_copy_info = nth vs 1 } }))))

abbrev pub pes_crc_step : State → Option Step
pes_crc_step s = reads s (16 ∷ []) (λ vs t. some (
    goes_on
      (count_bits 16 (record t { pkt = record (t.pkt) { previous_pes_packet_crc = nth vs 0 } }))))

abbrev pub optional_step : State → Option Step
optional_step s₀ = then_step (when_set s₀.pkt.escr_flag s₀ (skip s₀ (48 ∷ []) 48)) (λ s₁.
    then_step (when_set s₁.pkt.es_rate_flag s₁ (es_rate_step s₁)) (λ s₂.
      then_step (when_set s₂.pkt.dsm_trick_mode_flag s₂ (skip s₂ (8 ∷ []) 8)) (λ s₃.
        then_step (when_set s₃.pkt.additional_copy_info_flag s₃ (copy_info_step s₃))
          (λ s₄. when_set s₄.pkt.pes_crc_flag s₄ (pes_crc_step s₄)))))

abbrev pub extension_flags_step : State → Option Step
extension_flags_step s = reads s (1 ∷ 1 ∷ 1 ∷ 1 ∷ 3 ∷ 1 ∷ []) (λ vs t. some (
    goes_on (
      count_bits 8 (record t {
        pkt = record (t.pkt) {
          pes_private_data_flag = nth vs 0;
          pack_header_field_flag = nth vs 1;
          program_packet_sequence_counter_flag = nth vs 2;
          pstd_buffer_flag = nth vs 3;
          pes_extension_flag_2 = nth vs 5;
        };
      }))))

abbrev pub private_data_step : State → Option Step
private_data_step s =
    if ltb (byte_count_free s) 16 then some (returned s) else skip s (32 ∷ 32 ∷ 32 ∷ 32 ∷ []) 128

abbrev pub pack_header_step : State → Option Step
pack_header_step s = reads s (8 ∷ []) (λ vs t.
    let u = count_bits 8 t in
    if ltb (byte_count_free u) (nth vs 0)
    then some (returned u)
    else skip u (replicate (nth vs 0) 8) (8 * nth vs 0))

abbrev pub pstd_step : State → Option Step
pstd_step s = reads s (2 ∷ 1 ∷ 13 ∷ []) (λ vs t. some (
    goes_on (
      count_bits 16 (record t {
        pkt = record (t.pkt) { pstd_buffer_scale = nth vs 1; pstd_buffer_size = nth vs 2 };
      }))))

-- The length of the second extension, cut to what is left.
abbrev pub cut_extension : State → ℕ → State
cut_extension s len =
    if ltb (byte_count_free s) len
    then record s {
      pkt = record (s.pkt) {
        pes_extension_field_length = byte_count_free s;
        pes_packet_length = (s.bits - 48) / 8 + byte_count_free s;
      };
      truncated = true;
    }
    else record s { pkt = record (s.pkt) { pes_extension_field_length = len } }

abbrev pub extension_2_step : State → Option Step
extension_2_step s = reads s (1 ∷ 7 ∷ []) (λ vs t.
    let u = cut_extension (count_bits 8 t) (nth vs 1) in
    skip u (replicate u.pkt.pes_extension_field_length 8) (8 * u.pkt.pes_extension_field_length))

abbrev pub extension_step : State → Option Step
extension_step s₀ = then_step (extension_flags_step s₀) (λ s₁.
    then_step
      (if s₁.pkt.pes_private_data_flag == 1 then private_data_step s₁ else some (goes_on s₁))
      (λ s₂.
        then_step
          (if s₂.pkt.pack_header_field_flag == 1 then pack_header_step s₂ else some (goes_on s₂))
          (λ s₃.
            then_step
              (if s₃.pkt.program_packet_sequence_counter_flag == 1
                then skip s₃ (16 ∷ []) 16
                else some (goes_on s₃))
              (λ s₄.
                then_step (if s₄.pkt.pstd_buffer_flag == 1 then pstd_step s₄ else some (goes_on s₄))
                  (λ s₅.
                    if s₅.pkt.pes_extension_flag_2 == 1
                    then extension_2_step s₅
                    else some (goes_on s₅))))))

-- `n` bytes for the payload: a copy where the stream stands between two bytes, and reads elsewhere.
abbrev pub take_payload : State → ℕ → Option Step
take_payload s n =
    if (s.bs.reg_used == 0) && leb n (byte_count_free s)
    then some (
        goes_on (
          count_bits (8 * n) (record s {
            pkt = record (s.pkt) { payload = some (bytes_at s.bs.buf s.bs.buflen_used n) };
            bs = record (s.bs) { buflen_used = s.bs.buflen_used + n };
          })))
    else reads s (replicate n 8) (λ vs t.
      some (goes_on (count_bits (8 * n) (record t { pkt = record (t.pkt) { payload = some vs } }))))

-- The bytes of payload that the packet's length leaves, or else all that are left.
abbrev pub remaining_length : State → ℕ
remaining_length s =
    if leb ((s.bits - 48) / 8) s.pkt.pes_packet_length
    then s.pkt.pes_packet_length - (s.bits - 48) / 8
    else byte_count_free s

abbrev pub payload_step : State → ℕ → Option Step
payload_step s₀ skip_data =
    let s = record s₀ { pkt = record (s₀.pkt) { data_length_bytes = 0; payload = none } } in
    let n = remaining_length s in
    if skip_data == 0
    then (if ltb (byte_count_free s) n
        then take_payload
            (record s {
              pkt = record (s.pkt) { data_length_bytes = byte_count_free s };
              truncated = true;
            })
            (byte_count_free s)
        else take_payload (record s { pkt = record (s.pkt) { data_length_bytes = n } }) n)
    else some (goes_on s)

abbrev pub header_step : State → ℕ → Option Step
header_step s skip_data = then_step (flags_step s) (λ t. then_step (pts_step t) (λ u.
    then_step (optional_step u) (λ v.
      then_step (when_set v.pkt.pes_extension_flag v (extension_step v))
        (λ w. payload_step w skip_data))))

-- The packet's length, cut to what is left.
abbrev pub cut_length : State → State
cut_length s =
    if ltb (byte_count_free s) s.pkt.pes_packet_length
    then record s {
      pkt = record (s.pkt) { pes_packet_length = byte_count_free s };
      truncated = true;
    }
    else s

abbrev pub data_only_step : State → Option Step
data_only_step s = let t = cut_length s in take_payload t t.pkt.pes_packet_length

abbrev pub padding_step : State → Option Step
padding_step s =
    let t = cut_length s in
    skip t (replicate t.pkt.pes_packet_length 8) (8 * t.pkt.pes_packet_length)

abbrev pub body_step : State → ℕ → Option Step
body_step s skip_data =
    if has_header s.pkt.stream_id
    then header_step s skip_data
    else if is_data_only s.pkt.stream_id
    then data_only_step s
    else if s.pkt.stream_id == 0xbe
    then padding_step s
    else some (goes_on s)

-- The state that a piece leaves, whether it returned or not.
abbrev pub state_of : Option Step → Option State
state_of none = none
state_of (some (returned s)) = some s
state_of (some (goes_on s)) = some s

-- `ltn_pes_packet_parse`; the count of bits that it returns is in the state.
unfoldable pub parse : PesPacket → Context → ℕ → Option State
parse pkt bs skip_data =
    let s : State = record { pkt = pkt; bs = bs; bits = 0; truncated = false } in
    if ltb (byte_count_free s) 8
    then some s
    else state_of (
        then_step (start_step (record s { pkt = record pkt { skip_payload_parsing = skip_data } }))
          (λ t. body_step t skip_data))
