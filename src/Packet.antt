-- ===== src/Packet.antt =====
-- src/libltntstools/ts.h and src/ts.c: the fields of a transport packet, the clocks, and the packets
-- that the library makes and searches for. A pointer to bytes is the function from an offset to
-- the byte there, so a caller that keeps an array says where the pointer stands in it.
pub mod Fields
pub mod Clock
pub mod Pcr
pub mod Counter
pub mod Search
pub mod Types
mod Tests
use libltntstools.Base.{
  ℕ, ◌+◌, ◌-◌, ◌*◌, ◌/◌, ◌%◌, ◌^◌, ltb, leb, ◌==◌, ◌||◌, if◌then◌else◌, u8, bit_and, bit_or, Bool,
  true, false, List, [], ◌∷◌, zero, suc, get_or,
}

abbrev pub Pointer : Type 0
Pointer = ℕ → ℕ

-- `buf + o`
abbrev pub pointer_to : List ℕ → ℕ → Pointer
pointer_to buf o i = get_or buf (o + i) 0

-- The `n` bytes at `pkt + o`.
abbrev pub bytes_at : Pointer → ℕ → ℕ → List ℕ
bytes_at pkt o zero = []
bytes_at pkt o (suc n) = pkt o ∷ bytes_at pkt (o + 1) n

-- `*(p + o) = v`
abbrev pub poke : Pointer → ℕ → ℕ → Pointer
poke p o v i = if i == o then v else p i

-- memset(p, v, n)
abbrev pub fill : Pointer → ℕ → ℕ → Pointer
fill p v n i = if ltb i n then v else p i

unfoldable pub sync_present : Pointer → Bool
sync_present pkt = pkt 0 == 0x47

unfoldable pub tei_set : Pointer → ℕ
tei_set pkt = if bit_and (pkt 1) 0x80 == 0 then 0 else 1

unfoldable pub payload_unit_start_indicator : Pointer → ℕ
payload_unit_start_indicator pkt = if bit_and (pkt 1) 0x40 == 0 then 0 else 1

unfoldable pub transport_priority : Pointer → ℕ
transport_priority pkt = if bit_and (pkt 1) 0x20 == 0 then 0 else 1

unfoldable pub pid : Pointer → ℕ
pid pkt = bit_and (bit_or (pkt 1 * 2 ^ 8) (pkt 2)) 0x1fff

unfoldable pub transport_scrambling_control : Pointer → ℕ
transport_scrambling_control pkt = pkt 3 / 2 ^ 6

unfoldable pub adaption_field_control : Pointer → ℕ
adaption_field_control pkt = bit_and (pkt 3 / 2 ^ 4) 0x03

unfoldable pub has_adaption : Pointer → Bool
has_adaption pkt = let v = bit_and (pkt 3 / 2 ^ 4) 0x03 in if v == 2 || v == 3 then true else false

unfoldable pub adaption_field_length : Pointer → ℕ
adaption_field_length pkt = pkt 4

unfoldable pub continuity_counter : Pointer → ℕ
continuity_counter pkt = bit_and (pkt 3) 0x0f

-- `ltntstools_get_section_tableid`
unfoldable pub get_section_tableid : Pointer → ℕ
unfolding has_adaption adaption_field_length
get_section_tableid pkt = pkt (if has_adaption pkt then 5 + 1 + adaption_field_length pkt else 5)

-- `ltntstools_generateNullPacket`
unfoldable pub generate_null_packet : Pointer → Pointer
generate_null_packet pkt = poke (poke (poke (poke (fill pkt 0xff 188) 0 0x47) 1 0x1f) 2 0xff) 3 0x10
