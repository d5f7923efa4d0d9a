-- ===== src/Packet/Pcr.antt =====
-- The program clock reference: its six bytes, and packets that carry one.
use native.Mathlib.Omega.{arith}
use libltntstools.Base.{
  ℕ, ◌+◌, ◌*◌, ◌/◌, ◌%◌, ◌^◌, ◌≤◌, ◌<◌, ◌≡◌, refl, ap, ltb, ◌==◌, if◌then◌else◌, u8, u64, bit_and,
  bit_or, Option, none, some,
}
use libltntstools.Base.Bits.{bit_and_mask, bit_and_bit, bit_or_sum}
use libltntstools.Packet.{
  Pointer, poke, fill, sync_present, adaption_field_control, continuity_counter, pid,
}
use libltntstools.Packet.Fields.{adaption_field_control_lem, continuity_counter_lem, pid_lem}

-- `ltntstools_pcrToScr`; `len` is not read.
unfoldable pub pcr_to_scr : Pointer → ℕ
pcr_to_scr ptr =
    let base₀ = ptr 0 * 2 ^ 25 in
    let base₁ = bit_or base₀ (ptr 1 * 2 ^ 17) in
    let base₂ = bit_or base₁ (ptr 2 * 2 ^ 9) in
    let base₃ = bit_or base₂ (ptr 3 * 2 ^ 1) in
    let base₄ = bit_or base₃ (ptr 4 / 2 ^ 7) in
    let pcr_base = bit_and base₄ 0x1ffffffff in
    let ext₀ = ptr 4 * 2 ^ 8 in
    let ext₁ = bit_or ext₀ (ptr 5) in
    let pcr_ext = bit_and ext₁ 0x1ff in u64 (pcr_base * 300 + pcr_ext)

-- `ltntstools_scr`: `none` is -1, and `some` the value stored through `scr`.
unfoldable pub scr : Pointer → Option ℕ
scr pkt =
    if sync_present pkt
    then (if ltb (adaption_field_control pkt) 2
        then none
        else if pkt 4 == 0
        then none
        else if bit_and (pkt 5) 0x10 == 0
        then none
        else some (pcr_to_scr (λ i. pkt (6 + i))))
    else none

-- `ltntstools_pcr_packTo`, at `dst + o`; `lengthBytes` is not read.
unfoldable pub pcr_pack_to : Pointer → ℕ → ℕ → Pointer
pcr_pack_to dst o pcr =
    let base = pcr / 300 in
    let ext = pcr % 300 in
    let d₁ = poke (poke dst o (u8 (base / 2 ^ 25))) (o + 1) (u8 (base / 2 ^ 17)) in
    let d₃ = poke (poke d₁ (o + 2) (u8 (base / 2 ^ 9))) (o + 3) (u8 (base / 2 ^ 1)) in
    let byte₄ = bit_or (u8 (base * 2 ^ 7)) 0x7e in
    poke (poke d₃ (o + 4) (u8 (bit_or byte₄ (bit_and ext 0x100 / 2 ^ 8)))) (o + 5) (u8 ext)

-- The six bytes that `ltntstools_generatePCROnlyPacket` stores before the clock.
unfoldable pub pcr_only_header : Pointer → ℕ → ℕ → Pointer
pcr_only_header pkt pid_nr cc =
    let blank = fill pkt 0xff 188 in
    let p₁ = poke (poke blank 0 0x47) 1 (bit_and pid_nr 0x1fff / 2 ^ 8) in
    let p₂ = poke (poke p₁ 2 (u8 pid_nr)) 3 (bit_or 0x20 (bit_and cc 0x0f)) in
    poke (poke p₂ 4 183) 5 0x10

-- `ltntstools_generatePCROnlyPacket` at pointers that are not null: the packet and `*cc`.
unfoldable pub generate_pcr_only_packet : Pointer → ℕ → ℕ → ℕ → ℕ → Option (Pointer × ℕ)
unfolding pcr_only_header pcr_pack_to
generate_pcr_only_packet pkt length_bytes pid_nr cc pcr =
    if ltb length_bytes 188
    then none
    else some (pcr_pack_to (pcr_only_header pkt pid_nr cc) 6 pcr, u8 (cc + 1))

-- The value that six bytes carry.
pub pcr_to_scr_lem :
    (ptr : Pointer)
    → ptr 0 < 256
    → ptr 1 < 256
    → ptr 2 < 256
    → ptr 3 < 256
    → ptr 4 < 256
    → ptr 5 < 256
    → pcr_to_scr ptr
      ≡ (ptr 0 * 2 ^ 25 + ptr 1 * 2 ^ 17 + ptr 2 * 2 ^ 9 + ptr 3 * 2 + ptr 4 / 128) * 300
        + ptr 4 % 2 * 256
        + ptr 5
unfolding pcr_to_scr
pcr_to_scr_lem ptr h₀ h₁ h₂ h₃ h₄ h₅ = ground (
  arith,
  bit_or_sum 25 (ptr 0) (ptr 1 * 2 ^ 17) (omega arith),
  bit_or_sum 17 (ptr 0 * 2 ^ 8 + ptr 1) (ptr 2 * 2 ^ 9) (omega arith),
  bit_or_sum 9 (ptr 0 * 2 ^ 16 + ptr 1 * 2 ^ 8 + ptr 2) (ptr 3 * 2) (omega arith),
  bit_or_sum 1 (ptr 0 * 2 ^ 24 + ptr 1 * 2 ^ 16 + ptr 2 * 2 ^ 8 + ptr 3) (ptr 4 / 128)
      (omega arith),
  bit_and_mask 33 (ptr 0 * 2 ^ 25 + ptr 1 * 2 ^ 17 + ptr 2 * 2 ^ 9 + ptr 3 * 2 + ptr 4 / 128),
  bit_or_sum 8 (ptr 4) (ptr 5) h₅,
  bit_and_mask 9 (ptr 4 * 2 ^ 8 + ptr 5),
)

-- The byte that holds the lowest bit of the base, the reserved bits and the highest of the extension.
pub middle_byte :
    (base ext : ℕ)
    → ext < 512
    → bit_or (bit_or (u8 (base * 2 ^ 7)) 0x7e) (bit_and ext 0x100 / 2 ^ 8)
      ≡ base % 2 * 128 + 126 + ext / 256
middle_byte base ext h = ground (
  arith,
  bit_and_bit 8 ext,
  bit_or_sum 7 (base % 2) 0x7e (omega arith),
  bit_or_sum 1 (base % 2 * 64 + 63) (ext / 256) (omega arith),
)

-- A clock of 33 bits and its extension comes back from the six bytes that `pcr_pack_to` writes.
pub pcr_to_scr-pcr_pack_to :
    (dst : Pointer) (pcr : ℕ)
    → pcr < 2 ^ 33 * 300
    → pcr_to_scr (λ i. pcr_pack_to dst 6 pcr (6 + i)) ≡ pcr
unfolding pcr_pack_to
pcr_to_scr-pcr_pack_to dst pcr h = omega (
  arith,
  pcr_to_scr_lem (λ i. pcr_pack_to dst 6 pcr (6 + i)) (omega arith) (omega arith) (omega arith)
      (omega arith) (omega arith) (omega arith),
  middle_byte (pcr / 300) (pcr % 300) (omega arith),
)

abbrev made : Pointer → ℕ → ℕ → ℕ → Pointer
made pkt pid_nr cc pcr = pcr_pack_to (pcr_only_header pkt pid_nr cc) 6 pcr

made_bytes :
    (pkt : Pointer) (pid_nr cc pcr : ℕ)
    → (made pkt pid_nr cc pcr 0 ≡ 0x47)
      × (made pkt pid_nr cc pcr 1 ≡ pid_nr % 8192 / 256)
      × (made pkt pid_nr cc pcr 2 ≡ pid_nr % 256)
      × (made pkt pid_nr cc pcr 3 ≡ 32 + cc % 16)
      × (made pkt pid_nr cc pcr 4 ≡ 183)
      × (made pkt pid_nr cc pcr 5 ≡ 16)
unfolding pcr_pack_to pcr_only_header
made_bytes pkt pid_nr cc pcr = (
  refl,
  omega (arith, bit_and_mask 13 pid_nr),
  refl,
  omega (arith, ap (bit_or 0x20) (bit_and_mask 4 cc), bit_or_sum 4 2 (cc % 16) (omega arith)),
  refl,
  refl,
)

made_control :
    (pkt : Pointer) (pid_nr cc pcr : ℕ) → adaption_field_control (made pkt pid_nr cc pcr) ≡ 2
made_control pkt pid_nr cc pcr =
    omega (arith, adaption_field_control_lem (made pkt pid_nr cc pcr), made_bytes pkt pid_nr cc pcr)

made_counter :
    (pkt : Pointer) (pid_nr cc pcr : ℕ) → continuity_counter (made pkt pid_nr cc pcr) ≡ cc % 16
made_counter pkt pid_nr cc pcr =
    omega (arith, continuity_counter_lem (made pkt pid_nr cc pcr), made_bytes pkt pid_nr cc pcr)

pid-made : (pkt : Pointer) (pid_nr cc pcr : ℕ) → pid (made pkt pid_nr cc pcr) ≡ pid_nr % 2 ^ 13
pid-made pkt pid_nr cc pcr =
    let b = made_bytes pkt pid_nr cc pcr in
    omega (arith, b, pid_lem (made pkt pid_nr cc pcr) (omega (arith, b)))

scr-made :
    (pkt : Pointer) (pid_nr cc pcr : ℕ)
    → pcr < 2 ^ 33 * 300
    → scr (made pkt pid_nr cc pcr) ≡ some pcr
unfolding scr sync_present
scr-made pkt pid_nr cc pcr h = ground (
  arith,
  made_bytes pkt pid_nr cc pcr,
  made_control pkt pid_nr cc pcr,
  bit_and_bit 4 16,
  pcr_to_scr-pcr_pack_to (pcr_only_header pkt pid_nr cc) pcr h,
)

-- A packet made for a clock of 33 bits and its extension gives that clock back, has the sync byte,
-- the pid asked for, an adaptation field and no payload, and the counter asked for; the counter
-- moves on by one.
pub generate_pcr_only_packet_lem :
    (pkt : Pointer) (length_bytes pid_nr cc pcr : ℕ)
    → 188 ≤ length_bytes
    → pcr < 2 ^ 33 * 300
    → (out : Pointer) × (generate_pcr_only_packet pkt length_bytes pid_nr cc pcr
        ≡ some (out, u8 (cc + 1)))
      × (scr out ≡ some pcr)
      × (pid out ≡ pid_nr % 2 ^ 13)
      × (adaption_field_control out ≡ 2)
      × (continuity_counter out ≡ cc % 16)
      × ((i : ℕ) → 188 ≤ i → out i ≡ pkt i)
generate_pcr_only_packet_lem pkt length_bytes pid_nr cc pcr h k = (
  pcr_pack_to (pcr_only_header pkt pid_nr cc) 6 pcr,
  unfold generate_pcr_only_packet in ground arith,
  scr-made pkt pid_nr cc pcr k,
  pid-made pkt pid_nr cc pcr,
  made_control pkt pid_nr cc pcr,
  made_counter pkt pid_nr cc pcr,
  λ i p. unfold pcr_only_header pcr_pack_to in ground arith,
)

generate_pcr_only_packet_short :
    (pkt : Pointer) (length_bytes pid_nr cc pcr : ℕ)
    → length_bytes < 188
    → generate_pcr_only_packet pkt length_bytes pid_nr cc pcr ≡ none
unfolding generate_pcr_only_packet
generate_pcr_only_packet_short pkt length_bytes pid_nr cc pcr h = ground arith
