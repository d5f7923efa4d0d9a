-- ===== src/Packetizer.antt =====
-- src/ts_packetizer.c: a buffer of elementary stream bytes cut into transport packets. A packet is
-- the pointer to its 188 bytes in the array that the functions allocate; calloc does not fail.
pub mod Payload
pub mod Plain
pub mod Shape
pub mod Timed
pub mod Timestamp
mod Tests
use libltntstools.Base.{
  ℕ, zero, suc, ◌+◌, ◌-◌, ◌*◌, ◌/◌, ◌%◌, ◌^◌, ltb, leb, ◌==◌, ◌!=◌, ◌&&◌, ◌||◌, not, if◌then◌else◌,
  u8, u32, length, bit_and, bit_or, Bool, true, false, Option, none, some, List, [], ◌∷◌,
}
use libltntstools.Packet.{Pointer, poke, fill}

-- memcpy(p + o, src + so, n) and memset(p + o, v, n)
abbrev pub copy_at : Pointer → ℕ → Pointer → ℕ → ℕ → Pointer
copy_at p o src so n i = if leb o i && ltb i (o + n) then src (so + (i - o)) else p i

abbrev pub fill_at : Pointer → ℕ → ℕ → ℕ → Pointer
fill_at p o v n i = if leb o i && ltb i (o + n) then v else p i

-- `*pkts` and `*cc`; `*packetCount` is the length of the list.
pub record Packets : Type 0 where
  pub packets : List Pointer
  pub cc : ℕ

cons_packet : Pointer → Option Packets → Option Packets
cons_packet p none = none
cons_packet p (some r) = some (record { packets = p ∷ r.packets; cc = r.cc })

-- The packets in an array with room for `room` of them, with each offset computed below `limit`;
-- `none` is a packet that is not at its place in the array.
unfoldable pub in_array : ℕ → ℕ → Option Packets → Option Packets
in_array room limit none = none
in_array room limit (some r) =
    if leb (length r.packets) room && ltb ((length r.packets - 1) * 188) limit then some r else none

-- One round of the loop of `ltntstools_ts_packetizer`: the packet at `arr + cnt * packetSize`.
pub plain_packet : Pointer → ℕ → ℕ → ℕ → ℕ → ℕ → Pointer
plain_packet buf pid cc offset rem cnt =
    let p₀ : Pointer = λ i. 0 in
    let p₁ = poke (poke p₀ 0 0x47) 1 (u8 (pid / 2 ^ 8)) in
    let p₂ = poke (poke p₁ 2 (u8 pid)) 3 (bit_or 0x10 (bit_and cc 0x0f)) in
    let p₃ = copy_at p₂ 4 buf offset rem in
    let p₄ = fill_at p₃ (4 + rem) 0xff (188 - rem - 4) in
    if cnt == 0 then poke p₄ 1 (u8 (bit_or (p₄ 1) 0x40)) else p₄

-- The loop; `none` is the end of the fuel.
pub plain_loop : ℕ → Pointer → ℕ → ℕ → ℕ → ℕ → ℕ → Option Packets
plain_loop zero buf byte_count pid cc offset cnt = none
plain_loop (suc fuel) buf byte_count pid cc offset cnt =
    let left = byte_count - offset in
    let rem = if ltb 184 left then 184 else left in
    let rest = plain_loop fuel buf byte_count pid (u8 (cc + 1)) (offset + rem) (cnt + 1) in
    if left == 0
    then some (record { packets = []; cc = cc })
    else cons_packet (plain_packet buf pid cc offset rem cnt) rest

-- calloc(packets, packetSize) there: `packets` is an `int`, and where it is negative there is no
-- array of that size.
unfoldable pub plain_room : ℕ → ℕ
plain_room byte_count =
    let packets = u32 ((byte_count / 184 + 1) * 188) in if ltb packets (2 ^ 31) then packets else 0

-- `ltntstools_ts_packetizer` at pointers that are not null; `none` is -1, or the fault of `in_array`.
pub ts_packetizer : Pointer → ℕ → ℕ → ℕ → ℕ → Option Packets
unfolding in_array plain_room
ts_packetizer buf byte_count packet_size cc pid =
    if byte_count == 0 || (packet_size != 188 || ltb 0x1fff pid)
    then none
    else in_array (plain_room byte_count) (2 ^ 31)
        (plain_loop (byte_count + 1) buf byte_count pid cc 0 0)

-- The adaptation field's flags in `ltntstools_ts_packetizer_with_pcr`.
pub af_flags_of : Bool → Bool → Bool → Bool → ℕ
af_flags_of need_pcr first rai priority =
    let f₀ = if need_pcr then bit_or 0 0x10 else 0 in
    let f₁ = if first && rai then bit_or f₀ 0x40 else f₀ in
    if first && priority then bit_or f₁ 0x20 else f₁

-- Bytes 6 to 11: the clock.
pub put_pcr : Pointer → ℕ → Pointer
put_pcr p pcr =
    let base = pcr / 300 in
    let ext = pcr % 300 in
    let p₁ = poke (poke p 6 (bit_and (base / 2 ^ 25) 0xff)) 7 (bit_and (base / 2 ^ 17) 0xff) in
    let p₂ = poke (poke p₁ 8 (bit_and (base / 2 ^ 9) 0xff)) 9 (bit_and (base / 2 ^ 1) 0xff) in
    let low = bit_or (bit_and base 0x1 * 2 ^ 7) 0x7e in
    poke (poke p₂ 10 (u8 (bit_or low (bit_and (ext / 2 ^ 8) 0x01)))) 11 (bit_and ext 0xff)

-- A packet before its payload, with `cpy` and `payload_offset`.
pub record Shaped : Type 0 where
  pub packet : Pointer
  pub cpy : ℕ
  pub payload_offset : ℕ

-- The three shapes of a packet in the loop: with a clock, with flags only, and without either.
pub shape_pcr : Pointer → ℕ → ℕ → ℕ → Shaped
unfolding put_pcr
shape_pcr p rem af_flags pcr =
    let p₀ = poke p 3 (bit_or (p 3) 0x30) in
    if leb 176 rem
    then record {
      packet = put_pcr (poke (poke p₀ 4 7) 5 af_flags) pcr;
      cpy = 176;
      payload_offset = 12;
    }
    else record {
      packet =
          put_pcr
            (fill_at (poke (poke p₀ 4 (u8 (183 - rem))) 5 af_flags) 12 0xff
              (4 + 1 + (183 - rem) - 12))
            pcr;
      cpy = rem;
      payload_offset = 4 + 1 + (183 - rem);
    }

pub shape_flags : Pointer → ℕ → ℕ → Shaped
shape_flags p rem af_flags =
    let p₀ = poke p 3 (bit_or (p 3) 0x30) in
    if leb 182 rem
    then record { packet = poke (poke p₀ 4 1) 5 af_flags; cpy = 182; payload_offset = 6 }
    else record {
      packet =
          fill_at (poke (poke p₀ 4 (u8 (183 - rem))) 5 af_flags) 6 0xff (4 + 1 + (183 - rem) - 6);
      cpy = rem;
      payload_offset = 4 + 1 + (183 - rem);
    }

pub shape_plain : Pointer → ℕ → Shaped
shape_plain p rem =
    if leb 184 rem
    then record { packet = poke p 3 (bit_or (p 3) 0x10); cpy = 184; payload_offset = 4 }
    else (let p₀ = poke (poke p 3 (bit_or (p 3) 0x30)) 4 (u8 (183 - rem)) in
        record {
          packet =
              if ltb 0 (183 - rem)
              then fill_at (poke p₀ 5 0) 6 0xff (4 + 1 + (183 - rem) - 6)
              else p₀;
          cpy = rem;
          payload_offset = 4 + 1 + (183 - rem);
        })

-- The header that each round starts from.
pub timed_header : ℕ → ℕ → Bool → Pointer
timed_header pid cc first =
    let p₀ = fill (λ i. 0) 0xff 188 in
    let p₁ = poke (poke p₀ 0 0x47) 1 (bit_and (pid / 2 ^ 8) 0x1f) in
    let p₂ = poke (poke p₁ 2 (bit_and pid 0xff)) 3 (bit_and cc 0x0f) in
    if first then poke p₂ 1 (bit_or (p₂ 1) 0x40) else p₂

-- One round of the loop, up to the copy of the payload. `pcr` is `none` for -1, and else not
-- negative.
pub timed_shape : ℕ → ℕ → Option ℕ → Bool → Bool → ℕ → ℕ → Shaped
unfolding af_flags_of timed_header
timed_shape pid cc pcr rai priority rem cnt =
    let first = cnt == 0 in
    let p = timed_header pid cc first in
    elim pcr [
      | none ↦
          if first && (rai || priority)
          then shape_flags p rem (af_flags_of false first rai priority)
          else shape_plain p rem
      | some t ↦
          if first
          then shape_pcr p rem (af_flags_of true first rai priority) t
          else shape_plain p rem
    ]

-- The loop; `none` is the end of the fuel.
pub timed_loop : ℕ → Pointer → ℕ → ℕ → ℕ → Option ℕ → Bool → Bool → ℕ → ℕ → Option Packets
timed_loop zero buf byte_count pid cc pcr rai priority pos cnt = none
timed_loop (suc fuel) buf byte_count pid cc pcr rai priority pos cnt =
    let s = timed_shape pid cc pcr rai priority (byte_count - pos) cnt in
    let rest =
      timed_loop fuel buf byte_count pid (bit_and (cc + 1) 0x0f) pcr rai priority (pos + s.cpy)
        (cnt + 1) in
    if ltb pos byte_count
    then cons_packet (copy_at s.packet s.payload_offset buf pos s.cpy) rest
    else some (record { packets = []; cc = cc })

-- `maxPackets`, and the packets that calloc makes room for
unfoldable pub timed_room : ℕ → ℕ
timed_room byte_count = u32 (u32 (byte_count + 175) / 176 + 2)

-- `ltntstools_ts_packetizer_with_pcr` at pointers that are not null and with a clock that is -1 or
-- not negative; `none` is -1, or the fault of `in_array`.
pub ts_packetizer_with_pcr : Pointer → ℕ → ℕ → ℕ → ℕ → Option ℕ → Bool → Bool → Option Packets
unfolding in_array timed_room
ts_packetizer_with_pcr buf byte_count packet_size cc pid pcr rai priority =
    if byte_count == 0 || (packet_size != 188 || ltb 0x1fff pid)
    then none
    else in_array (timed_room byte_count) (2 ^ 32)
        (timed_loop (byte_count + 1) buf byte_count pid cc pcr rai priority 0 0)
