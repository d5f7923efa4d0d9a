-- ===== src/Packetizer/Tests.antt =====
-- Runs of the packetizers, and the theorems at concrete buffers.
use libltntstools.Base.{
  ℕ, ◌%◌, ◌≡◌, refl, arith, true, false, Option, none, some, List, [], ◌∷◌, length,
}
use libltntstools.Packet.{Pointer}
use libltntstools.Packetizer.{
  Packets, in_array, plain_room, timed_room, cons_packet, plain_loop, ts_packetizer, shape_pcr,
  shape_plain, timed_header, timed_shape, timed_loop, ts_packetizer_with_pcr,
}
use libltntstools.Packetizer.Plain.{IsPacked, ts_packetizer_lem}
use libltntstools.Packetizer.Timed.{IsTimed, ts_packetizer_with_pcr_lem}
use libltntstools.Packetizer.Timestamp.{ts_packetizer_with_pcr-scr}
use libltntstools.Packet.Pcr.{scr}

-- A buffer that counts from 0.
abbrev counting : Pointer
counting i = i % 256

abbrev count_of : Option Packets → ℕ
count_of none = 0
count_of (some r) = length r.packets

abbrev first_of : List Pointer → Pointer
first_of [] i = 0
first_of (p ∷ ps) i = p i

abbrev byte_of : Option Packets → ℕ → ℕ
byte_of none i = 0
byte_of (some r) i = first_of r.packets i

ts_packetizer-count : count_of (ts_packetizer counting 200 188 15 0x100) ≡ 2
unfolding ts_packetizer in_array plain_room plain_loop cons_packet
ts_packetizer-count = refl

ts_packetizer_with_pcr-count :
    count_of (ts_packetizer_with_pcr counting 200 188 15 0x100 (some 600) true false) ≡ 2
unfolding ts_packetizer_with_pcr in_array timed_room timed_loop timed_shape timed_header shape_pcr
    shape_plain cons_packet
ts_packetizer_with_pcr-count = refl

-- Byte 12 of the first packet with a clock is the first of its payload.
ts_packetizer_with_pcr-first :
    byte_of (ts_packetizer_with_pcr counting 200 188 15 0x100 (some 600) true false) 13 ≡ 1
unfolding ts_packetizer_with_pcr in_array timed_room timed_loop timed_shape timed_header shape_pcr
    shape_plain cons_packet
ts_packetizer_with_pcr-first = refl

ts_packetizer_lem_example :
    (out : Packets) × (pad : ℕ) × (ts_packetizer counting 200 188 15 0x100 ≡ some out)
    × IsPacked counting 200 0x100 15 0 true pad out
ts_packetizer_lem_example =
    ts_packetizer_lem counting 200 15 0x100 (omega arith) (omega arith) (omega arith) (omega arith)

ts_packetizer_with_pcr_lem_example :
    (out : Packets) × (ts_packetizer_with_pcr counting 200 188 15 0x100 (some 600) true false
      ≡ some out)
    × IsTimed counting 200 0x100 15 0 true out
ts_packetizer_with_pcr_lem_example =
    ts_packetizer_with_pcr_lem counting 200 15 0x100 (some 600) true false (omega arith)
      (omega arith) (omega arith)

ts_packetizer_with_pcr-scr_example :
    (first : Pointer) × (others : List Pointer) × (counter : ℕ) × (ts_packetizer_with_pcr counting
        200 188 15 0x100
        (some 600)
        true
        false
      ≡ some (record { packets = first ∷ others; cc = counter }))
    × (scr first ≡ some 600)
ts_packetizer_with_pcr-scr_example =
    ts_packetizer_with_pcr-scr counting 200 15 0x100 600 true false (omega arith) (omega arith)
      (omega arith) (omega arith)
