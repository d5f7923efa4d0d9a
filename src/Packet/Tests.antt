-- ===== src/Packet/Tests.antt =====
-- Runs on packets, and the theorems of the packet modules at concrete packets.
use mathlib.Core.Logic.{◌↔◌}
use libltntstools.Base.{
  ℕ, ◌<◌, ◌+◌, ◌-◌, ◌%◌, ◌≡◌, refl, arith, if◌then◌else◌, u8, u64, ◌==◌, some, [], ◌∷◌,
}
use libltntstools.Packet.{Pointer, pointer_to, pid}
use libltntstools.Packet.Pcr.{pcr_to_scr, pcr_pack_to, pcr_to_scr-pcr_pack_to}
use libltntstools.Packet.Counter.{
  IsExpected, generate_packet_with_64b_counter, verify_packet_with_64b_counter, verify-generate,
}
use libltntstools.Packet.Search.{
  HasSync, HasHeader, first_match, find_sync_position, contains_pes_header_reverse,
  find_sync_position_iff, contains_pes_header_reverse_iff,
}

abbrev blank : Pointer
blank i = 0

-- The header of a packet with pid 0x100, its unit start set, and counter 5.
abbrev header : Pointer
header = pointer_to (0x47 ∷ 0x41 ∷ 0x00 ∷ 0x15 ∷ []) 0

pid-header : pid header ≡ 0x100
unfolding pid
pid-header = refl

pcr_to_scr-pcr_pack_to_example : pcr_to_scr (λ i. pcr_pack_to blank 6 123456789 (6 + i)) ≡ 123456789
pcr_to_scr-pcr_pack_to_example = pcr_to_scr-pcr_pack_to blank 123456789 (omega arith)

blank-IsExpected : IsExpected blank
blank-IsExpected = IsExpected.unset (λ i. refl)

verify-generate_example :
    (out : Pointer) × (generate_packet_with_64b_counter blank 188 0x31 3 1000
      ≡ some (out, u8 (3 + 1)))
    × (let v = verify_packet_with_64b_counter blank out 188 0x31 999 in
        (v.passed ≡ (u64 (999 + 1) == 1000))
        × (v.current_counter ≡ some 1000)
        × IsExpected v.verify_packet)
verify-generate_example =
    verify-generate blank blank 188 0x31 3 1000 999 blank-IsExpected (omega arith) (omega arith)
      (omega arith)

-- A buffer with a sync byte at 2, 190 and 378.
abbrev stream : Pointer
stream i = if i % 188 == 2 then 0x47 else 0

find_sync_position_iff_example :
    (find_sync_position stream 564 ≡ some 2)
    ↔ ((2 < 188) × HasSync stream 2 × ((j : ℕ) → j < 2 → ¬ HasSync stream j))
find_sync_position_iff_example = find_sync_position_iff stream 564 2 (omega arith)

find_sync_position_runs : find_sync_position stream 564 ≡ some 2
unfolding find_sync_position first_match
find_sync_position_runs = refl

-- 9 0 0 1
abbrev tail : Pointer
tail = pointer_to (9 ∷ 0 ∷ 0 ∷ 1 ∷ []) 0

contains_pes_header_reverse_iff_example :
    (contains_pes_header_reverse tail 4 ≡ some 1)
    ↔ ((1 < 4 + 1 - 3) × HasHeader tail 1 × ((j : ℕ) → 1 < j → j < 4 + 1 - 3 → ¬ HasHeader tail j))
contains_pes_header_reverse_iff_example = contains_pes_header_reverse_iff tail 4 1
