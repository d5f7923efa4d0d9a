-- ===== src/Packetizer/Payload.antt =====
-- What a receiver reads from a run of packets: their headers in order, and their payloads joined.
use libltntstools.Base.{
  ◌*◌, ◌≤◌, length, some, arith, ℕ, ◌+◌, ◌-◌, ◌%◌, ◌≡◌, ◌++◌, if◌then◌else◌, Bool, ◌==◌, ◌<◌, ==→eq,
  refl, bit_or, true, false, List, [], ◌∷◌,
}
use libltntstools.Base.Table.{table}
use libltntstools.Base.Byte.{all_below, all_below_sound}
use libltntstools.Packetizer.{Packets, in_array}
use libltntstools.Packet.{
  Pointer, sync_present, payload_unit_start_indicator, pid, has_adaption, adaption_field_length,
  continuity_counter,
}

-- Where the payload of a packet starts, by ISO 13818-1: behind the header and the adaptation field.
unfoldable pub payload_start : Pointer → ℕ
payload_start p = if has_adaption p then 5 + adaption_field_length p else 4

unfoldable pub payload : Pointer → List ℕ
unfolding payload_start
payload p = table (188 - payload_start p) (λ i. p (payload_start p + i))

unfoldable pub payloads : List Pointer → List ℕ
payloads [] = []
payloads (p ∷ ps) = payload p ++ payloads ps

-- The headers of a run of packets of one pid: sync bytes, the counter going up by one modulo 16,
-- and the unit start set in the first packet only.
abbrev pub IsRun : ℕ → ℕ → Bool → List Pointer → Type 0
IsRun pid_nr cc first [] = Unit {0}
IsRun pid_nr cc first (p ∷ ps) =
    (sync_present p ≡ true)
    × (pid p ≡ pid_nr)
    × (continuity_counter p ≡ cc % 16)
    × (payload_unit_start_indicator p ≡ (if first then 1 else 0))
    × IsRun pid_nr ((cc + 1) % 16) false ps

-- The unit start joined to the upper bits of a pid.
pub with_start : (x : ℕ) → x < 32 → bit_or x 0x40 ≡ x + 64
with_start x h =
    ==→eq _ _ (all_below_sound 32 (λ y. bit_or y 0x40 == y + 64) x (unfold all_below in refl) h)

pub in_array-inside :
    (room limit : ℕ) (out : Packets)
    → length out.packets ≤ room
    → (length out.packets - 1) * 188 < limit
    → in_array room limit (some out) ≡ some out
unfolding in_array
in_array-inside room limit out h k = ground (arith, h, k)
