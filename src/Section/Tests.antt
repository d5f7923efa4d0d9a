-- ===== src/Section/Tests.antt =====
-- The section extractor at concrete packets.
use libltntstools.Base.{
  ℕ, ◌+◌, ◌≤◌, ◌≡◌, refl, arith, true, false, Option, none, some, List, [], ◌∷◌, ◌++◌, length, take,
  drop, replicate, subst, ap,
}
use libltntstools.Base.Int.{pos, negsuc}
use libltntstools.Crc.{check_crc32}
use libltntstools.Packet.{
  Pointer, pointer_to, sync_present, pid, has_adaption, payload_unit_start_indicator,
}
use libltntstools.Section.{
  Extractor, Written, alloc, announced, section_offset, write_packet, write, query, answer,
}
use libltntstools.Section.Collect.{IsPlain, IsIdle, IsWhole}
use libltntstools.Section.Whole.{Carries, write-IsWhole, query-IsWhole}
use libltntstools.Section.Bounds.{IsSane, IsShort, write_packet-IsSane}

abbrev idle : Extractor
idle = alloc (λ n. replicate n 0) 0x100 0xfc

-- 190 bytes.
abbrev long_section : List ℕ
long_section = 0xfc ∷ 0x30 ∷ 0xbb ∷ replicate 187 1

abbrev two_packets : Pointer
two_packets =
    pointer_to
      ((0x47 ∷ 0x41 ∷ 0x00 ∷ 0x10 ∷ 0x00 ∷ take 183 long_section)
        ++ (0x47 ∷ 0x01 ∷ 0x00 ∷ 0x11 ∷ drop 183 long_section)
        ++ replicate 177 0xff)
      0

abbrev first_packet : Written
first_packet = record {
  ret = pos 183;
  ctx = record idle {
    appending = true;
    section = take 183 long_section ++ replicate 3913 0;
    section_length = 190;
    section_length_current = 183;
  };
  is_complete = false;
  crc_valid = false;
}

idle-IsIdle : IsIdle idle
idle-IsIdle = record { allocated = refl; idle = refl; incomplete = refl }

first-IsPlain : IsPlain 0x100 two_packets 1
unfolding sync_present pid has_adaption payload_unit_start_indicator
first-IsPlain = record { synced = refl; of_pid = refl; payload_only = refl; start_flag = refl }

second-IsPlain : IsPlain 0x100 (λ i. two_packets (188 + i)) 0
unfolding sync_present pid has_adaption payload_unit_start_indicator
second-IsPlain = record { synced = refl; of_pid = refl; payload_only = refl; start_flag = refl }

carried : Carries idle long_section 1 two_packets
carried = record {
  plain = first-IsPlain;
  pointer_field = refl;
  table = refl;
  length_field = refl;
  short = omega arith;
  first = refl;
  others = (omega arith, second-IsPlain, refl, refl);
}

write-IsWhole_example :
    (w : Written) × (write idle two_packets 2 false ≡ some w) × IsWhole long_section w
write-IsWhole_example = write-IsWhole idle long_section 1 two_packets false idle-IsIdle carried

-- 7 bytes.
abbrev short_section : List ℕ
short_section = 0xfc ∷ 0x00 ∷ 0x04 ∷ 0x11 ∷ 0x25 ∷ 0xe7 ∷ 0x28 ∷ []

abbrev finished : Extractor
finished = record idle {
  complete = true;
  section = short_section ++ replicate 4089 0;
  section_length = 7;
  section_length_current = 7;
}

-- A packet of the pid behind the whole section, in the same call, clears the state, and `*crcValid`
-- with it.
crc_forgotten :
    write_packet finished (λ i. two_packets (188 + i)) true
    ≡ some (record {
      ret = negsuc 0;
      ctx = record finished { complete = false };
      is_complete = true;
      crc_valid = false;
    })
unfolding write_packet section_offset sync_present has_adaption payload_unit_start_indicator
crc_forgotten = refl

short_section-IsWhole : IsWhole short_section (record {
  ret = pos 7;
  ctx = finished;
  is_complete = true;
  crc_valid = check_crc32 (some short_section);
})
short_section-IsWhole = record {
  told = refl;
  finished = refl;
  idle = refl;
  length_told = refl;
  content = refl;
  checked = refl;
}

query-IsWhole_example :
    (bytes : List ℕ) × (query finished 4096
      ≡ answer bytes (record finished { complete = false; appending = false }))
    × (length bytes ≡ length short_section + 3)
    × (take (length short_section) bytes ≡ short_section)
query-IsWhole_example =
    query-IsWhole short_section
      (record {
        ret = pos 7;
        ctx = finished;
        is_complete = true;
        crc_valid = check_crc32 (some short_section);
      })
      4096 short_section-IsWhole refl (omega arith) (omega arith)

abbrev offset_of : Option ℕ → ℕ
offset_of none = 0
offset_of (some o) = o

idle-IsSane : IsSane idle
idle-IsSane = record { allocated = refl; inside = omega arith; short = omega arith }

first-IsShort : IsShort idle two_packets
unfolding section_offset has_adaption payload_unit_start_indicator
first-IsShort o synced e waiting fresh asked =
    subst (λ m. announced two_packets m ≤ 4096) {x = 5} {y = o} (ap offset_of e) (omega arith)

write_packet-IsSane_example :
    (v : Written) × (write_packet idle two_packets false ≡ some v) × IsSane v.ctx
write_packet-IsSane_example = write_packet-IsSane idle two_packets false idle-IsSane first-IsShort
