-- ===== src/Crc/Tests.antt =====
-- Runs of the CRC, and its theorems at a concrete section.
use mathlib.Core.Logic.{◌↔◌}
use libltntstools.Base.{ℕ, ◌≡◌, refl, arith, true, some, List, [], ◌∷◌, ◌++◌}
use libltntstools.Crc.{crc32_table, crc_step, crc_loop, check_crc32, get_crc32}
use libltntstools.Crc.Serial.{serial}
use libltntstools.Crc.Equiv.{crc_loop-eq-serial}
use libltntstools.Crc.Detect.{check_crc32_iff, word_of}

-- A program association section with one program, without its CRC.
abbrev section : List ℕ
section = 0x00 ∷ 0xb0 ∷ 0x0d ∷ 0x00 ∷ 0x01 ∷ 0xc1 ∷ 0x00 ∷ 0x00 ∷ 0x00 ∷ 0x01 ∷ 0xe1 ∷ 0x00 ∷ []

get_crc32_runs : get_crc32 (some section) ≡ some 0xe8f95e7d
unfolding get_crc32 crc_loop crc_step crc32_table
get_crc32_runs = refl

check_crc32_runs : check_crc32 (some (section ++ 0xe8 ∷ 0xf9 ∷ 0x5e ∷ 0x7d ∷ [])) ≡ true
unfolding check_crc32 crc_loop crc_step crc32_table
check_crc32_runs = refl

crc_loop-eq-serial_example : crc_loop 0xffffffff section ≡ serial 0xffffffff section
crc_loop-eq-serial_example = crc_loop-eq-serial 0xffffffff section (omega arith) (omega arith)

check_crc32_iff_example :
    (check_crc32 (some (section ++ 0xe8 ∷ 0xf9 ∷ 0x5e ∷ 0x7d ∷ [])) ≡ true)
    ↔ (get_crc32 (some section) ≡ some (word_of 0xe8 0xf9 0x5e 0x7d))
check_crc32_iff_example =
    check_crc32_iff section 0xe8 0xf9 0x5e 0x7d (omega arith) (omega arith) (omega arith)
