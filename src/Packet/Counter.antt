-- ===== src/Packet/Counter.antt =====
-- Packets that carry a 64-bit counter, made at one end of a link and verified at the other.
use libltntstools.Base.{
  ℕ, zero, suc, ◌+◌, ◌*◌, ◌/◌, ◌%◌, ◌^◌, ◌≤◌, ◌<◌, ◌≡◌, refl, sym, subst, ◌∙◌, ltb, ◌==◌, ◌!=◌,
  ◌&&◌, if◌then◌else◌, u8, u64, bit_and, bit_or, Bool, true, false, Option, none, some, arith,
  ==→eq,
}
use libltntstools.Base.Bits.{bit_and_mask, bit_or_sum}
use libltntstools.Base.Byte.{all_below, all_below_sound}
use libltntstools.Packet.{Pointer, poke, fill}

-- Eight bytes at `o`, the most significant first.
unfoldable pub put_counter : Pointer → ℕ → Pointer
put_counter pkt counter =
    let p₁ = poke (poke pkt 8 (u8 (counter / 2 ^ 56))) 9 (u8 (counter / 2 ^ 48)) in
    let p₂ = poke (poke p₁ 10 (u8 (counter / 2 ^ 40))) 11 (u8 (counter / 2 ^ 32)) in
    let p₃ = poke (poke p₂ 12 (u8 (counter / 2 ^ 24))) 13 (u8 (counter / 2 ^ 16)) in
    poke (poke p₃ 14 (u8 (counter / 2 ^ 8))) 15 (u8 counter)

-- The four bytes of the header that both functions below write.
unfoldable pub put_header : Pointer → ℕ → ℕ → Pointer
put_header pkt pid_nr cc =
    let p₁ = poke (poke pkt 0 0x47) 1 (bit_and pid_nr 0x1fff / 2 ^ 8) in
    poke (poke p₁ 2 (u8 pid_nr)) 3 (bit_or 0x10 (bit_and cc 0x0f))

-- `ltntstools_updatePacketWith64bCounter` at pointers that are not null: the packet and `*cc`.
unfoldable pub update_packet_with_64b_counter : Pointer → ℕ → ℕ → ℕ → ℕ → Option (Pointer × ℕ)
unfolding put_header put_counter
update_packet_with_64b_counter pkt length_bytes pid_nr cc counter =
    if ltb length_bytes 188
    then none
    else some (put_counter (put_header pkt pid_nr cc) counter, u8 (cc + 1))

-- `ltntstools_generatePacketWith64bCounter` at pointers that are not null.
unfoldable pub generate_packet_with_64b_counter : Pointer → ℕ → ℕ → ℕ → ℕ → Option (Pointer × ℕ)
unfolding put_header put_counter
generate_packet_with_64b_counter pkt length_bytes pid_nr cc counter =
    if ltb length_bytes 188
    then none
    else some (put_counter (put_header (fill pkt 0xff 188) pid_nr cc) counter, u8 (cc + 1))

-- memcmp(p + o, q + o, n) == 0
unfoldable pub same_bytes : Pointer → Pointer → ℕ → ℕ → Bool
same_bytes p q o zero = true
same_bytes p q o (suc n) = p o == q o && same_bytes p q (o + 1) n

unfoldable pub get_counter : Pointer → ℕ
get_counter pkt =
    let c₁ = bit_or (pkt 8 * 2 ^ 56) (pkt 9 * 2 ^ 48) in
    let c₂ = bit_or (bit_or c₁ (pkt 10 * 2 ^ 40)) (pkt 11 * 2 ^ 32) in
    let c₃ = bit_or (bit_or c₂ (pkt 12 * 2 ^ 24)) (pkt 13 * 2 ^ 16) in
    bit_or (bit_or c₃ (pkt 14 * 2 ^ 8)) (pkt 15)

-- What a call of the verification gives: the result, 0 or -1; `*currentCounter`, where it is
-- stored; and the static packet that the function compares with.
pub record Verified : Type 0 where
  pub passed : Bool
  pub current_counter : Option ℕ
  pub verify_packet : Pointer

-- The static packet is filled at the first call.
unfoldable pub expected_packet : Pointer → Pointer
expected_packet verify_packet =
    if verify_packet 0 == 0 then fill verify_packet 0xff 188 else verify_packet

-- `ltntstools_verifyPacketWith64bCounter` at pointers that are not null.
unfoldable pub verify_packet_with_64b_counter : Pointer → Pointer → ℕ → ℕ → ℕ → Verified
verify_packet_with_64b_counter verify_packet pkt length_bytes pid_nr last_counter =
    if ltb length_bytes 188
    then record { passed = false; current_counter = none; verify_packet = verify_packet }
    else (let expected = expected_packet verify_packet in
        let early : Verified = record {
          passed = false;
          current_counter = none;
          verify_packet = expected;
        } in
        if pkt 0 != 0x47
        then early
        else if pkt 1 != bit_and pid_nr 0x1fff / 2 ^ 8
        then early
        else if pkt 2 != pid_nr
        then early
        else if bit_and (pkt 3) 0xf0 != 0x10
        then early
        else (let current = get_counter pkt in
            if u64 (last_counter + 1) != current
            then record { passed = false; current_counter = some current; verify_packet = expected }
            else record {
              passed = same_bytes expected pkt 16 172;
              current_counter = some current;
              verify_packet = expected;
            }))

-- The static packet before the first call and after any.
pub data IsExpected (p : Pointer) : Type 0 where
  unset : ((i : ℕ) → p i ≡ 0) → IsExpected p
  ready : ((i : ℕ) → i < 188 → p i ≡ 0xff) → IsExpected p

same_bytes_refl :
    (p q : Pointer) (o n : ℕ)
    → ((i : ℕ) → o ≤ i → i < o + n → p i ≡ q i)
    → same_bytes p q o n ≡ true
unfolding same_bytes
same_bytes_refl p q o zero h = refl
same_bytes_refl p q o (suc n) h =
    ground (arith, h o, same_bytes_refl p q (o + 1) n (λ i a b. h i (omega arith) (omega arith)))

-- The counter comes back from its eight bytes.
pub get_counter-put_counter :
    (pkt : Pointer) (counter : ℕ)
    → counter < 2 ^ 64
    → get_counter (put_counter pkt counter) ≡ counter
unfolding get_counter put_counter
get_counter-put_counter pkt c h = ground (
  arith,
  bit_or_sum 56 (c / 2 ^ 56) (c / 2 ^ 48 % 256 * 2 ^ 48) (omega arith),
  bit_or_sum 48 (c / 2 ^ 48) (c / 2 ^ 40 % 256 * 2 ^ 40) (omega arith),
  bit_or_sum 40 (c / 2 ^ 40) (c / 2 ^ 32 % 256 * 2 ^ 32) (omega arith),
  bit_or_sum 32 (c / 2 ^ 32) (c / 2 ^ 24 % 256 * 2 ^ 24) (omega arith),
  bit_or_sum 24 (c / 2 ^ 24) (c / 2 ^ 16 % 256 * 2 ^ 16) (omega arith),
  bit_or_sum 16 (c / 2 ^ 16) (c / 2 ^ 8 % 256 * 2 ^ 8) (omega arith),
  bit_or_sum 8 (c / 2 ^ 8) (c % 256) (omega arith),
)

-- The packet that `generate_packet_with_64b_counter` makes.
abbrev made : Pointer → ℕ → ℕ → ℕ → Pointer
made pkt pid_nr cc counter = put_counter (put_header (fill pkt 0xff 188) pid_nr cc) counter

made_bytes :
    (pkt : Pointer) (pid_nr cc counter : ℕ)
    → (made pkt pid_nr cc counter 0 ≡ 0x47)
      × (made pkt pid_nr cc counter 1 ≡ bit_and pid_nr 0x1fff / 2 ^ 8)
      × (made pkt pid_nr cc counter 2 ≡ pid_nr % 256)
      × (bit_and (made pkt pid_nr cc counter 3) 0xf0 ≡ 0x10)
unfolding put_counter put_header
made_bytes pkt pid_nr cc counter =
    (refl, refl, refl, high_nibble (bit_and cc 0x0f) (omega (arith, bit_and_mask 4 cc)))
  where
    high_nibble : (x : ℕ) → x < 16 → bit_and (bit_or 0x10 x) 0xf0 ≡ 0x10
    high_nibble x h = ==→eq _ _ (
        all_below_sound 16 (λ y. bit_and (bit_or 0x10 y) 0xf0 == 0x10) x (unfold all_below in refl)
          h)

made_payload :
    (pkt : Pointer) (pid_nr cc counter i : ℕ)
    → 16 ≤ i
    → i < 188
    → made pkt pid_nr cc counter i ≡ 0xff
unfolding put_counter put_header
made_payload pkt pid_nr cc counter i h k = ground arith

expected_full : (vp : Pointer) → IsExpected vp → (i : ℕ) → i < 188 → expected_packet vp i ≡ 0xff
unfolding expected_packet
expected_full vp (unset z) i h = ground (arith, z 0)
expected_full vp (ready r) i h = ground (arith, r 0, r i)

-- What the verification looks at before the counter and the payload.
abbrev HasHeader : Pointer → ℕ → ℕ → Type 0
HasHeader out pid_nr counter =
    (out 0 ≡ 0x47)
    × (out 1 ≡ bit_and pid_nr 0x1fff / 2 ^ 8)
    × (out 2 ≡ pid_nr)
    × (bit_and (out 3) 0xf0 ≡ 0x10)
    × (get_counter out ≡ counter)

module _ (vp out : Pointer) (length_bytes pid_nr : ℕ) where
  verify_passed :
      (counter last : ℕ)
      → 188 ≤ length_bytes
      → HasHeader out pid_nr counter
      → same_bytes (expected_packet vp) out 16 172 ≡ true
      → (verify_packet_with_64b_counter vp out length_bytes pid_nr last).passed
        ≡ (u64 (last + 1) == counter)
  unfolding verify_packet_with_64b_counter
  verify_passed counter last long h same = ground arith

  verify_current :
      (counter last : ℕ)
      → 188 ≤ length_bytes
      → HasHeader out pid_nr counter
      → (verify_packet_with_64b_counter vp out length_bytes pid_nr last).current_counter
        ≡ some counter
  unfolding verify_packet_with_64b_counter
  verify_current counter last long h = ground arith

  verify_keeps :
      (last : ℕ)
      → 188 ≤ length_bytes
      → (verify_packet_with_64b_counter vp out length_bytes pid_nr last).verify_packet
        ≡ expected_packet vp
  unfolding verify_packet_with_64b_counter
  verify_keeps last long = ground arith

-- A packet made for a pid of at most eight bits and a 64-bit counter passes the verification for
-- that pid exactly when the counter follows the last one, modulo 2 ^ 64, and the verification
-- reports the counter, whichever calls came before.
pub verify-generate :
    (verify_packet pkt : Pointer) (length_bytes pid_nr cc counter last_counter : ℕ)
    → IsExpected verify_packet
    → 188 ≤ length_bytes
    → pid_nr < 256
    → counter < 2 ^ 64
    → (out : Pointer) × (generate_packet_with_64b_counter pkt length_bytes pid_nr cc counter
        ≡ some (out, u8 (cc + 1)))
      × (let v =
            verify_packet_with_64b_counter verify_packet out length_bytes pid_nr last_counter in
          (v.passed ≡ (u64 (last_counter + 1) == counter))
          × (v.current_counter ≡ some counter)
          × IsExpected v.verify_packet)
verify-generate vp pkt length_bytes pid_nr cc counter last e long narrow fits = (
  made pkt pid_nr cc counter,
  unfold generate_packet_with_64b_counter in ground arith,
  (
    verify_passed vp out length_bytes pid_nr counter last long made_header payload,
    verify_current vp out length_bytes pid_nr counter last long made_header,
    subst IsExpected (sym (verify_keeps vp out length_bytes pid_nr last long))
        (IsExpected.ready (expected_full vp e)),
  ),
)
  where
    out : Pointer
    out = made pkt pid_nr cc counter

    made_header : HasHeader out pid_nr counter
    made_header =
        let b = made_bytes pkt pid_nr cc counter in
        (
          b.0,
          b.1,
          b.2 ∙ omega arith,
          b.3,
          get_counter-put_counter (put_header (fill pkt 0xff 188) pid_nr cc) counter fits,
        )

    payload : same_bytes (expected_packet vp) out 16 172 ≡ true
    payload = same_bytes_refl (expected_packet vp) out 16 172 (λ i a b.
        expected_full vp e i (omega arith)
        ∙ sym (made_payload pkt pid_nr cc counter i a (omega arith)))

-- No packet passes where the pid asked for needs more than eight bits: a byte is compared with it.
pub verify_rejects_wide_pid :
    (verify_packet pkt : Pointer) (length_bytes pid_nr last_counter : ℕ)
    → pkt 2 < 256
    → 256 ≤ pid_nr
    → (verify_packet_with_64b_counter verify_packet pkt length_bytes pid_nr last_counter).passed
      ≡ false
unfolding verify_packet_with_64b_counter
verify_rejects_wide_pid verify_packet pkt length_bytes pid_nr last_counter h k = ground arith
