-- ===== src/Stats/Ctp.antt =====
-- src/stats.c: the check of the sequence numbers of CTP frames.
use libltntstools.Base.{
  ℕ, zero, suc, ◌+◌, ◌*◌, ◌%◌, ◌^◌, ◌≤◌, ◌<◌, ◌≡◌, refl, sym, ap, subst, ◌∙◌, ltb, ◌==◌, ◌!=◌, ◌&&◌,
  if◌then◌else◌, bit_and, bit_or, false, arith, u16,
}
use libltntstools.Base.Bits.{bit_and_mask}
use libltntstools.Packet.{Pointer}
use libltntstools.Stats.{StreamStats, counted}

-- `*(buf + 2) << 8 | *(buf + 3)`, stored in 16 bits
abbrev pub sequence_of : Pointer → ℕ
sequence_of buf = u16 (bit_or (buf 2 * 2 ^ 8) (buf 3))

-- A frame that is long enough to have a sequence number.
unfoldable pub ctp_count : StreamStats → ℕ → StreamStats
ctp_count s sequence = record s {
  cc_errors =
      counted ((bit_and (s.sequence_number + 1) 0xffff != sequence) && (s.packet_count != 0))
        s.cc_errors;
  sequence_number = sequence;
  packet_count = s.packet_count + 1;
}

-- The count of frames that are not seven packets.
abbrev with_length : StreamStats → ℕ → StreamStats
with_length s length_bytes = record s {
  not_multiple_of_seven_error = counted (length_bytes != 7 * 188) s.not_multiple_of_seven_error;
}

-- `ltntstools_ctp_stats_update`
unfoldable pub ctp_stats_update : StreamStats → Pointer → ℕ → StreamStats
unfolding ctp_count
ctp_stats_update s buf length_bytes =
    let seven = with_length s length_bytes in
    if ltb length_bytes 4 then seven else ctp_count seven (sequence_of buf)

-- One call for each of the first `n` frames.
unfoldable pub ctp_run : StreamStats → ℕ → (ℕ → Pointer) → ℕ → StreamStats
unfolding ctp_stats_update
ctp_run s length_bytes frame zero = s
ctp_run s length_bytes frame (suc n) =
    ctp_stats_update (ctp_run s length_bytes frame n) (frame n) length_bytes

abbrev pub one_if_any : ℕ → ℕ
one_if_any lost = if lost == 0 then 0 else 1

ctp_errors :
    (last packets sequence lost errors : ℕ)
    → last < 65536
    → lost < 65536
    → 1 ≤ packets
    → sequence ≡ (last + 1 + lost) % 65536
    → counted ((bit_and (last + 1) 0xffff != sequence) && (packets != 0)) errors
      ≡ errors + one_if_any lost
ctp_errors last packets sequence lost errors h l p e = ground (arith, bit_and_mask 16 (last + 1))

ctp_stats_update-long :
    (t : StreamStats) (buf : Pointer) (length_bytes : ℕ)
    → 4 ≤ length_bytes
    → ctp_stats_update t buf length_bytes ≡ ctp_count (with_length t length_bytes) (sequence_of buf)
unfolding ctp_stats_update
ctp_stats_update-long t buf length_bytes long =
    ap
      (λ b.
        if b
        then with_length t length_bytes
        else ctp_count (with_length t length_bytes) (sequence_of buf))
      {x = ltb length_bytes 4} {y = false} (ground arith)

module _ (s : StreamStats) (length_bytes : ℕ) (frame : ℕ → Pointer) (lost : ℕ)
    (long : 4 ≤ length_bytes) where
  Counts : StreamStats → ℕ → Type 0
  Counts t n =
      (1 ≤ t.packet_count)
      × (t.sequence_number ≡ (s.sequence_number + 1 + lost + n) % 65536)
      × (t.cc_errors ≡ s.cc_errors + one_if_any lost)

  count-Counts :
      (t : StreamStats) (n gap : ℕ) (sequence : ℕ)
      → 1 ≤ t.packet_count
      → t.sequence_number < 65536
      → gap < 65536
      → sequence ≡ (t.sequence_number + 1 + gap) % 65536
      → sequence ≡ (s.sequence_number + 1 + lost + n) % 65536
      → t.cc_errors + one_if_any gap ≡ s.cc_errors + one_if_any lost
      → Counts (ctp_count t sequence) n
  unfolding Counts ctp_count
  count-Counts t n gap sequence p h g e place errors = (
    omega arith,
    place,
    ctp_errors t.sequence_number t.packet_count sequence gap t.cc_errors h g p e ∙ errors,
  )

  run-Counts :
      (n : ℕ)
      → 1 ≤ s.packet_count
      → s.sequence_number < 65536
      → lost < 65536
      → ((i : ℕ) → i ≤ n → sequence_of (frame i) ≡ (s.sequence_number + 1 + lost + i) % 65536)
      → Counts (ctp_run s length_bytes frame (suc n)) n
  unfolding ctp_run Counts
  run-Counts zero p h l numbered =
      subst (λ u. Counts u 0) (sym (ctp_stats_update-long s (frame 0) length_bytes long))
        (count-Counts (with_length s length_bytes) 0 lost (sequence_of (frame 0)) p h l
          (numbered 0 (omega arith) ∙ ap (λ k. k % 65536) (omega arith)) (numbered 0 (omega arith))
          refl)
  run-Counts (suc n) p h l numbered =
      let t = ctp_run s length_bytes frame (suc n) in
      let before = run-Counts n p h l (λ i b. numbered i (omega arith)) in
      subst (λ u. Counts u (suc n))
        (sym (ctp_stats_update-long t (frame (suc n)) length_bytes long))
        (count-Counts (with_length t length_bytes) (suc n) 0 (sequence_of (frame (suc n))) before.0
          (omega (arith, before.1)) (omega arith)
          (numbered (suc n) (omega arith) ∙ omega (arith, before.1))
          (numbered (suc n) (omega arith)) (omega (arith, before.2)))

-- In calls with frames that are numbered one after the other modulo 65536, after a loss of `lost`
-- frames, fewer than 65536, behind the last frame before them, one error is counted for the loss
-- and none when nothing was lost, also where the numbers wrap. Each call has a sequence number to
-- read, and a frame has been counted before.
pub ctp_run-losses :
    (s : StreamStats) (length_bytes : ℕ) (frame : ℕ → Pointer) (lost n : ℕ)
    → 4 ≤ length_bytes
    → 1 ≤ s.packet_count
    → s.sequence_number < 65536
    → lost < 65536
    → ((i : ℕ) → i ≤ n → sequence_of (frame i) ≡ (s.sequence_number + 1 + lost + i) % 65536)
    → (ctp_run s length_bytes frame (suc n)).cc_errors ≡ s.cc_errors + one_if_any lost
unfolding Counts
ctp_run-losses s length_bytes frame lost n long started small few numbered =
    (run-Counts s length_bytes frame lost long n started small few numbered).2
