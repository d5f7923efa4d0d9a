-- ===== src/Stats.antt =====
-- src/stats.c: the counts that a call with transport packets or a CTP frame keeps for each pid and for the
-- stream: packets, continuity counter errors, transport errors, scrambled packets and misplaced
-- unit starts. Times, rates, histograms, the PCR clocks and the callbacks are left out. The 64-bit
-- counts are written without their wrap, and an allocation always succeeds.
pub mod PerPid
pub mod Sequence
pub mod Call
pub mod Ctp
mod Tests
use libltntstools.Base.{
  ℕ, zero, suc, ◌+◌, ◌*◌, ◌%◌, ltb, leb, ◌==◌, ◌!=◌, ◌&&◌, ◌||◌, not, if◌then◌else◌, Bool, true,
  false, List, [], ◌∷◌, Option, none, some, bit_and,
}
use libltntstools.Packet.{
  Pointer, tei_set, payload_unit_start_indicator, pid, transport_scrambling_control,
  adaption_field_control, continuity_counter,
}

-- `struct ltntstools_pid_statistics_s`, its counts
pub record PidStats : Type 0 where
  pub pid_nr : ℕ
  pub enabled : ℕ
  pub packet_count : ℕ
  pub cc_errors : ℕ
  pub tei_errors : ℕ
  pub scrambled_count : ℕ
  pub payload_pusi_errors : ℕ
  pub last_cc : ℕ

-- `struct ltntstools_stream_statistics_s`, its counts and its table of pids
pub record StreamStats : Type 0 where
  pub pids : ℕ → Option PidStats
  pub pid_array : ℕ → ℕ
  pub pid_array_count : ℕ
  pub packet_count : ℕ
  pub cc_errors : ℕ
  pub tei_errors : ℕ
  pub scrambled_count : ℕ
  pub payload_pusi_errors : ℕ
  pub sequence_number : ℕ
  pub not_multiple_of_seven_error : ℕ

abbrev pub max_pid : ℕ
max_pid = 8192

-- An event counter.
abbrev pub counted : Bool → ℕ → ℕ
counted happened count = if happened then count + 1 else count

-- `ltntstools_isCCInError`
unfoldable pub is_cc_in_error : Pointer → ℕ → Bool
is_cc_in_error pkt old_cc =
    let adap = adaption_field_control pkt in
    let cc = continuity_counter pkt in
    if (adap == 0 || adap == 2) && (old_cc == cc)
    then false
    else if (adap == 1 || adap == 3) && (old_cc == cc)
    then true
    else if bit_and (old_cc + 1) 0x0f == cc
    then false
    else true

-- `ltntstools_isPayloadPUSIInError`
unfoldable pub is_payload_pusi_in_error : Pointer → Bool
is_payload_pusi_in_error pkt =
    let adap = adaption_field_control pkt in
    if (adap == 0 || adap == 2) && (payload_unit_start_indicator pkt != 0) then true else false

-- `ltntstools_pid_statistics_reset`: the pid's number stays.
unfoldable pub pid_statistics_reset : PidStats → PidStats
pid_statistics_reset s = record {
  pid_nr = s.pid_nr;
  enabled = 1;
  packet_count = 0;
  cc_errors = 0;
  tei_errors = 0;
  scrambled_count = 0;
  payload_pusi_errors = 0;
  last_cc = 0;
}

-- `ltntstools_pid_statistics_alloc`: the number in cleared memory, then the reset.
unfoldable pub pid_statistics_alloc : ℕ → PidStats
unfolding pid_statistics_reset
pid_statistics_alloc nr =
    let cleared : PidStats = record {
      pid_nr = nr;
      enabled = 0;
      packet_count = 0;
      cc_errors = 0;
      tei_errors = 0;
      scrambled_count = 0;
      payload_pusi_errors = 0;
      last_cc = 0;
    } in
    pid_statistics_reset cleared

-- `_pidArrayAdd`
unfoldable pub pid_array_add : StreamStats → ℕ → Option StreamStats
pid_array_add s nr =
    if leb max_pid s.pid_array_count
    then none
    else some (record s {
      pid_array = λ i. if i == s.pid_array_count then bit_and nr 0x1fff else s.pid_array i;
      pid_array_count = s.pid_array_count + 1;
    })

-- The continuity error that is counted: never one of a pid's first packet or of a null packet.
unfoldable pub counts_cc_error : PidStats → Pointer → Bool
unfolding is_cc_in_error
counts_cc_error p pkt =
    is_cc_in_error pkt p.last_cc && (ltb 1 (p.packet_count + 1) && (pid pkt != 0x1fff))

-- What `ltntstools_pid_stats_update` does to the record of the packet's pid.
unfoldable pub pid_count : PidStats → Pointer → PidStats
unfolding counts_cc_error is_payload_pusi_in_error
pid_count p pkt = record {
  pid_nr = p.pid_nr;
  enabled = 1;
  packet_count = p.packet_count + 1;
  cc_errors = counted (counts_cc_error p pkt) p.cc_errors;
  tei_errors = counted (tei_set pkt != 0) p.tei_errors;
  scrambled_count = counted (transport_scrambling_control pkt != 0) p.scrambled_count;
  payload_pusi_errors = counted (is_payload_pusi_in_error pkt) p.payload_pusi_errors;
  last_cc = continuity_counter pkt;
}

-- `stream->internal_pids[nr] = p`
abbrev pub with_pid : (ℕ → Option PidStats) → ℕ → PidStats → ℕ → Option PidStats
with_pid pids nr p i = if i == nr then some p else pids i

-- A packet of a pid whose record is `p`.
unfoldable pub packet_count_known : StreamStats → PidStats → Pointer → StreamStats
unfolding pid_count counts_cc_error is_payload_pusi_in_error
packet_count_known s p pkt = record {
  pids = with_pid s.pids (pid pkt) (pid_count p pkt);
  pid_array = s.pid_array;
  pid_array_count = s.pid_array_count;
  packet_count = s.packet_count;
  cc_errors = counted (counts_cc_error p pkt) s.cc_errors;
  tei_errors = counted (tei_set pkt != 0) s.tei_errors;
  scrambled_count = counted (transport_scrambling_control pkt != 0) s.scrambled_count;
  payload_pusi_errors = counted (is_payload_pusi_in_error pkt) s.payload_pusi_errors;
  sequence_number = s.sequence_number;
  not_multiple_of_seven_error = s.not_multiple_of_seven_error;
}

-- A packet of a pid that is new, with the result of `_pidArrayAdd`.
unfoldable pub packet_arrive : Option StreamStats → StreamStats → Pointer → StreamStats
unfolding packet_count_known pid_statistics_alloc
packet_arrive none s pkt = s
packet_arrive (some added) s pkt = packet_count_known added (pid_statistics_alloc (pid pkt)) pkt

unfoldable pub packet_step_at : Option PidStats → StreamStats → Pointer → StreamStats
unfolding packet_arrive packet_count_known pid_array_add
packet_step_at (some p) s pkt = packet_count_known s p pkt
packet_step_at none s pkt = packet_arrive (pid_array_add s (pid pkt)) s pkt

-- One packet in the second loop of `ltntstools_pid_stats_update`.
unfoldable pub packet_step : StreamStats → Pointer → StreamStats
unfolding packet_step_at
packet_step s pkt = packet_step_at (s.pids (pid pkt)) s pkt

unfoldable pub packets_loop : StreamStats → List Pointer → StreamStats
unfolding packet_step
packets_loop s [] = s
packets_loop s (pkt ∷ rest) = packets_loop (packet_step s pkt) rest

-- The first loop: a packet without its sync byte is a continuity error of the stream. The second loop
-- takes it like any other.
unfoldable pub count_sync : StreamStats → List Pointer → StreamStats
count_sync s [] = s
count_sync s (pkt ∷ rest) =
    let sync = pkt 0 == 0x47 in
    count_sync
      (record s {
        packet_count = counted sync s.packet_count;
        cc_errors = counted (not sync) s.cc_errors;
      })
      rest

-- The `n` packets of 188 bytes at `pkts`.
unfoldable pub packets_at : Pointer → ℕ → List Pointer
packets_at pkts zero = []
packets_at pkts (suc n) = pkts ∷ packets_at (λ i. pkts (188 + i)) n

abbrev pub not_multiple_of_seven : StreamStats → ℕ → StreamStats
not_multiple_of_seven s n = record s {
  not_multiple_of_seven_error = counted (n != 7) s.not_multiple_of_seven_error;
}

-- `ltntstools_pid_stats_update`
unfoldable pub pid_stats_update : StreamStats → Pointer → ℕ → StreamStats
unfolding packets_loop count_sync packets_at
pid_stats_update s pkts n =
    let packets = packets_at pkts n in
    packets_loop (count_sync (not_multiple_of_seven s n) packets) packets

-- `ltntstools_pid_stats_pid_get_cc_errors`, on the entry it looks up
abbrev pub cc_errors_of : Option PidStats → ℕ
cc_errors_of none = 0
cc_errors_of (some p) = p.cc_errors

unfoldable pub pid_get_cc_errors : StreamStats → ℕ → ℕ
pid_get_cc_errors s nr = cc_errors_of (s.pids (bit_and nr 0x1fff))
