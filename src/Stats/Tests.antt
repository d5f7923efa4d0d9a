-- ===== src/Stats/Tests.antt =====
-- Calls with a few packets.
use libltntstools.Base.{
  zero, suc, ◌%◌, ◌≤◌, ℕ, ◌+◌, ◌≡◌, refl, ◌==◌, if◌then◌else◌, [], ◌∷◌, none, some, arith, get_or,
}
use libltntstools.Packet.{Pointer}
use libltntstools.Stats.{
  PidStats, StreamStats, packets_loop, packets_at, pid_stats_update, pid_get_cc_errors,
}
use libltntstools.Stats.PerPid.{track, packets_loop-track}
use libltntstools.Stats.Sequence.{breaks}
use libltntstools.Stats.Ctp.{sequence_of, ctp_run, ctp_run-losses}
use libltntstools.Stats.Call.{pid_stats_update-breaks}

-- A packet of the pid with the byte that holds the counter.
abbrev packet : ℕ → ℕ → Pointer
packet nr b i = get_or (0x47 ∷ 0 ∷ nr ∷ b ∷ []) i 0

abbrev video : PidStats
video = record {
  pid_nr = 0x31;
  enabled = 1;
  packet_count = 4;
  cc_errors = 2;
  tei_errors = 0;
  scrambled_count = 0;
  payload_pusi_errors = 0;
  last_cc = 15;
}

abbrev stream : StreamStats
stream = record {
  pids = λ i. if i == 0x31 then some video else none;
  pid_array = λ i. 0x31;
  pid_array_count = 1;
  packet_count = 4;
  cc_errors = 2;
  tei_errors = 0;
  scrambled_count = 0;
  payload_pusi_errors = 0;
  sequence_number = 65535;
  not_multiple_of_seven_error = 0;
}

-- Two packets of pid 0x31 with the counters 0 and 2.
abbrev buffer : Pointer
buffer i =
    if i == 0
    then 0x47
    else if i == 2
    then 0x31
    else if i == 3
    then 0x10
    else if i == 188
    then 0x47
    else if i == 190
    then 0x31
    else if i == 191
    then 0x12
    else 0

one_skipped : pid_get_cc_errors (pid_stats_update stream buffer 2) 0x31 ≡ 3
unfolding pid_get_cc_errors pid_stats_update libltntstools.Packet.pid
    libltntstools.Packet.adaption_field_control libltntstools.Packet.continuity_counter
one_skipped = refl

packets_loop-track_example :
    (packets_loop stream (packet 0x31 0x10 ∷ packet 0x32 0x15 ∷ [])).pids 0x32
    ≡ track 0x32 none (packet 0x31 0x10 ∷ packet 0x32 0x15 ∷ [])
packets_loop-track_example =
    packets_loop-track (packet 0x31 0x10 ∷ packet 0x32 0x15 ∷ []) stream 0x32 (omega arith)

pid_stats_update-breaks_example :
    pid_get_cc_errors (pid_stats_update stream buffer 2) 0x31
    ≡ 2 + breaks 0x31 15 (packets_at buffer 2)
pid_stats_update-breaks_example =
    pid_stats_update-breaks stream buffer 2 0x31 video (omega arith) (ground arith) refl
      (omega arith) (omega arith)

-- Frames with the numbers 2, 3, 4, and so on, up to 255.
abbrev frame : ℕ → Pointer
frame n i = if i == 3 then (2 + n) % 256 else 0

frame-numbers : (i : ℕ) → i ≤ 2 → sequence_of (frame i) ≡ (65535 + 1 + 2 + i) % 65536
frame-numbers zero h = refl
frame-numbers (suc zero) h = refl
frame-numbers (suc (suc zero)) h = refl
frame-numbers (suc (suc (suc i))) h = omega arith

ctp_run-losses_example : (ctp_run stream 1316 frame 3).cc_errors ≡ 3
ctp_run-losses_example =
    ctp_run-losses stream 1316 frame 2 2 (omega arith) (omega arith) (omega arith) (omega arith)
      frame-numbers
