-- ===== src/Rtp/Tests.antt =====
-- Runs of the RTP analyzer, and its theorems at concrete headers.
use libltntstools.Base.{
  ℕ, ◌+◌, ◌≡◌, refl, arith, ◌==◌, ◌!=◌, if◌then◌else◌, true, List, [], ◌∷◌, length,
}
use libltntstools.Packet.{Pointer}
use libltntstools.Rtp.{
  RtpHdr, Analyzer, hdr_at, is_frame, query_positions, rtp_hdr_write, is_continuous,
  is_payload_type_valid,
}
use libltntstools.Rtp.Count.{write_all, count_if, gaps, has_odd_type, write_all_lem}
use libltntstools.Rtp.Frames.{IsChain, query_positions-IsChain}

abbrev header : ℕ → ℕ → RtpHdr
header seq pt = record {
  version = 2;
  p = 0;
  x = 0;
  csrc_count = 0;
  m = 0;
  pt = pt;
  seq = seq;
  ts = 90000;
  ssrc = 1;
}

abbrev started : Analyzer
started = record {
  last = header 7 33;
  total_packets = 1;
  total_frames = 0;
  discontinuity_events = 0;
  illegal_payload_type_events = 0;
  illegal_2110_timestamp_movement_events = 0;
  illegal_2110_timestamp_stall_events = 0;
  illegal_ts_timestamp_movement_events = 0;
  illegal_ts_timestamp_stall_events = 0;
  illegal_ts_counter_movement_events = 0;
}

-- A sequence number that moves back is a discontinuity and nothing else.
moved_back : (rtp_hdr_write started (header 3 33)).discontinuity_events ≡ 1
unfolding rtp_hdr_write is_continuous is_payload_type_valid
moved_back = refl

abbrev run : List RtpHdr
run = header 8 33 ∷ header 10 40 ∷ header 3 96 ∷ []

write_all_lem_example :
    let done = write_all started run in
    (done.total_packets ≡ 1 + length run)
    × (done.total_frames ≡ 0 + count_if (λ h. h.m != 0) run)
    × (done.discontinuity_events ≡ 0 + gaps (header 7 33) run)
    × (done.illegal_payload_type_events ≡ 0 + count_if has_odd_type run)
    × (done.illegal_ts_counter_movement_events ≡ 0)
write_all_lem_example = write_all_lem started run

-- One frame of one packet, and a frame behind it.
abbrev stream : Pointer
stream i =
    if i == 0
    then 0x80
    else if i == 1
    then 33
    else if i == 8
    then 1
    else if i == 12
    then 0x47
    else if i == 200
    then 0x80
    else if i == 212
    then 0x47
    else 0

stream-frame : is_frame stream 1 0 ≡ true
unfolding is_frame hdr_at
stream-frame = refl

query_positions-IsChain_example : IsChain stream 600 4096 1 (query_positions stream 600 4096 1)
query_positions-IsChain_example = query_positions-IsChain stream 600 4096 1 (omega arith)
