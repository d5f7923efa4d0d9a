-- ===== src/Rtp.antt =====
-- src/rtp-analyzer.c: the checks of each RTP header against the last one, and the search for RTP
-- frames in a buffer. The histograms that `rtp_hdr_write` also feeds are left out; the header's
-- `seq` and `ts` are the values that ntohs and ntohl give.
pub mod Count
pub mod Frames
mod Tests
use libltntstools.Base.{
  ℕ, zero, suc, ◌+◌, ◌-◌, ◌*◌, ◌/◌, ◌%◌, ◌^◌, ltb, leb, ◌==◌, ◌!=◌, ◌&&◌, ◌||◌, not, if◌then◌else◌,
  u32, u64, Bool, true, false, List, [], ◌∷◌, ◌++◌,
}
use libltntstools.Base.Int.{ℤ, pos, negsuc, pos_part}
use libltntstools.Packet.{Pointer}
use libltntstools.Packet.Clock.{pts_diff}

pub record RtpHdr : Type 0 where
  pub version : ℕ
  pub p : ℕ
  pub x : ℕ
  pub csrc_count : ℕ
  pub m : ℕ
  pub pt : ℕ
  pub seq : ℕ
  pub ts : ℕ
  pub ssrc : ℕ

pub record Analyzer : Type 0 where
  pub last : RtpHdr
  pub total_packets : ℕ
  pub total_frames : ℕ
  pub discontinuity_events : ℕ
  pub illegal_payload_type_events : ℕ
  pub illegal_2110_timestamp_movement_events : ℕ
  pub illegal_2110_timestamp_stall_events : ℕ
  pub illegal_ts_timestamp_movement_events : ℕ
  pub illegal_ts_timestamp_stall_events : ℕ
  pub illegal_ts_counter_movement_events : ℕ

-- `rtp_hdr_is_payload_type_valid`
pub is_payload_type_valid : RtpHdr → Bool
is_payload_type_valid hdr =
    if ltb hdr.pt 96 || ltb 127 hdr.pt then (if hdr.pt != 33 then false else true) else true

-- `rtp_hdr_is_continious`: its result; it also stores the header as the last one.
pub is_continuous : RtpHdr → RtpHdr → Bool
is_continuous last hdr =
    if ltb 0 last.seq then (if (last.seq + 1) % 65536 != hdr.seq then false else true) else true

-- An event counter.
abbrev pub tick : Bool → ℕ → ℕ
tick happened count = if happened then count + 1 else count

-- The movement of the clock in milliseconds.
abbrev pub ticks_of : RtpHdr → RtpHdr → ℕ
ticks_of last hdr = pos_part (pts_diff last.ts hdr.ts) / 90

-- `rtp_hdr_write`
pub rtp_hdr_write : Analyzer → RtpHdr → Analyzer
unfolding is_payload_type_valid is_continuous
rtp_hdr_write ctx hdr =
    let last = ctx.last in
    let started = last.ts != 0 in
    let ticks = ticks_of last hdr in
    record {
      last = hdr;
      total_packets = ctx.total_packets + 1;
      total_frames = tick (hdr.m != 0) ctx.total_frames;
      discontinuity_events = tick (not (is_continuous last hdr)) ctx.discontinuity_events;
      illegal_payload_type_events =
          tick (not (is_payload_type_valid hdr)) ctx.illegal_payload_type_events;
      illegal_2110_timestamp_movement_events =
          tick
            (started
              && ((last.ts != hdr.ts) && ((last.m == 0) && (leb 96 hdr.pt && leb hdr.pt 127))))
            ctx.illegal_2110_timestamp_movement_events;
      illegal_2110_timestamp_stall_events =
          tick (started && ((last.ts == hdr.ts) && (last.m == 1)))
            ctx.illegal_2110_timestamp_stall_events;
      illegal_ts_timestamp_movement_events =
          tick (started && (not (ticks == 0) && leb 3 ticks))
            ctx.illegal_ts_timestamp_movement_events;
      illegal_ts_timestamp_stall_events =
          tick (started && (ticks == 0)) ctx.illegal_ts_timestamp_stall_events;
      illegal_ts_counter_movement_events =
          -- `ctx->last` is the header itself by then.
          tick ((hdr.ts != 0) && ((hdr.seq != 0) && ltb hdr.seq hdr.seq))
            ctx.illegal_ts_counter_movement_events;
    }

-- `rtp_analyzer_reset`: the last header stays.
pub reset : Analyzer → Analyzer
reset ctx = record {
  last = ctx.last;
  total_packets = 0;
  total_frames = 0;
  discontinuity_events = 0;
  illegal_payload_type_events = 0;
  illegal_2110_timestamp_movement_events = 0;
  illegal_2110_timestamp_stall_events = 0;
  illegal_ts_timestamp_movement_events = 0;
  illegal_ts_timestamp_stall_events = 0;
  illegal_ts_counter_movement_events = 0;
}

-- `struct rtp_hdr` laid over the bytes at `i`, on a little-endian machine.
pub hdr_at : Pointer → ℕ → RtpHdr
hdr_at buf i = record {
  version = buf i / 64 % 4;
  p = buf i / 32 % 2;
  x = buf i / 16 % 2;
  csrc_count = buf i % 16;
  m = buf (i + 1) / 128 % 2;
  pt = buf (i + 1) % 128;
  seq = buf (i + 2) * 256 + buf (i + 3);
  ts = buf (i + 4) * 2 ^ 24 + buf (i + 5) * 2 ^ 16 + buf (i + 6) * 2 ^ 8 + buf (i + 7);
  ssrc = buf (i + 8) + buf (i + 9) * 2 ^ 8 + buf (i + 10) * 2 ^ 16 + buf (i + 11) * 2 ^ 24;
}

-- The tests of `rtp_frame_queryPositions` at position `i`.
pub is_frame : Pointer → ℕ → ℕ → Bool
unfolding hdr_at
is_frame buf ssrc i =
    let hdr = hdr_at buf i in
    (hdr.version == 2)
    && ((hdr.pt == 33)
        && (not (hdr.x == 1)
            && ((hdr.csrc_count == 0)
                && ((hdr.ssrc == ssrc)
                    && ((buf (i + 12) == 0x47)
                        && ((buf (i + 12 + 188) == 0x47)
                            || ((buf (i + 12 + 188) / 2 ^ 6 == 2)
                                && (buf (i + 12 + 188 + 12) == 0x47))))))))

pub record Position : Type 0 where
  pub offset : ℕ
  pub length_bytes : ℕ
  pub frame : RtpHdr

-- The loop's array: each position found sets the length of the one before it.
pub found : List Position → Position → List Position
found [] p = p ∷ []
found (q ∷ []) p = record q { length_bytes = u32 (p.offset - q.offset) } ∷ p ∷ []
found (q ∷ r ∷ rs) p = q ∷ found (r ∷ rs) p

-- The loop from position `i`; `rounds` is no less than the positions that are left.
pub query_loop : ℕ → Pointer → ℕ → ℕ → ℕ → ℕ → List Position → List Position
unfolding is_frame found hdr_at
query_loop zero buf length_bytes addr ssrc i arr = arr
query_loop (suc rounds) buf length_bytes addr ssrc i arr =
    if ltb i (length_bytes - 2 * 188)
    then (if is_frame buf ssrc i
        then query_loop rounds buf length_bytes addr ssrc (i + (12 + 188))
            (found arr (record { offset = u64 (addr + i); length_bytes = 0; frame = hdr_at buf i }))
        else query_loop rounds buf length_bytes addr ssrc (i + 1) arr)
    else arr

-- `rtp_frame_queryPositions`, where realloc does not fail
pub query_positions : Pointer → ℕ → ℕ → ℕ → List Position
unfolding query_loop
query_positions buf length_bytes addr ssrc =
    query_loop (length_bytes + 1) buf length_bytes addr ssrc 0 []
