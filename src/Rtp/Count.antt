-- ===== src/Rtp/Count.antt =====
-- What the counters of the analyzer stand for after any run of headers.
use libltntstools.Base.{
  ℕ, ◌+◌, ◌%◌, ◌≡◌, refl, ◌∙◌, arith, ltb, ◌!=◌, ◌&&◌, ◌||◌, not, if◌then◌else◌, Bool, true, false,
  List, [], ◌∷◌, length,
}
use libltntstools.Rtp.{RtpHdr, Analyzer, is_payload_type_valid, is_continuous, tick, rtp_hdr_write}

-- The headers of a stream written one after the other.
unfoldable pub write_all : Analyzer → List RtpHdr → Analyzer
unfolding rtp_hdr_write
write_all ctx [] = ctx
write_all ctx (h ∷ hs) = write_all (rtp_hdr_write ctx h) hs

unfoldable pub count_if : (RtpHdr → Bool) → List RtpHdr → ℕ
count_if test [] = 0
count_if test (h ∷ hs) = (if test h then 1 else 0) + count_if test hs

-- The places where the sequence number is not the next one, unless the last one is 0.
unfoldable pub gaps : RtpHdr → List RtpHdr → ℕ
gaps last [] = 0
gaps last (h ∷ hs) =
    (if (last.seq != 0) && (h.seq != (last.seq + 1) % 65536) then 1 else 0) + gaps h hs

-- Not the type of MPEG-TS, and outside the dynamic types.
abbrev pub has_odd_type : RtpHdr → Bool
has_odd_type h = (h.pt != 33) && (ltb h.pt 96 || ltb 127 h.pt)

tick-count : (b c : Bool) (n k : ℕ) → b ≡ c → tick b n + k ≡ n + ((if c then 1 else 0) + k)
tick-count true true n k e = omega arith
tick-count false false n k e = omega arith
tick-count true false n k e = ground (arith, e)
tick-count false true n k e = ground (arith, e)

module _ (last h : RtpHdr) where
  odd_type_lem : not (is_payload_type_valid h) ≡ has_odd_type h
  unfolding is_payload_type_valid
  odd_type_lem = ground arith

  gap_lem : not (is_continuous last h) ≡ (last.seq != 0) && (h.seq != (last.seq + 1) % 65536)
  unfolding is_continuous
  gap_lem = ground arith

  never_lem : (n : ℕ) → tick ((h.ts != 0) && ((h.seq != 0) && ltb h.seq h.seq)) n ≡ n
  never_lem n = ground arith

-- After any run of headers the analyzer has counted: the packets; the frames, by their marker; the
-- places where the sequence number is not one more than the last one modulo 65536, a last one of 0
-- excepted; and the payload types that are neither 33 nor dynamic. The counter of sequence numbers
-- that move back is where it was.
pub write_all_lem :
    (ctx : Analyzer) (hs : List RtpHdr)
    → let done = write_all ctx hs in
      (done.total_packets ≡ ctx.total_packets + length hs)
      × (done.total_frames ≡ ctx.total_frames + count_if (λ h. h.m != 0) hs)
      × (done.discontinuity_events ≡ ctx.discontinuity_events + gaps ctx.last hs)
      × (done.illegal_payload_type_events
          ≡ ctx.illegal_payload_type_events + count_if has_odd_type hs)
      × (done.illegal_ts_counter_movement_events ≡ ctx.illegal_ts_counter_movement_events)
unfolding write_all count_if gaps rtp_hdr_write
write_all_lem ctx [] = (omega arith, omega arith, omega arith, omega arith, refl)
write_all_lem ctx (h ∷ hs) =
    let (a, b, c, d, e) = write_all_lem (rtp_hdr_write ctx h) hs in
    (
      a ∙ omega arith,
      b ∙ tick-count (h.m != 0) (h.m != 0) ctx.total_frames (count_if (λ g. g.m != 0) hs) refl,
      c
          ∙ tick-count (not (is_continuous ctx.last h)) _ ctx.discontinuity_events (gaps h hs)
              (gap_lem ctx.last h),
      d
          ∙ tick-count (not (is_payload_type_valid h)) _ ctx.illegal_payload_type_events
              (count_if has_odd_type hs) (odd_type_lem ctx.last h),
      e ∙ never_lem ctx.last h ctx.illegal_ts_counter_movement_events,
    )
