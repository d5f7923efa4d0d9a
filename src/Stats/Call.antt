-- ===== src/Stats/Call.antt =====
-- A whole call of `ltntstools_pid_stats_update`, and what the counts say after it.
use libltntstools.Base.{
  ℕ, zero, suc, ◌+◌, ◌≤◌, ◌<◌, ◌≡◌, ◌≢◌, refl, ap, ◌∙◌, List, [], ◌∷◌, some, arith, length,
}
use libltntstools.Base.Bits.{bit_and_mask}
use libltntstools.Packet.{Pointer}
use libltntstools.Stats.{
  PidStats, StreamStats, max_pid, not_multiple_of_seven, packets_loop, count_sync, packets_at,
  pid_stats_update, pid_get_cc_errors, cc_errors_of,
}
use libltntstools.Stats.Sequence.{breaks, packets_loop-breaks}

length-packets_at : (n : ℕ) (pkts : Pointer) → length (packets_at pkts n) ≡ n
unfolding packets_at
length-packets_at zero pkts = refl
length-packets_at (suc n) pkts = omega (arith, length-packets_at n (λ i. pkts (188 + i)))

count_sync-pids : (pkts : List Pointer) (s : StreamStats) → (count_sync s pkts).pids ≡ s.pids
unfolding count_sync
count_sync-pids [] s = refl
count_sync-pids (pkt ∷ rest) s = count_sync-pids rest _

count_sync-room :
    (pkts : List Pointer) (s : StreamStats)
    → (count_sync s pkts).pid_array_count ≡ s.pid_array_count
unfolding count_sync
count_sync-room [] s = refl
count_sync-room (pkt ∷ rest) s = count_sync-room rest _

-- After a call with `n` packets the continuity errors reported for a pid that has been seen before,
-- and is not the null pid, are those reported before and one for each of its packets whose
-- continuity counter does not follow that of the pid's packet before: a payload needs the next
-- counter, a packet without one may also repeat the last. Packets of other pids in between do not
-- matter, and a packet without its sync byte counts as one of the pid that its bytes name. The array of pids has room for `n` more.
pub pid_stats_update-breaks :
    (s : StreamStats) (pkts : Pointer) (n nr : ℕ) (p : PidStats)
    → nr < max_pid
    → nr ≢ 0x1fff
    → s.pids nr ≡ some p
    → 1 ≤ p.packet_count
    → s.pid_array_count + n ≤ max_pid
    → pid_get_cc_errors (pid_stats_update s pkts n) nr
      ≡ p.cc_errors + breaks nr p.last_cc (packets_at pkts n)
unfolding pid_stats_update pid_get_cc_errors
pid_stats_update-breaks s pkts n nr p small used known seen room =
    let packets = packets_at pkts n in
    let seven : StreamStats = not_multiple_of_seven s n in
    ap (λ i. cc_errors_of ((packets_loop (count_sync seven packets) packets).pids i))
      (omega (arith, bit_and_mask 13 nr))
    ∙ packets_loop-breaks nr used packets (count_sync seven packets) p
        (ap (λ t. t nr) (count_sync-pids packets seven) ∙ known) seen
        (omega (arith, count_sync-room packets seven, length-packets_at n pkts))
