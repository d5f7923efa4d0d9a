-- ===== src/Stats/PerPid.antt =====
-- The records that a run of packets leaves: each pid's own packets alone decide its record.
use libltntstools.Base.{
  ℕ, ◌+◌, ◌≤◌, ◌≡◌, refl, ap, ◌∙◌, leb, ◌==◌, if◌then◌else◌, Bool, true, false, List, [], ◌∷◌,
  Option, none, some, arith, length,
}
use libltntstools.Packet.{Pointer, pid}
use libltntstools.Stats.{
  PidStats, StreamStats, max_pid, pid_count, pid_statistics_alloc, pid_array_add,
  packet_count_known, packet_arrive, packet_step_at, packet_step, packets_loop,
}

-- The record of a pid before its next packet.
unfoldable pub record_or_new : Option PidStats → ℕ → PidStats
unfolding pid_statistics_alloc
record_or_new none nr = pid_statistics_alloc nr
record_or_new (some p) nr = p

-- The record of the pid `nr` after the packets, from its own packets alone.
unfoldable pub track : ℕ → Option PidStats → List Pointer → Option PidStats
unfolding record_or_new pid_count
track nr e [] = e
track nr e (pkt ∷ rest) =
    track nr (if nr == pid pkt then some (pid_count (record_or_new e (pid pkt)) pkt) else e) rest

has_room : (c n : ℕ) → c + (n + 1) ≤ max_pid → leb max_pid c ≡ false
has_room c n room = ground arith

module _ (s : StreamStats) (pkt : Pointer) (nr : ℕ) where
  step_at-pids :
      (e : Option PidStats)
      → leb max_pid s.pid_array_count ≡ false
      → (packet_step_at e s pkt).pids nr
        ≡ (if nr == pid pkt then some (pid_count (record_or_new e (pid pkt)) pkt) else s.pids nr)
  unfolding packet_step_at packet_count_known record_or_new
  step_at-pids (some p) room = refl
  step_at-pids none room = rw (packet_step_at, pid_array_add, room, packet_arrive) refl

  step_at-count :
      (e : Option PidStats)
      → leb max_pid s.pid_array_count ≡ false
      → (packet_step_at e s pkt).pid_array_count ≤ s.pid_array_count + 1
  unfolding packet_step_at packet_count_known
  step_at-count (some p) room = omega arith
  step_at-count none room = rw (packet_step_at, pid_array_add, room, packet_arrive) (omega arith)

  entry_agrees :
      (b : Bool)
      → (nr == pid pkt) ≡ b
      → (if b then some (pid_count (record_or_new (s.pids (pid pkt)) (pid pkt)) pkt) else s.pids nr)
        ≡ (if b then some (pid_count (record_or_new (s.pids nr) (pid pkt)) pkt) else s.pids nr)
  entry_agrees false e = refl
  entry_agrees true e =
      ap (λ i. some (pid_count (record_or_new (s.pids i) (pid pkt)) pkt)) (ground arith)

  step-pids :
      leb max_pid s.pid_array_count ≡ false
      → (packet_step s pkt).pids nr ≡ (
          if nr == pid pkt
          then some (pid_count (record_or_new (s.pids nr) (pid pkt)) pkt)
          else s.pids nr)
  unfolding packet_step
  step-pids room = step_at-pids (s.pids (pid pkt)) room ∙ entry_agrees (nr == pid pkt) refl

still_fits :
    (s : StreamStats) (pkt : Pointer) (n : ℕ)
    → s.pid_array_count + (n + 1) ≤ max_pid
    → (packet_step s pkt).pid_array_count + n ≤ max_pid
unfolding packet_step
still_fits s pkt n room =
    omega
      (arith, step_at-count s pkt (pid pkt) (s.pids (pid pkt)) (has_room s.pid_array_count n room))

-- In a call that the array of pids has room for, each pid's record after the loop over the packets
-- is its record before, or a new one for a new pid, counted on by the pid's own packets in their
-- order: no packet of another pid touches it.
pub packets_loop-track :
    (pkts : List Pointer) (s : StreamStats) (nr : ℕ)
    → s.pid_array_count + length pkts ≤ max_pid
    → (packets_loop s pkts).pids nr ≡ track nr (s.pids nr) pkts
unfolding packets_loop track
packets_loop-track [] s nr room = refl
packets_loop-track (pkt ∷ rest) s nr room =
    packets_loop-track rest (packet_step s pkt) nr (still_fits s pkt (length rest) (omega arith))
    ∙ ap (λ e. track nr e rest)
        (step-pids s pkt nr (has_room s.pid_array_count (length rest) (omega arith)))
