-- ===== src/Stats/Sequence.antt =====
-- The continuity counters of a pid's packets: which of them are errors.
use libltntstools.Base.{
  ℕ, ◌+◌, ◌%◌, ◌≤◌, ◌<◌, ◌≡◌, ◌≢◌, refl, ap, ◌∙◌, ◌==◌, ◌&&◌, ◌||◌, not, if◌then◌else◌, Bool, true,
  false, List, [], ◌∷◌, some, arith, length,
}
use libltntstools.Base.Bits.{bit_and_mask}
use libltntstools.Packet.{Pointer, pid, adaption_field_control, continuity_counter}
use libltntstools.Packet.Fields.{adaption_field_control_lem}
use libltntstools.Stats.{
  PidStats, StreamStats, max_pid, counted, is_cc_in_error, counts_cc_error, pid_count, packets_loop,
  cc_errors_of,
}
use libltntstools.Stats.PerPid.{track, record_or_new, packets_loop-track}

-- A packet may follow one whose counter is `cc`: with a payload it has the next counter, and
-- without one it may also repeat the last.
abbrev pub follows : ℕ → ℕ → ℕ → Bool
follows adap cc next =
    if adap % 2 == 1 then next == (cc + 1) % 16 else (next == cc) || (next == (cc + 1) % 16)

follows-test :
    (adap cc next : ℕ)
    → adap < 4
    → (if (adap == 0 || adap == 2) && (cc == next)
        then false
        else if (adap == 1 || adap == 3) && (cc == next)
        then true
        else if (cc + 1) % 16 == next
        then false
        else true)
      ≡ not (follows adap cc next)
follows-test adap cc next small = ground arith

pub is_cc_in_error-follows :
    (pkt : Pointer) (cc : ℕ)
    → is_cc_in_error pkt cc ≡ not (follows (adaption_field_control pkt) cc (continuity_counter pkt))
unfolding is_cc_in_error
is_cc_in_error-follows pkt cc = rw (bit_and_mask 4 (cc + 1)) (
    follows-test (adaption_field_control pkt) cc (continuity_counter pkt)
      (omega (arith, adaption_field_control_lem pkt)))

-- The packets of the pid `nr` that do not follow the one before, the first against `cc`.
unfoldable pub breaks : ℕ → ℕ → List Pointer → ℕ
breaks nr cc [] = 0
breaks nr cc (pkt ∷ rest) =
    let next = continuity_counter pkt in
    let after = breaks nr next rest in
    let skipped = breaks nr cc rest in
    if nr == pid pkt
    then (if follows (adaption_field_control pkt) cc next then after else after + 1)
    else skipped

counted-error :
    (p : PidStats) (pkt : Pointer)
    → 1 ≤ p.packet_count
    → pid pkt ≢ 0x1fff
    → counts_cc_error p pkt ≡ is_cc_in_error pkt p.last_cc
unfolding counts_cc_error
counted-error p pkt seen used = ground arith

count_adds : (b : Bool) (n m : ℕ) → counted (not b) n + m ≡ n + (if b then m else m + 1)
count_adds false n m = omega arith
count_adds true n m = refl

module _ (nr : ℕ) (used : nr ≢ 0x1fff) where
  own-errors :
      (p : PidStats) (pkt : Pointer) (m : ℕ)
      → 1 ≤ p.packet_count
      → (nr == pid pkt) ≡ true
      → (pid_count p pkt).cc_errors + m
        ≡ p.cc_errors
          + (if follows (adaption_field_control pkt) p.last_cc (continuity_counter pkt)
              then m
              else m + 1)
  unfolding pid_count
  own-errors p pkt m seen own =
      ap (λ b. counted b p.cc_errors + m)
        (counted-error p pkt seen (ground arith) ∙ is_cc_in_error-follows pkt p.last_cc)
      ∙ count_adds (follows (adaption_field_control pkt) p.last_cc (continuity_counter pkt))
          p.cc_errors m

  track-breaks_step :
      (pkt : Pointer) (rest : List Pointer) (p : PidStats)
      → ((q : PidStats)
          → 1 ≤ q.packet_count
          → cc_errors_of (track nr (some q) rest) ≡ q.cc_errors + breaks nr q.last_cc rest)
      → 1 ≤ p.packet_count
      → (b : Bool) → (nr == pid pkt) ≡ b
      → cc_errors_of (track nr (if b then some (pid_count p pkt) else some p) rest)
        ≡ p.cc_errors
          + (if b
              then (if follows (adaption_field_control pkt) p.last_cc (continuity_counter pkt)
                  then breaks nr (continuity_counter pkt) rest
                  else breaks nr (continuity_counter pkt) rest + 1)
              else breaks nr p.last_cc rest)
  unfolding pid_count
  track-breaks_step pkt rest p ih seen false own = ih p seen
  track-breaks_step pkt rest p ih seen true own =
      ih (pid_count p pkt) (omega arith)
      ∙ own-errors p pkt (breaks nr (continuity_counter pkt) rest) seen own

  track-breaks :
      (pkts : List Pointer) (p : PidStats)
      → 1 ≤ p.packet_count
      → cc_errors_of (track nr (some p) pkts) ≡ p.cc_errors + breaks nr p.last_cc pkts
  unfolding track breaks record_or_new
  track-breaks [] p seen = omega arith
  track-breaks (pkt ∷ rest) p seen =
      track-breaks_step pkt rest p (track-breaks rest) seen (nr == pid pkt) refl

  pub packets_loop-breaks :
      (pkts : List Pointer) (s : StreamStats) (p : PidStats)
      → s.pids nr ≡ some p
      → 1 ≤ p.packet_count
      → s.pid_array_count + length pkts ≤ max_pid
      → cc_errors_of ((packets_loop s pkts).pids nr) ≡ p.cc_errors + breaks nr p.last_cc pkts
  packets_loop-breaks pkts s p known seen room =
      ap cc_errors_of (packets_loop-track pkts s nr room ∙ ap (λ e. track nr e pkts) known)
      ∙ track-breaks pkts p seen
