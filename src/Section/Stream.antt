-- ===== src/Section/Stream.antt =====
-- A call with the packets of one section.
use native.Mathlib.Decide.{dec_lt}
use libltntstools.Base.{
  ℕ, zero, suc, ◌+◌, ◌<◌, ◌≤◌, ◌≡◌, refl, sym, ap, ◌∙◌, ◌==◌, Bool, true, false, some, List, ◌++◌,
  length, take, drop, arith, length-take, length-drop, take_over, take-append-drop, length-append,
  append_assoc, subst,
}
use libltntstools.Base.Int.{ℤ, pos, ◌+ℤ◌}
use libltntstools.Crc.{check_crc32}
use libltntstools.Memory.Copy.{length-store}
use libltntstools.Packet.{Pointer, pid}
use libltntstools.Section.{
  Extractor, Written, bytes_at, at_most_183, copy_in, write_packet, write_loop,
}
use libltntstools.Section.Collect.{
  IsPlain, IsPartial, IsWhole, filled, moved, filled-bytes, copy_in-partial, copy_in-whole,
  write_packet-next,
}

at_most_183-all : (m : ℕ) → m ≤ 183 → at_most_183 m ≡ m
at_most_183-all m h = ground (arith, h)

at_most_183-cut : (m : ℕ) → 183 < m → at_most_183 m ≡ 183
at_most_183-cut m h = ground (arith, h)

at_most_183-le : (m : ℕ) → at_most_183 m ≤ m
at_most_183-le m = ground arith

-- What a copy of the next bytes of a section does: it is whole, or one step further.
module _ (ctx : Extractor) (pkt : Pointer) (o : ℕ) (xs rest : List ℕ) (before : Bool) where
  abbrev n : ℕ
  n = at_most_183 (length rest)

  module _ (k : IsPartial ctx xs rest) (same : bytes_at pkt o n ≡ take 183 rest) where
    fits : length xs + n ≤ length ctx.section
    fits = omega (arith, k.allocated, k.short, at_most_183-le (length rest))

    grown : take (length xs + n) (filled ctx pkt o n xs before) ≡ xs ++ take 183 rest
    grown = filled-bytes ctx pkt o n xs before k.so_far k.bytes fits ∙ ap (λ ys. xs ++ ys) same

    IsPartial-moved :
        183 < length rest
        → IsPartial (moved ctx pkt o n xs before) (xs ++ take 183 rest) (drop 183 rest)
    IsPartial-moved h =
        let len : length (xs ++ take 183 rest) ≡ length xs + 183 =
          omega (arith, length-append xs (take 183 rest), length-take 183 rest, h) in
        record {
          allocated =
              length-store ctx.section ctx.section_length_current (bytes_at pkt o n) ∙ k.allocated;
          under_way = k.under_way;
          incomplete = k.incomplete;
          so_far = omega (arith, len, k.so_far, at_most_183-cut (length rest) h);
          whole_length = omega (arith, len, k.whole_length, length-drop 183 rest, h);
          bytes =
              ap (λ m. take m (filled ctx pkt o n xs before)) {x = length (xs ++ take 183 rest)}
                {y = length xs + n} (omega (arith, len, at_most_183-cut (length rest) h))
              ∙ grown;
          short = omega (arith, len, k.short, length-drop 183 rest, h);
        }

    IsWhole-moved :
        length rest ≤ 183
        → (w : Written) × (copy_in ctx pkt o n before ≡ some w)
          × IsWhole (xs ++ rest) w
          × (w.ctx.wanted_pid ≡ ctx.wanted_pid)
    IsWhole-moved h =
        let len : ctx.section_length ≡ length xs + n =
          omega (arith, k.whole_length, at_most_183-all (length rest) h) in
        let all : take ctx.section_length (filled ctx pkt o n xs before) ≡ xs ++ rest =
          ap (λ m. take m (filled ctx pkt o n xs before)) len
          ∙ grown
          ∙ ap (λ ys. xs ++ ys) (take_over 183 rest h) in
        let joined : length (xs ++ rest) ≡ ctx.section_length =
          length-append xs rest ∙ sym k.whole_length in
        (
          record {
            ret = pos n;
            ctx = record (moved ctx pkt o n xs before) { complete = true; appending = false };
            is_complete = true;
            crc_valid = check_crc32 (some (take ctx.section_length (filled ctx pkt o n xs before)));
          },
          copy_in-whole ctx pkt o n xs before k.so_far k.bytes fits (sym len),
          record {
            told = refl;
            finished = refl;
            idle = refl;
            length_told = sym joined;
            content = ap (λ m. take m (filled ctx pkt o n xs before)) joined ∙ all;
            checked = ap (λ ys. check_crc32 (some ys)) all;
          },
          refl,
        )

-- The bytes `rest` stand in `n` packets of a pid, payload only and without a start, in pieces of 183
-- bytes behind the header, the last one shorter.
abbrev pub Pieces : ℕ → List ℕ → ℕ → Pointer → Type 0
Pieces wanted rest zero pkt = length rest ≡ 0
Pieces wanted rest (suc n) pkt =
    (0 < length rest)
    × IsPlain wanted pkt 0
    × (bytes_at pkt 4 (at_most_183 (length rest)) ≡ take 183 rest)
    × Pieces wanted (drop 183 rest) n (λ i. pkt (188 + i))

Pieces-none :
    (wanted n : ℕ) (pkt : Pointer) (rest : List ℕ)
    → Pieces wanted rest n pkt
    → length rest ≡ 0
    → n ≡ 0
Pieces-none wanted zero pkt rest p e = refl
Pieces-none wanted (suc n) pkt rest p e = absurd (omega (arith, p.0, e))

pub write_loop_more :
    (n : ℕ) (pkt : Pointer) (w v : Written)
    → pid pkt ≡ w.ctx.wanted_pid
    → write_packet w.ctx pkt w.is_complete ≡ some v
    → write_loop (suc n) pkt w
      ≡ write_loop n (λ i. pkt (188 + i)) (record v { ret = w.ret +ℤ v.ret })
unfolding write_loop
write_loop_more n pkt w v e f =
    let same : (pid pkt == w.ctx.wanted_pid) ≡ true = ground (arith, e) in
    rw (write_loop, same, f) refl

write_loop_done : (n : ℕ) (pkt : Pointer) (w : Written) → n ≡ 0 → write_loop n pkt w ≡ some w
unfolding write_loop
write_loop_done n pkt w e = rw e refl

-- The packets behind a copy: with nothing left there are none, else `rec` runs them.
pub copy-rest :
    (m : ℕ) (later : Pointer) (ctx : Extractor) (pkt : Pointer) (o : ℕ) (xs rest : List ℕ)
    (before : Bool) (ret : ℤ)
    → IsPartial ctx xs rest
    → before ≡ false
    → bytes_at pkt o (at_most_183 (length rest)) ≡ take 183 rest
    → Pieces ctx.wanted_pid (drop 183 rest) m later
    → ((w : Written) (ys zs : List ℕ)
        → IsPartial w.ctx ys zs
        → w.is_complete ≡ false
        → 0 < length zs
        → Pieces w.ctx.wanted_pid zs m later
        → (v : Written) × (write_loop m later w ≡ some v) × IsWhole (ys ++ zs) v)
    → (v : Written) × (copy_in ctx pkt o (at_most_183 (length rest)) before ≡ some v)
      × (u : Written) × (write_loop m later (record v { ret = ret +ℤ v.ret }) ≡ some u)
      × IsWhole (xs ++ rest) u
copy-rest m later ctx pkt o xs rest before ret k fresh same pieces run =
    elim (dec_lt 183 (length rest)) [
      | yes h ↦
          let v : Written = record {
            ret = pos (at_most_183 (length rest));
            ctx = moved ctx pkt o (at_most_183 (length rest)) xs before;
            is_complete = before;
            crc_valid = false;
          } in
          let (u, ran, whole) =
            run (record v { ret = ret +ℤ v.ret }) (xs ++ take 183 rest) (drop 183 rest)
              (IsPartial-moved ctx pkt o xs rest before k same h) fresh
              (omega (arith, length-drop 183 rest, h)) pieces in
          (
            v,
            copy_in-partial ctx pkt o (at_most_183 (length rest)) xs before k.so_far k.bytes
                (fits ctx pkt o xs rest before k same)
                (omega (arith, k.whole_length, at_most_183-cut (length rest) h, h)),
            u,
            ran,
            subst (λ s. IsWhole s u)
                (append_assoc xs (take 183 rest) (drop 183 rest)
                  ∙ ap (λ r. xs ++ r) (take-append-drop 183 rest))
                whole,
          )
      | no h ↦
          let (v, copied, whole, pid_kept) =
            IsWhole-moved ctx pkt o xs rest before k same (omega (arith, h)) in
          let none_left =
            Pieces-none ctx.wanted_pid m later (drop 183 rest) pieces
              (omega (arith, length-drop 183 rest, h)) in
          (
            v,
            copied,
            record v { ret = ret +ℤ v.ret },
            write_loop_done m later (record v { ret = ret +ℤ v.ret }) none_left,
            record {
              told = whole.told;
              finished = whole.finished;
              idle = whole.idle;
              length_told = whole.length_told;
              content = whole.content;
              checked = whole.checked;
            },
          )
    ]

pub write_loop-IsWhole :
    (n : ℕ) (pkt : Pointer) (w : Written) (xs rest : List ℕ)
    → IsPartial w.ctx xs rest
    → w.is_complete ≡ false
    → 0 < length rest
    → Pieces w.ctx.wanted_pid rest n pkt
    → (v : Written) × (write_loop n pkt w ≡ some v) × IsWhole (xs ++ rest) v
write_loop-IsWhole zero pkt w xs rest k fresh more pieces = absurd (omega (arith, more, pieces))
write_loop-IsWhole (suc n) pkt w xs rest k fresh more (nonempty, plain, same, pieces) =
    let later : Pointer = λ i. pkt (188 + i) in
    let (v, copied, u, ran, whole) =
      copy-rest n later w.ctx pkt 4 xs rest w.is_complete w.ret k fresh same pieces
        (λ w' ys zs k' f m p. write_loop-IsWhole n later w' ys zs k' f m p) in
    (
      u,
      write_loop_more n pkt w v plain.of_pid
            (write_packet-next w.ctx.wanted_pid w.ctx pkt xs rest w.is_complete plain k ∙ copied)
          ∙ ran,
      whole,
    )
