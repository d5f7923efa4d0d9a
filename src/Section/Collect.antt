-- ===== src/Section/Collect.antt =====
-- Sections collected from packets that carry payload only.
use libltntstools.Base.{
  ℕ, zero, suc, ◌+◌, ◌-◌, ◌<◌, ◌≤◌, ◌≡◌, refl, sym, ap, ◌∙◌, ltb, ◌==◌, ◌&&◌, not, if◌then◌else◌,
  Bool, true, false, some, List, ◌++◌, length, take, arith,
}
use libltntstools.Base.Int.{pos}
use libltntstools.Crc.{check_crc32}
use libltntstools.Memory.{store}
use libltntstools.Memory.Prefix.{take-store}
use libltntstools.Packet.{Pointer, sync_present, pid, has_adaption, payload_unit_start_indicator}
use libltntstools.Section.{
  Extractor, Written, bytes_at, section_offset, announced, at_most_183, begun, copy_in,
  write_packet,
}

pub length-bytes_at : (pkt : Pointer) (o n : ℕ) → length (bytes_at pkt o n) ≡ n
length-bytes_at pkt o zero = refl
length-bytes_at pkt o (suc n) = ap suc (length-bytes_at pkt (o + 1) n)

-- A packet of the pid with payload only, and the start flag `start`.
pub record IsPlain (wanted : ℕ) (pkt : Pointer) (start : ℕ) : Type 0 where
  pub synced : sync_present pkt ≡ true
  pub of_pid : pid pkt ≡ wanted
  pub payload_only : has_adaption pkt ≡ false
  pub start_flag : payload_unit_start_indicator pkt ≡ start

-- The section `xs ++ rest` is collected as far as `xs`.
pub record IsPartial (ctx : Extractor) (xs rest : List ℕ) : Type 0 where
  pub allocated : length ctx.section ≡ 4096
  pub under_way : ctx.appending ≡ true
  pub incomplete : ctx.complete ≡ false
  pub so_far : ctx.section_length_current ≡ length xs
  pub whole_length : ctx.section_length ≡ length xs + length rest
  pub bytes : take (length xs) ctx.section ≡ xs
  pub short : length xs + length rest ≤ 4096

-- The section `s` is collected, and `w` says whether its check sum is right.
pub record IsWhole (s : List ℕ) (w : Written) : Type 0 where
  pub told : w.is_complete ≡ true
  pub finished : w.ctx.complete ≡ true
  pub idle : w.ctx.appending ≡ false
  pub length_told : w.ctx.section_length ≡ length s
  pub content : take (length s) w.ctx.section ≡ s
  pub checked : w.crc_valid ≡ check_crc32 (some s)

-- The bytes that a copy adds.
module _ (ctx : Extractor) (pkt : Pointer) (o n : ℕ) (xs : List ℕ) (before : Bool) where
  abbrev pub filled : List ℕ
  filled = store ctx.section ctx.section_length_current (bytes_at pkt o n)

  abbrev pub moved : Extractor
  moved = record ctx { section = filled; section_length_current = ctx.section_length_current + n }

  module _ (so_far : ctx.section_length_current ≡ length xs)
      (bytes : take (length xs) ctx.section ≡ xs) (fits : length xs + n ≤ length ctx.section) where
    pub filled-bytes : take (length xs + n) filled ≡ xs ++ bytes_at pkt o n
    filled-bytes =
        ap (λ k. take (length xs + k) filled) (sym (length-bytes_at pkt o n))
        ∙ ap
            (λ c.
              take (length xs + length (bytes_at pkt o n)) (store ctx.section c (bytes_at pkt o n)))
            so_far
        ∙ take-store ctx.section (length xs) (bytes_at pkt o n)
            (omega (arith, fits, length-bytes_at pkt o n))
        ∙ ap (λ ys. ys ++ bytes_at pkt o n) bytes

    pub copy_in-partial :
        length xs + n < ctx.section_length
        → copy_in ctx pkt o n before
          ≡ some (record { ret = pos n; ctx = moved; is_complete = before; crc_valid = false })
    unfolding copy_in
    copy_in-partial h =
        let inside : ltb (length ctx.section) (ctx.section_length_current + n) ≡ false =
          ground (arith, fits, so_far) in
        let more : (ctx.section_length == ctx.section_length_current + n) ≡ false =
          ground (arith, h, so_far) in
        rw (inside, more) refl

    pub copy_in-whole :
        length xs + n ≡ ctx.section_length
        → copy_in ctx pkt o n before
          ≡ some (record {
            ret = pos n;
            ctx = record moved { complete = true; appending = false };
            is_complete = true;
            crc_valid = check_crc32 (some (take ctx.section_length filled));
          })
    unfolding copy_in
    copy_in-whole h =
        let inside : ltb (length ctx.section) (ctx.section_length_current + n) ≡ false =
          ground (arith, fits, so_far) in
        let done : (ctx.section_length == ctx.section_length_current + n) ≡ true =
          ground (arith, h, so_far) in
        rw (inside, done) refl

section_offset-next :
    (wanted : ℕ) (pkt : Pointer) → IsPlain wanted pkt 0 → section_offset pkt ≡ some 4
unfolding section_offset
section_offset-next wanted pkt p = rw (p.payload_only, p.start_flag) refl

section_offset-start :
    (wanted : ℕ) (pkt : Pointer) → IsPlain wanted pkt 1 → pkt 4 ≡ 0 → section_offset pkt ≡ some 5
unfolding section_offset
section_offset-start wanted pkt p e = rw (p.payload_only, p.start_flag, e) refl

pub write_packet-next :
    (wanted : ℕ) (ctx : Extractor) (pkt : Pointer) (xs rest : List ℕ) (before : Bool)
    → IsPlain wanted pkt 0
    → IsPartial ctx xs rest
    → write_packet ctx pkt before ≡ copy_in ctx pkt 4 (at_most_183 (length rest)) before
unfolding write_packet
write_packet-next wanted ctx pkt xs rest before p k =
    let n_eq : (if ltb ctx.section_length (ctx.section_length_current + 183)
          then ctx.section_length - ctx.section_length_current
          else 183)
        ≡ at_most_183 (length rest) =
      ground (arith, k.so_far, k.whole_length) in
    let started : (not ctx.appending && (not ctx.complete && (pkt 4 == ctx.table_id))) ≡ false =
      rw (k.under_way) refl in
    let goes_on : (ctx.appending && not ctx.complete) ≡ true =
      rw (k.under_way, k.incomplete) refl in
    rw (p.synced, section_offset-next wanted pkt p, started, goes_on)
      (ap (λ n. copy_in ctx pkt 4 n before) n_eq)

-- The extractor waits for a section.
pub record IsIdle (ctx : Extractor) : Type 0 where
  pub allocated : length ctx.section ≡ 4096
  pub idle : ctx.appending ≡ false
  pub incomplete : ctx.complete ≡ false

pub write_packet-start :
    (wanted : ℕ) (ctx : Extractor) (pkt : Pointer) (before : Bool)
    → IsIdle ctx
    → IsPlain wanted pkt 1
    → pkt 4 ≡ 0
    → pkt 5 ≡ ctx.table_id
    → write_packet ctx pkt before
      ≡ copy_in (begun ctx pkt 5) pkt 5 (at_most_183 (announced pkt 5)) before
unfolding write_packet
write_packet-start wanted ctx pkt before k p e t =
    let same : (pkt 5 == ctx.table_id) ≡ true = ground (arith, t) in
    rw (p.synced, section_offset-start wanted pkt p e, k.idle, k.incomplete, same) refl
