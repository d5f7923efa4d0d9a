-- ===== src/Section/Whole.antt =====
-- One call with all the packets of a section, and the query behind it.
use libltntstools.Base.{
  ℕ, zero, suc, ◌+◌, ◌≤◌, ◌≡◌, refl, ap, ◌∙◌, ltb, Bool, true, false, some, List, [], ◌∷◌, length,
  take, drop, arith, length-take,
}
use libltntstools.Base.Int.{pos}
use libltntstools.Memory.Copy.{read_block-ok}
use libltntstools.Packet.{Pointer}
use libltntstools.Section.{
  Extractor, Written, bytes_at, announced, at_most_183, begun, copy_in, write_packet, write, kept,
  query, answer,
}
use libltntstools.Section.Collect.{IsPlain, IsPartial, IsWhole, IsIdle, write_packet-start}
use libltntstools.Section.Stream.{Pieces, write_loop_more, copy-rest, write_loop-IsWhole}

-- `pkt` points to `suc n` packets that carry the section `s`: the first one starts it, with a pointer
-- field of 0, the table's id and the section's length in its header, and holds up to 183 bytes.
pub record Carries (ctx : Extractor) (s : List ℕ) (n : ℕ) (pkt : Pointer) : Type 0 where
  pub plain : IsPlain ctx.wanted_pid pkt 1
  pub pointer_field : pkt 4 ≡ 0
  pub table : pkt 5 ≡ ctx.table_id
  pub length_field : announced pkt 5 ≡ length s
  pub short : length s ≤ 4096
  pub first : bytes_at pkt 5 (at_most_183 (length s)) ≡ take 183 s
  pub others : Pieces ctx.wanted_pid (drop 183 s) n (λ i. pkt (188 + i))

begun-IsPartial :
    (ctx : Extractor) (s : List ℕ) (n : ℕ) (pkt : Pointer)
    → IsIdle ctx
    → Carries ctx s n pkt
    → IsPartial (begun ctx pkt 5) [] s
begun-IsPartial ctx s n pkt k c = record {
  allocated = k.allocated;
  under_way = refl;
  incomplete = refl;
  so_far = refl;
  whole_length = omega (arith, c.length_field);
  bytes = refl;
  short = omega (arith, c.short);
}

take-take : (n k : ℕ) (xs : List ℕ) → n ≤ k → take n (take k xs) ≡ take n xs
take-take zero k xs h = refl
take-take (suc n) zero xs h = absurd (omega (arith, h))
take-take (suc n) (suc k) [] h = refl
take-take (suc n) (suc k) (x ∷ xs) h = ap (λ r. x ∷ r) (take-take n k xs (omega (arith, h)))

kept-told :
    (w : Written)
    → w.is_complete ≡ true
    → kept w ≡ record w { ctx = record (w.ctx) { complete = true } }
kept-told w e = rw e refl

-- An extractor that waits for a section and gets, in one call, packets of its pid that carry one of
-- at most 4096 bytes, 183 bytes in each packet but the last, which has the rest: the call reports
-- that the section is complete, has its bytes in order and its length, and says that the check sum
-- is valid just if `check_crc32` accepts those bytes.
pub write-IsWhole :
    (ctx : Extractor) (s : List ℕ) (n : ℕ) (pkt : Pointer) (crc_before : Bool)
    → IsIdle ctx
    → Carries ctx s n pkt
    → (w : Written) × (write ctx pkt (suc n) crc_before ≡ some w) × IsWhole s w
unfolding write
write-IsWhole ctx s n pkt crc_before k c =
    let w₀ : Written = record {
      ret = pos 0;
      ctx = ctx;
      is_complete = false;
      crc_valid = crc_before;
    } in
    let later : Pointer = λ i. pkt (188 + i) in
    let (v, copied, w, ran, whole) =
      copy-rest n later (begun ctx pkt 5) pkt 5 [] s false (pos 0) (begun-IsPartial ctx s n pkt k c)
        refl c.first c.others (λ w' ys zs a b d e. write_loop-IsWhole n later w' ys zs a b d e) in
    let started : write_packet ctx pkt false ≡ some v =
      write_packet-start ctx.wanted_pid ctx pkt false k c.plain c.pointer_field c.table
      ∙ ap (λ m. copy_in (begun ctx pkt 5) pkt 5 (at_most_183 m) false) c.length_field
      ∙ copied in
    (
      record w { ctx = record (w.ctx) { complete = true } },
      rw (write, write_loop_more n pkt w₀ v c.plain.of_pid started ∙ ran)
          (ap some (kept-told w whole.told)),
      record {
        told = whole.told;
        finished = refl;
        idle = whole.idle;
        length_told = whole.length_told;
        content = whole.content;
        checked = whole.checked;
      },
    )

-- A query of a whole section, into at least three bytes more than it has, when it leaves three bytes
-- of the allocation free: the answer is the section with three more bytes behind it.
pub query-IsWhole :
    (s : List ℕ) (w : Written) (room : ℕ)
    → IsWhole s w
    → length w.ctx.section ≡ 4096
    → length s + 3 ≤ 4096
    → length s + 3 ≤ room
    → (bytes : List ℕ) × (query w.ctx room
        ≡ answer bytes (record (w.ctx) { complete = false; appending = false }))
      × (length bytes ≡ length s + 3)
      × (take (length s) bytes ≡ s)
unfolding query
query-IsWhole s w room k sized short wide =
    let roomy : ltb room (w.ctx.section_length + 3) ≡ false = ground (arith, wide, k.length_told) in
    let len : 0 + (w.ctx.section_length + 3) ≤ length w.ctx.section =
      omega (arith, sized, short, k.length_told) in
    (
      take (w.ctx.section_length + 3) w.ctx.section,
      rw (query, k.finished, roomy, read_block-ok w.ctx.section 0 (w.ctx.section_length + 3) len)
          refl,
      ground (arith, length-take (w.ctx.section_length + 3) w.ctx.section, len, k.length_told),
      take-take (length s) (w.ctx.section_length + 3) w.ctx.section (omega (arith, k.length_told))
          ∙ k.content,
    )
