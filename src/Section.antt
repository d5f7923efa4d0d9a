-- ===== src/Section.antt =====
-- src/sectionextractor.c: one table section collected from the packets of a pid.
pub mod Collect
pub mod Stream
pub mod Whole
pub mod Bounds
mod Tests
use libltntstools.Base.{
  ℕ, zero, suc, ◌+◌, ◌-◌, ◌*◌, ◌^◌, ltb, leb, ◌==◌, ◌&&◌, ◌||◌, not, if◌then◌else◌, bit_and, bit_or,
  Bool, true, false, Option, none, some, List, [], ◌∷◌, length, take,
}
use libltntstools.Base.Int.{ℤ, pos, negsuc, ◌+ℤ◌}
use libltntstools.Crc.{check_crc32}
use libltntstools.Memory.{store, read_block}
pub use libltntstools.Packet.{bytes_at}
use libltntstools.Packet.{
  Pointer, sync_present, pid, has_adaption, adaption_field_length, payload_unit_start_indicator,
}

pub record Extractor : Type 0 where
  pub table_id : ℕ
  pub wanted_pid : ℕ
  pub complete : Bool
  pub appending : Bool
  pub section : List ℕ
  pub section_length : ℕ
  pub section_length_current : ℕ

-- `ltntstools_sectionextractor_alloc`, where there is memory; `spare n` is what malloc of `n` bytes
-- holds.
abbrev pub alloc : (ℕ → List ℕ) → ℕ → ℕ → Extractor
alloc spare pid_nr table = record {
  table_id = table;
  wanted_pid = pid_nr;
  complete = false;
  appending = false;
  section = spare 4096;
  section_length = 0;
  section_length_current = 0;
}

-- What a call returns, with the state and what it leaves in `*complete` and `*crcValid`.
pub record Written : Type 0 where
  pub ret : ℤ
  pub ctx : Extractor
  pub is_complete : Bool
  pub crc_valid : Bool

-- Where the table data stands: `none` is the return when it is too far behind.
unfoldable pub section_offset : Pointer → Option ℕ
section_offset pkt =
    let o = if has_adaption pkt then 5 + adaption_field_length pkt else 4 in
    if payload_unit_start_indicator pkt == 0
    then some o
    else if leb 180 (o + pkt o + 1)
    then none
    else some (o + pkt o + 1)

-- The length that a section's header gives, with the header itself.
abbrev pub announced : Pointer → ℕ → ℕ
announced pkt o = bit_and (bit_or (pkt (o + 1) * 2 ^ 8) (pkt (o + 2))) 0xfff + 3

abbrev pub at_most_183 : ℕ → ℕ
at_most_183 n = if ltb 183 n then 183 else n

-- The first packet of a section.
abbrev pub begun : Extractor → Pointer → ℕ → Extractor
begun ctx pkt o = record ctx {
  appending = true;
  complete = false;
  section_length_current = 0;
  section_length = announced pkt o;
}

-- The bytes taken, and the check of a section that is whole. `none` is a write past the 4096 bytes.
unfoldable pub copy_in : Extractor → Pointer → ℕ → ℕ → Bool → Option Written
copy_in ctx pkt o copylength complete_before =
    let n = ctx.section_length_current + copylength in
    let filled = store ctx.section ctx.section_length_current (bytes_at pkt o copylength) in
    let moved = record ctx { section = filled; section_length_current = n } in
    if ltb (length ctx.section) n
    then none
    else if ctx.section_length == n
    then some (record {
      ret = pos copylength;
      ctx = record moved { complete = true; appending = false };
      is_complete = true;
      crc_valid = check_crc32 (some (take ctx.section_length filled));
    })
    else some (record {
      ret = pos copylength;
      ctx = moved;
      is_complete = complete_before;
      crc_valid = false;
    })

-- `ltntstools_sectionextractor_write_packet`
unfoldable pub write_packet : Extractor → Pointer → Bool → Option Written
write_packet ctx pkt complete_before =
    let stay : Option Written =
      some (record { ret = pos 0; ctx = ctx; is_complete = complete_before; crc_valid = false }) in
    if not (sync_present pkt) then stay else elim (section_offset pkt) [
      | none ↦ stay
      | some o ↦
          if not ctx.appending && (not ctx.complete && (pkt o == ctx.table_id))
          then copy_in (begun ctx pkt o) pkt o (at_most_183 (announced pkt o)) complete_before
          else if ctx.appending && not ctx.complete
          then copy_in ctx pkt o
              (if ltb ctx.section_length (ctx.section_length_current + 183)
                then ctx.section_length - ctx.section_length_current
                else 183)
              complete_before
          else some (record {
            ret = negsuc 0;
            ctx = record ctx { complete = false; appending = false };
            is_complete = complete_before;
            crc_valid = false;
          })
    ]

-- The loop of `ltntstools_sectionextractor_write` over packets of 188 bytes. `*crcValid` is not set
-- before the first packet of the pid.
unfoldable pub write_loop : ℕ → Pointer → Written → Option Written
write_loop zero pkt w = some w
write_loop (suc n) pkt w =
    let next = λ (i : ℕ). pkt (188 + i) in
    let rest = write_loop n next in
    if pid pkt == w.ctx.wanted_pid
    then elim (write_packet w.ctx pkt w.is_complete) [
      | none ↦ none
      | some v ↦ rest (record v { ret = w.ret +ℤ v.ret })
    ]
    else rest w

-- The end of the call.
abbrev pub kept : Written → Written
kept w = if w.is_complete then record w { ctx = record (w.ctx) { complete = true } } else w

-- `ltntstools_sectionextractor_write`; the last argument is what `*crcValid` holds before the call.
unfoldable pub write : Extractor → Pointer → ℕ → Bool → Option Written
write ctx pkt packet_count crc_before =
    elim (write_loop packet_count pkt
      (record { ret = pos 0; ctx = ctx; is_complete = false; crc_valid = crc_before })) [
        | none ↦ none
        | some w ↦ some (kept w)
      ]

-- What a query gives: -1, a read past the 4096 bytes, or the bytes with the state behind it.
pub data Queried : Type 0 where
  refused : Queried
  out_of_bounds : Queried
  answer : List ℕ → Extractor → Queried

-- `ltntstools_sectionextractor_query`, with `lengthBytes` bytes of room in `dst`.
unfoldable pub query : Extractor → ℕ → Queried
query ctx length_bytes =
    if not ctx.complete || ltb length_bytes (ctx.section_length + 3)
    then refused
    else elim (read_block ctx.section 0 (ctx.section_length + 3)) [
      | none ↦ out_of_bounds
      | some bytes ↦ answer bytes (record ctx { complete = false; appending = false })
    ]
