-- ===== src/Pes/Header.antt =====
-- The pieces of the parser on a stream that holds what the writer wrote.
use libltntstools.Base.{
  ℕ, ◌+◌, ◌%◌, ◌^◌, ◌<◌, ◌≡◌, inl, inr, refl, subst, ap, ap₂, ◌∙◌, arith, ◌==◌, if◌then◌else◌, Bool,
  true, false, Option, some, List, [], ◌∷◌, ◌++◌, Bool-cases,
}
use libltntstools.Base.Int.{ℤ, pos}
use libltntstools.BitStream.Reader.{SameBuffer}
use libltntstools.BitStream.Fields.{Field, AllNarrow, total}
use libltntstools.Pes.{PesPacket, has_header, is_data_only}
use libltntstools.Pes.Pack.{Part, no_part, field, write33bit_ts, pts_part}
use libltntstools.Pes.Parse.{
  State, Step, goes_on, body_step, header_step, data_only_step, padding_step, then_step, when_set,
  pes_crc_step, optional_step, reads, count_bits, clock_step, pts_step, store_pts, store_dts,
}
use libltntstools.Pes.Clock.{IsReading, reads_first, read33bit_ts-Holds}

-- The clock of a field is a number of 33 bits.
pub record IsClock (z : ℤ) : Type 0 where
  pub ticks : ℕ
  pub small : ticks < 2 ^ 33
  pub same : z ≡ pos ticks

-- Where the stream of a state stands after a piece.
pub record IsPast (s t : State) (p : ℕ) (gs : List Field) : Type 0 where
  pub reading : IsReading t.bs p gs
  pub buffer : SameBuffer s.bs t.bs
  pub unmarked : t.truncated ≡ s.truncated

clock_step-lem :
    (s : State) (p v n : ℕ) (store : ℤ → PesPacket → PesPacket) (gs : List Field)
    → v < 2 ^ 33
    → IsReading s.bs p (field n 4 ∷ write33bit_ts (pos v) ++ gs)
    → (t : State) × (clock_step s store ≡ some (goes_on t))
      × IsPast s t (p + 40) gs
      × (t.pkt ≡ store (pos v) s.pkt)
      × (t.bits ≡ s.bits + 40)
clock_step-lem s p v n store gs small k =
    let (c, e, k₁, s₁) = reads_first s.bs p (field n 4 ∷ []) (write33bit_ts (pos v) ++ gs) k in
    let (d, e₂, k₂, s₂) = read33bit_ts-Holds c (p + (4 + 0)) v gs small k₁ in
    (
      count_bits 40 (record s { pkt = store (pos v) s.pkt; bs = d }),
      rw (clock_step, reads, e, e₂) refl,
      record {
        reading =
            subst (λ q. IsReading d q gs) {x = p + (4 + 0) + 36} {y = p + 40} (omega arith) k₂;
        buffer = record { bytes = s₂.bytes ∙ s₁.bytes; sized = s₂.sized ∙ s₁.sized };
        unmarked = refl;
      },
      refl,
      refl,
    )

-- The clocks that a packet's flags announce, put into another packet.
abbrev pub with_clocks : PesPacket → PesPacket → PesPacket
with_clocks pkt q =
    if pkt.pts_dts_flags == 2
    then store_pts pkt.pts q
    else if pkt.pts_dts_flags == 3
    then store_dts pkt.dts (store_pts pkt.pts q)
    else q

module _ (pkt : PesPacket) (s : State) (p : ℕ) (gs : List Field) where
  -- What the piece does when the stream holds the fields of `part`, and `q` is what it makes.
  abbrev ReadsClocks : Part → PesPacket → Type 0
  ReadsClocks part q =
      IsReading s.bs p (part.calls ++ gs)
      → (t : State) × (pts_step s ≡ some (goes_on t))
        × IsPast s t (p + total part.calls) gs
        × (t.pkt ≡ q)
        × (t.bits ≡ s.bits + part.counted)

  module _ (same : s.pkt.pts_dts_flags ≡ pkt.pts_dts_flags) (v : IsClock pkt.pts)
      (w : IsClock pkt.dts) where
    -- The code's choice, by the outcome of its two tests.
    abbrev choice : Bool → Bool → Option Step
    choice b c =
        if b
        then clock_step s store_pts
        else if c
        then then_step (clock_step s store_pts) (λ t. clock_step t store_dts)
        else some (goes_on s)

    chosen :
        (b c : Bool)
        → (pkt.pts_dts_flags == 2) ≡ b
        → (pkt.pts_dts_flags == 3) ≡ c
        → pts_step s ≡ choice b c
    chosen b c e f = ap₂ choice (ap (λ n. n == 2) same ∙ e) (ap (λ n. n == 3) same ∙ f)

    no_clock :
        (pkt.pts_dts_flags == 2) ≡ false
        → (pkt.pts_dts_flags == 3) ≡ false
        → ReadsClocks (pts_part pkt) (with_clocks pkt s.pkt)
    no_clock e f =
        rw (pts_part, with_clocks, e, f)
          (λ k. (
            s,
            chosen false false e f,
            record {
              reading = subst (λ r. IsReading s.bs r gs) {x = p} {y = p + 0} (omega arith) k;
              buffer = record { bytes = refl; sized = refl };
              unmarked = refl;
            },
            refl,
            omega arith,
          ))

    one_clock : (pkt.pts_dts_flags == 2) ≡ true → ReadsClocks (pts_part pkt) (with_clocks pkt s.pkt)
    one_clock e =
        rw (pts_part, with_clocks, e, v.same)
          (λ k.
            let (t, ran, past, q, bits) = clock_step-lem s p v.ticks 2 store_pts gs v.small k in
            (t, chosen true (pkt.pts_dts_flags == 3) e refl ∙ ran, past, q, bits))

    two_clocks :
        (pkt.pts_dts_flags == 2) ≡ false
        → (pkt.pts_dts_flags == 3) ≡ true
        → ReadsClocks (pts_part pkt) (with_clocks pkt s.pkt)
    two_clocks e f =
        rw (pts_part, with_clocks, e, f, v.same, w.same)
          (λ k.
            let (t, ran, past, q, bits) = clock_step-lem s p v.ticks 3 store_pts _ v.small k in
            let (u, ran', past', q', bits') =
              clock_step-lem t (p + 40) w.ticks 1 store_dts gs w.small past.reading in
            (
              u,
              chosen false true e f
                  ∙ ap (λ r. then_step r (λ x. clock_step x store_dts)) ran
                  ∙ ran',
              record {
                reading =
                    subst (λ r. IsReading u.bs r gs) {x = p + 40 + 40} {y = p + 80} (omega arith)
                      past'.reading;
                buffer = record {
                  bytes = past'.buffer.bytes ∙ past.buffer.bytes;
                  sized = past'.buffer.sized ∙ past.buffer.sized;
                };
                unmarked = past'.unmarked ∙ past.unmarked;
              },
              q' ∙ ap (store_dts (pos w.ticks)) q,
              omega (arith, bits, bits'),
            ))

    pub pts_step-lem : ReadsClocks (pts_part pkt) (with_clocks pkt s.pkt)
    pts_step-lem = elim (Bool-cases (pkt.pts_dts_flags == 2)) [
      | inl e ↦ one_clock e
      | inr e ↦ elim (Bool-cases (pkt.pts_dts_flags == 3)) [
        | inl f ↦ two_clocks e f
        | inr f ↦ no_clock e f
      ]
    ]

-- The clocks change nothing else.
pub with_clocks-keeps :
    (f : PesPacket → ℕ)
    → ((v : ℤ) (q : PesPacket) → f (store_pts v q) ≡ f q)
    → ((v : ℤ) (q : PesPacket) → f (store_dts v q) ≡ f q)
    → (pkt q : PesPacket) → f (with_clocks pkt q) ≡ f q
with_clocks-keeps f h k pkt q =
    elim (pkt.pts_dts_flags == 2)
      as (λ b.
        f (
          if b
          then store_pts pkt.pts q
          else if pkt.pts_dts_flags == 3
          then store_dts pkt.dts (store_pts pkt.pts q)
          else q)
        ≡ f q) [
          | true ↦ h pkt.pts q
          | false ↦
              elim (pkt.pts_dts_flags == 3)
                as (λ c. f (if c then store_dts pkt.dts (store_pts pkt.pts q) else q) ≡ f q) [
                  | true ↦ k pkt.dts (store_pts pkt.pts q) ∙ h pkt.pts q
                  | false ↦ refl
                ]
        ]

-- A part whose flag is not set is not there.
pub skipped :
    (flag : ℕ) (s : State) (step : Option Step) (f : State → Option Step)
    → flag ≡ 0
    → then_step (when_set flag s step) f ≡ f s
skipped flag s step f e = ap (λ n. then_step (when_set n s step) f) e

pub optional_step-none :
    (s : State)
    → s.pkt.escr_flag ≡ 0
    → s.pkt.es_rate_flag ≡ 0
    → s.pkt.dsm_trick_mode_flag ≡ 0
    → s.pkt.additional_copy_info_flag ≡ 0
    → s.pkt.pes_crc_flag ≡ 0
    → optional_step s ≡ some (goes_on s)
optional_step-none s e₁ e₂ e₃ e₄ e₅ =
    skipped s.pkt.escr_flag s _ _ e₁
    ∙ skipped s.pkt.es_rate_flag s _ _ e₂
    ∙ skipped s.pkt.dsm_trick_mode_flag s _ _ e₃
    ∙ skipped s.pkt.additional_copy_info_flag s _ _ e₄
    ∙ ap (λ n. when_set n s (pes_crc_step s)) e₅

-- What the clocks take up.
pub record IsCounted (part : Part) : Type 0 where
  pub same : total part.calls ≡ part.counted
  pub whole : part.counted % 8 ≡ 0
  pub narrow : AllNarrow part.calls

AllNarrow-clock : (v : ℤ) (gs : List Field) → AllNarrow gs → AllNarrow (write33bit_ts v ++ gs)
AllNarrow-clock v gs h =
    (omega arith, (omega arith, (omega arith, (omega arith, (omega arith, (omega arith, h))))))

pub pts_part-IsCounted : (pkt : PesPacket) → IsCounted (pts_part pkt)
pts_part-IsCounted pkt =
    elim (pkt.pts_dts_flags == 2)
      as (λ b. IsCounted (
        if b
        then record { calls = field 2 4 ∷ write33bit_ts pkt.pts; counted = 40 }
        else if pkt.pts_dts_flags == 3
        then record {
          calls = field 3 4 ∷ write33bit_ts pkt.pts ++ field 1 4 ∷ write33bit_ts pkt.dts;
          counted = 80;
        }
        else no_part)) [
          | true ↦ record {
            same = refl;
            whole = refl;
            narrow = (omega arith, AllNarrow-clock pkt.pts [] tt);
          }
          | false ↦
              elim (pkt.pts_dts_flags == 3)
                as (λ c. IsCounted (
                  if c
                  then record {
                    calls = field 3 4 ∷ write33bit_ts pkt.pts ++ field 1 4 ∷ write33bit_ts pkt.dts;
                    counted = 80;
                  }
                  else no_part)) [
                    | true ↦ record {
                      same = refl;
                      whole = refl;
                      narrow = (
                        omega arith,
                        AllNarrow-clock pkt.pts (field 1 4 ∷ write33bit_ts pkt.dts)
                            (omega arith, AllNarrow-clock pkt.dts [] tt),
                      );
                    }
                    | false ↦ record { same = refl; whole = refl; narrow = tt }
                  ]
        ]

-- A part that goes on.
pub then_goes :
    (r : Option Step) (s : State) (f : State → Option Step)
    → r ≡ some (goes_on s)
    → then_step r f ≡ f s
then_goes r s f e = ap (λ x. then_step x f) e

pub body_step-header :
    (s : State) (n : ℕ) → has_header s.pkt.stream_id ≡ true → body_step s n ≡ header_step s n
body_step-header s n e =
    ap
      (λ b.
        if b
        then header_step s n
        else if is_data_only s.pkt.stream_id
        then data_only_step s
        else if s.pkt.stream_id == 0xbe
        then padding_step s
        else some (goes_on s))
      e
