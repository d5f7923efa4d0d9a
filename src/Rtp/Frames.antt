-- ===== src/Rtp/Frames.antt =====
-- The positions that the search for frames returns.
use native.Mathlib.Decide.{dec_lt}
use libltntstools.Base.{
  ℕ, zero, suc, ◌+◌, ◌-◌, ◌*◌, ◌^◌, ◌≤◌, ◌<◌, ◌≡◌, refl, sym, subst, arith, u32, u64, true, false,
  List, [], ◌∷◌,
}
use libltntstools.Packet.{Pointer}
use libltntstools.Rtp.{Position, hdr_at, is_frame, found, query_loop, query_positions}

module _ (buf : Pointer) (length_bytes addr ssrc : ℕ) where
  -- A position of the buffer that passes the tests, with its header.
  pub record IsFound (p : Position) : Type 0 where
    pub index : ℕ
    pub inside : index + 2 * 188 < length_bytes
    pub offset_of : p.offset ≡ addr + index
    pub passes : is_frame buf ssrc index ≡ true
    pub header : p.frame ≡ hdr_at buf index

  -- Positions in order, a packet and a header apart at least, each with the distance to the next
  -- as its length and the last with none.
  abbrev pub IsChain : List Position → Type 0
  IsChain [] = Unit {0}
  IsChain (p ∷ []) = IsFound p × (p.length_bytes ≡ 0)
  IsChain (p ∷ q ∷ rs) =
      IsFound p
      × (p.length_bytes ≡ u32 (q.offset - p.offset))
      × (p.offset + 200 ≤ q.offset)
      × IsChain (q ∷ rs)

  abbrev EndsBefore : List Position → ℕ → Type 0
  EndsBefore [] n = Unit {0}
  EndsBefore (p ∷ []) n = p.offset + 200 ≤ n
  EndsBefore (p ∷ q ∷ rs) n = EndsBefore (q ∷ rs) n

  EndsBefore-weaken : (arr : List Position) (n k : ℕ) → n ≤ k → EndsBefore arr n → EndsBefore arr k
  EndsBefore-weaken [] n k h e = e
  EndsBefore-weaken (p ∷ []) n k h e = omega (arith, e, h)
  EndsBefore-weaken (p ∷ q ∷ rs) n k h e = EndsBefore-weaken (q ∷ rs) n k h e

  found-IsChain :
      (arr : List Position) (p : Position)
      → IsChain arr
      → EndsBefore arr p.offset
      → IsFound p
      → p.length_bytes ≡ 0
      → IsChain (found arr p)
  unfolding found
  found-IsChain [] p chain before k e = (k, e)
  found-IsChain (q ∷ []) p chain before k e = (
    record {
      index = chain.0.index;
      inside = chain.0.inside;
      offset_of = chain.0.offset_of;
      passes = chain.0.passes;
      header = chain.0.header;
    },
    refl,
    before,
    (k, e),
  )
  found-IsChain (q ∷ r ∷ []) p chain before k e =
      (chain.0, chain.1, chain.2, found-IsChain (r ∷ []) p chain.3 before k e)
  found-IsChain (q ∷ r ∷ s ∷ rs) p chain before k e =
      (chain.0, chain.1, chain.2, found-IsChain (r ∷ s ∷ rs) p chain.3 before k e)

  found-EndsBefore :
      (arr : List Position) (p : Position) (n : ℕ) → p.offset + 200 ≤ n → EndsBefore (found arr p) n
  unfolding found
  found-EndsBefore [] p n h = h
  found-EndsBefore (q ∷ []) p n h = h
  found-EndsBefore (q ∷ r ∷ []) p n h = found-EndsBefore (r ∷ []) p n h
  found-EndsBefore (q ∷ r ∷ s ∷ rs) p n h = found-EndsBefore (r ∷ s ∷ rs) p n h

  abbrev here : ℕ → Position
  here i = record { offset = u64 (addr + i); length_bytes = 0; frame = hdr_at buf i }

  module _ (n i : ℕ) (arr : List Position) where
    query_loop_stop :
        ¬ i < length_bytes - 2 * 188 → query_loop (suc n) buf length_bytes addr ssrc i arr ≡ arr
    unfolding query_loop
    query_loop_stop h = ground (arith, h)

    query_loop_skip :
        i < length_bytes - 2 * 188
        → is_frame buf ssrc i ≡ false
        → query_loop (suc n) buf length_bytes addr ssrc i arr
          ≡ query_loop n buf length_bytes addr ssrc (i + 1) arr
    unfolding query_loop
    query_loop_skip h e = ground (arith, h, e)

    query_loop_take :
        i < length_bytes - 2 * 188
        → is_frame buf ssrc i ≡ true
        → query_loop (suc n) buf length_bytes addr ssrc i arr
          ≡ query_loop n buf length_bytes addr ssrc (i + (12 + 188)) (found arr (here i))
    unfolding query_loop
    query_loop_take h e = ground (arith, h, e)

  query_loop-IsChain :
      (n i : ℕ) (arr : List Position)
      → addr + length_bytes < 2 ^ 64
      → IsChain arr
      → EndsBefore arr (addr + i)
      → IsChain (query_loop n buf length_bytes addr ssrc i arr)
  unfolding query_loop
  query_loop-IsChain zero i arr fits chain before = chain
  query_loop-IsChain (suc n) i arr fits chain before = elim (dec_lt i (length_bytes - 2 * 188)) [
    | no h ↦ subst IsChain (sym (query_loop_stop n i arr h)) chain
    | yes h ↦
        elim (is_frame buf ssrc i)
            as (λ b.
              is_frame buf ssrc i ≡ b
              → IsChain (query_loop (suc n) buf length_bytes addr ssrc i arr)) [
                | false ↦ λ e. subst IsChain (sym (query_loop_skip n i arr h e)) (
                    query_loop-IsChain n (i + 1) arr fits chain
                      (EndsBefore-weaken arr (addr + i) (addr + (i + 1)) (omega arith) before))
                | true ↦ λ e.
                    (let at : u64 (addr + i) ≡ addr + i = omega (arith, fits, h) in
                      let next =
                        found-IsChain arr (here i) chain
                          (EndsBefore-weaken arr (addr + i) (u64 (addr + i)) (omega (arith, at))
                            before)
                          (record {
                            index = i;
                            inside = omega (arith, h);
                            offset_of = at;
                            passes = e;
                            header = refl;
                          })
                          refl in
                      subst IsChain (sym (query_loop_take n i arr h e)) (
                        query_loop-IsChain n (i + (12 + 188)) (found arr (here i)) fits next (
                          found-EndsBefore arr (here i) (addr + (i + (12 + 188)))
                            (omega (arith, at)))))
              ]
          refl
  ]

-- Where no address wraps, the positions that `rtp_frame_queryPositions` returns are frames that pass its
-- tests with their headers, in order and at least 200 bytes apart, and the length of each but the last is
-- the distance to the next.
pub query_positions-IsChain :
    (buf : Pointer) (length_bytes addr ssrc : ℕ)
    → addr + length_bytes < 2 ^ 64
    → IsChain buf length_bytes addr ssrc (query_positions buf length_bytes addr ssrc)
unfolding query_positions
query_positions-IsChain buf length_bytes addr ssrc fits =
    query_loop-IsChain buf length_bytes addr ssrc (length_bytes + 1) 0 [] fits tt tt
