-- ===== src/Packet/Types.antt =====
-- src/ts.c: the kinds of elementary streams.
use libltntstools.Base.{
  ℕ, ◌<◌, ◌≡◌, refl, arith, ◌==◌, ◌&&◌, ◌||◌, not, Bool, true, false, List, [], ◌∷◌,
}
use libltntstools.Base.Byte.{all_below, all_below_sound}

abbrev pub among : List ℕ → ℕ → Bool
among [] x = false
among (y ∷ ys) x = (x == y) || among ys x

-- `ltntstools_is_ESPayloadType_Video`
unfoldable pub is_es_payload_type_video : ℕ → Bool
is_es_payload_type_video t =
    among
      (0x01 ∷ 0x02 ∷ 0x1b ∷ 0x21 ∷ 0x24 ∷ 0x25 ∷ 0x27 ∷ 0x28 ∷ 0x29 ∷ 0x2a ∷ 0x33 ∷ 0xd2 ∷ 0xdb
        ∷ [])
      t

-- `ltntstools_is_ESPayloadType_Audio`
unfoldable pub is_es_payload_type_audio : ℕ → Bool
is_es_payload_type_audio t = among (0x03 ∷ 0x04 ∷ 0x07 ∷ 0x0f ∷ 0x81 ∷ 0xc1 ∷ 0xc2 ∷ 0xcf ∷ []) t

-- No stream type of a byte is both video and audio.
pub video_not_audio :
    (t : ℕ) → t < 256 → (is_es_payload_type_video t && is_es_payload_type_audio t) ≡ false
video_not_audio t h = flip (is_es_payload_type_video t && is_es_payload_type_audio t) (
    all_below_sound 256 (λ x. not (is_es_payload_type_video x && is_es_payload_type_audio x)) t
      (unfold all_below in
        unfold is_es_payload_type_video in unfold is_es_payload_type_audio in refl)
      h)
  where
    flip : (b : Bool) → not b ≡ true → b ≡ false
    flip false e = refl
    flip true e = ground (arith, e)
