-- ===== src/Wire/Ints.antt =====
-- The values that the formats are made of: numbers of a machine width, signed numbers in two's
-- complement, and numbers that a test must accept.
use brawololo.Prelude.{ℕ, suc, ◌-◌, ◌*◌, ◌/◌, ◌<◌, ◌≡◌, List, arith, ltb, if◌then◌else◌}
use brawololo.Prelude.Int.{ℤ, pos, negsuc}
use brawololo.Wire.Bytes.{
  range, to_le, from_le, length-to_le, to_le-AreBytes, from_le-to_le, from_le-lt, to_le-from_le,
}
use brawololo.Wire.Reader.{Reader, Read, ◌<$>◌, read_uint}
use brawololo.Wire.Codec.{IsCodec, chunk-IsCodec, map-IsCodec}

-- The bit pattern of a signed number in `width` bytes, and the number that a pattern stands for.
unfoldable pub to_twos : ℕ → ℤ → ℕ
to_twos width (pos n) = n
to_twos width (negsuc n) = range width - 1 - n

unfoldable pub from_twos : ℕ → ℕ → ℤ
from_twos width v = if ltb v (range width / 2) then pos v else negsuc (range width - 1 - v)

abbrev pub IntFits : ℕ → ℤ → Type 0
IntFits width (pos n) = n < range width / 2
IntFits width (negsuc n) = n < range width / 2

unfoldable pub write_int : ℕ → ℤ → List ℕ
write_int width z = to_le width (to_twos width z)

module _ {E : Type 0} (fail : Reader E → Reader E) where
  unfoldable pub read_int : ℕ → Read E ℤ
  unfolding ◌<$>◌
  read_int width = from_twos width <$> read_uint fail width

  pub uint-IsCodec :
      (width : ℕ) → IsCodec (λ v. v < range width) (to_le width) (read_uint fail width)
  unfolding read_uint
  uint-IsCodec width =
      map-IsCodec from_le (to_le width)
        (λ v h. ((length-to_le width v, to_le-AreBytes width v), from_le-to_le width v h))
        (λ bs h. rw (← h.0) (from_le-lt bs h.1, to_le-from_le bs h.1)) (chunk-IsCodec fail width)

even_range : (w : ℕ) → range (suc w) / 2 ≡ 128 * range w
even_range w = omega arith

twos_back :
    (w : ℕ) (z : ℤ)
    → IntFits (suc w) z
    → (to_twos (suc w) z < range (suc w)) × (from_twos (suc w) (to_twos (suc w) z) ≡ z)
unfolding to_twos from_twos
twos_back w (pos n) h = ground arith
twos_back w (negsuc n) h = ground arith

twos_forth :
    (w v : ℕ)
    → v < range (suc w)
    → IntFits (suc w) (from_twos (suc w) v) × (to_twos (suc w) (from_twos (suc w) v) ≡ v)
unfolding to_twos from_twos
twos_forth w v h = ground arith

module _ {E : Type 0} (fail : Reader E → Reader E) where
  pub int-IsCodec : (w : ℕ) → IsCodec (IntFits (suc w)) (write_int (suc w)) (read_int fail (suc w))
  unfolding write_int read_int
  int-IsCodec w =
      map-IsCodec (from_twos (suc w)) (to_twos (suc w)) (twos_back w) (twos_forth w)
        (uint-IsCodec fail (suc w))
