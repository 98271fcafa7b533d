-- ===== src/Game/FixedPoint.antt =====
-- GameLogic/include/GameLogic/FixedPoint.hpp and Math.hpp. A sum or product of int32_t that overflows is
-- undefined in the source and an integer here; the casts to `Fixed` wrap.
use brawololo.Prelude.{ℕ, ◌-◌, ◌%◌, ◌^◌, ◌<◌, ◌≤◌, ◌≡◌, not, ◌&&◌, ltb, arith, if◌then◌else◌}
use brawololo.Prelude.Int.{
  ℤ, pos, negsuc, pos_part, neg_part, sub_ℕ, ◌*ℤ◌, ◌/ℤ◌, ◌≤ℤ◌, ltb_ℤ, eqb_ℤ,
}
use brawololo.Game.Types.{Fixed}

abbrev pub fixed_one : ℤ
fixed_one = pos 1000

unfoldable pub pixels_to_fixed : ℤ → Fixed
unfolding ◌*ℤ◌
pixels_to_fixed pixels = pixels *ℤ fixed_one

unfoldable pub fixed_to_pixels : Fixed → ℤ
unfolding ◌/ℤ◌
fixed_to_pixels value = value /ℤ fixed_one

-- The int32_t with the low 32 bits of the number.
abbrev pub from_bits : ℕ → Fixed
from_bits n = if ltb n (2 ^ 31) then pos n else sub_ℕ n (2 ^ 32)

-- static_cast<Fixed> of an int64_t.
unfoldable pub to_fixed : ℤ → Fixed
to_fixed (pos n) = from_bits (n % 2 ^ 32)
to_fixed (negsuc n) = from_bits (2 ^ 32 - 1 - n % 2 ^ 32)

unfoldable pub fixed_mul_ratio : Fixed → ℤ → ℤ → Fixed
unfolding ◌*ℤ◌ ◌/ℤ◌ to_fixed
fixed_mul_ratio value numerator denominator = to_fixed (value *ℤ numerator /ℤ denominator)

-- std::clamp, whose bounds must be in order.
unfoldable pub clamp_fixed : Fixed → Fixed → Fixed → Fixed
clamp_fixed value low high =
    if ltb_ℤ value low then low else if ltb_ℤ high value then high else value

pub record Vec2Input : Type 0 where
  pub x : ℤ
  pub y : ℤ

-- `(move > 0) - (move < 0)`.
abbrev pub sign : ℤ → ℤ
sign move = if ltb_ℤ (pos 0) move then pos 1 else if ltb_ℤ move (pos 0) then negsuc 0 else pos 0

unfoldable pub normalize_digital_input : ℤ → ℤ → Vec2Input
unfolding ◌*ℤ◌
normalize_digital_input move_x move_y =
    if not (eqb_ℤ (sign move_x) (pos 0)) && not (eqb_ℤ (sign move_y) (pos 0))
    then record { x = sign move_x *ℤ pos 707; y = sign move_y *ℤ pos 707 }
    else record { x = sign move_x *ℤ pos 1000; y = sign move_y *ℤ pos 1000 }

pub clamp_fixed_bounds :
    (value low high : Fixed)
    → low ≤ℤ high
    → (low ≤ℤ clamp_fixed value low high) × (clamp_fixed value low high ≤ℤ high)
unfolding clamp_fixed
clamp_fixed_bounds value low high h = (ground arith, ground arith)

-- A cast of a number that fits is the number.
pub to_fixed_fits :
    (value : ℤ) → neg_part value ≤ 2 ^ 31 → pos_part value < 2 ^ 31 → to_fixed value ≡ value
unfolding to_fixed
to_fixed_fits (pos n) low high = ground arith
to_fixed_fits (negsuc n) low high = ground arith
