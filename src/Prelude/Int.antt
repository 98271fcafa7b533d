-- ===== src/Prelude/Int.antt =====
-- Signed integers over the native numbers, under the library's names.
use brawololo.Prelude.Tests.{ltb, leb, ◌==◌, if◌then◌else◌}
use Prim.Native.Nat.{ℕ, suc, ◌+◌, ◌-◌, ◌*◌, ◌/◌, ◌≤◌}
use mathlib.Core.Path.{◌≡◌}
use mathlib.Core.Bool.{Bool, ◌&&◌}
use native.Mathlib.Omega.{arith}

-- `negsuc n` is -(n + 1).
pub data ℤ : Type 0 where
  pos : ℕ → ℤ
  negsuc : ℕ → ℤ

abbrev pub pos_part : ℤ → ℕ
pos_part (pos n) = n
pos_part (negsuc n) = 0

abbrev pub neg_part : ℤ → ℕ
neg_part (pos n) = 0
neg_part (negsuc n) = suc n

-- a - b, as an integer.
abbrev pub sub_ℕ : ℕ → ℕ → ℤ
sub_ℕ a b = if leb b a then pos (a - b) else negsuc (b - a - 1)

infixl 65 ◌+ℤ◌ ◌-ℤ◌
infixl 70 ◌*ℤ◌
infix 50 ◌≤ℤ◌
unfoldable pub ◌+ℤ◌ : ℤ → ℤ → ℤ
a +ℤ b = sub_ℕ (pos_part a + pos_part b) (neg_part a + neg_part b)

unfoldable pub ◌-ℤ◌ : ℤ → ℤ → ℤ
a -ℤ b = sub_ℕ (pos_part a + neg_part b) (neg_part a + pos_part b)

unfoldable pub ◌*ℤ◌ : ℤ → ℤ → ℤ
a *ℤ b =
    sub_ℕ (pos_part a * pos_part b + neg_part a * neg_part b)
      (pos_part a * neg_part b + neg_part a * pos_part b)

abbrev pub ◌≤ℤ◌ : ℤ → ℤ → Type 0
a ≤ℤ b = pos_part a + neg_part b ≤ pos_part b + neg_part a

abbrev pub ltb_ℤ : ℤ → ℤ → Bool
ltb_ℤ a b = ltb (pos_part a + neg_part b) (pos_part b + neg_part a)

abbrev pub eqb_ℤ : ℤ → ℤ → Bool
eqb_ℤ a b = pos_part a == pos_part b && neg_part a == neg_part b

abbrev pub leb_ℤ : ℤ → ℤ → Bool
leb_ℤ a b = leb (pos_part a + neg_part b) (pos_part b + neg_part a)

abbrev pub negate : ℤ → ℤ
negate a = sub_ℕ (neg_part a) (pos_part a)

-- std::abs.
abbrev pub abs : ℤ → ℤ
abs a = pos (pos_part a + neg_part a)

-- Division rounds toward 0.
infixl 70 ◌/ℤ◌
unfoldable pub ◌/ℤ◌ : ℤ → ℤ → ℤ
a /ℤ pos d = sub_ℕ (pos_part a / d) (neg_part a / d)
a /ℤ negsuc d = sub_ℕ (neg_part a / suc d) (pos_part a / suc d)

pub eq_of_parts : (a b : ℤ) → pos_part a + neg_part b ≡ pos_part b + neg_part a → a ≡ b
eq_of_parts a b h = ground arith

pub sub_ℕ_parts : (a b : ℕ) → (pos_part (sub_ℕ a b) ≡ a - b) × (neg_part (sub_ℕ a b) ≡ b - a)
sub_ℕ_parts a b = (ground arith, ground arith)

-- The parts of a result, for `omega` to work with the operations shut.
pub +ℤ_parts :
    (a b : ℤ)
    → (pos_part (a +ℤ b) ≡ (pos_part a + pos_part b) - (neg_part a + neg_part b))
      × (neg_part (a +ℤ b) ≡ (neg_part a + neg_part b) - (pos_part a + pos_part b))
unfolding ◌+ℤ◌
+ℤ_parts a b = sub_ℕ_parts (pos_part a + pos_part b) (neg_part a + neg_part b)

pub -ℤ_parts :
    (a b : ℤ)
    → (pos_part (a -ℤ b) ≡ (pos_part a + neg_part b) - (neg_part a + pos_part b))
      × (neg_part (a -ℤ b) ≡ (neg_part a + pos_part b) - (pos_part a + neg_part b))
unfolding ◌-ℤ◌
-ℤ_parts a b = sub_ℕ_parts (pos_part a + neg_part b) (neg_part a + pos_part b)
