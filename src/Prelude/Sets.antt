-- ===== src/Prelude/Sets.antt =====
-- A set of numbers as a list. The source's `std::unordered_set` promises no order of iteration; no
-- theorem is about the order of what a set is iterated for.
use Prim.Native.Nat.{ℕ}
use mathlib.Core.Path.{◌≡◌, refl, ap}
use mathlib.Core.Bool.{Bool, true, false, ◌||◌}
use mathlib.Core.List.{List, [], ◌∷◌, ◌++◌}
use native.Mathlib.Omega.{arith}
use brawololo.Prelude.Tests.{◌==◌, ==_iff, if◌then◌else◌}

unfoldable pub contains : ℕ → List ℕ → Bool
contains k [] = false
contains k (j ∷ s) = j == k || contains k s

unfoldable pub add : ℕ → List ℕ → List ℕ
unfolding contains
add k s = if contains k s then s else k ∷ s

pub contains-append : (k : ℕ) (s t : List ℕ) → contains k (s ++ t) ≡ (contains k s || contains k t)
unfolding contains
contains-append k [] t = refl
contains-append k (j ∷ s) t = let ih = contains-append k s t in ground arith

pub contains-add : (k j : ℕ) (s : List ℕ) → contains k (add j s) ≡ (j == k || contains k s)
unfolding contains add
contains-add k j s = ground arith

pub contains-cong : (k j : ℕ) (s : List ℕ) → (k == j) ≡ true → contains k s ≡ contains j s
contains-cong k j s h = ap (λ i. contains i s) ((==_iff k j).0 h)

-- Membership in what one more number makes of a list.
pub contains-append_one :
    (k j : ℕ) (s : List ℕ) → contains k (s ++ j ∷ []) ≡ (contains k s || j == k)
unfolding contains
contains-append_one k j s = let split = contains-append k s (j ∷ []) in ground arith
