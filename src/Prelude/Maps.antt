-- ===== src/Prelude/Maps.antt =====
-- A map with numbers as keys, as an association list. The source's `std::unordered_map` promises no
-- order of its entries, and no theorem is about the order here.
use Prim.Native.Nat.{ℕ}
use mathlib.Core.Path.{◌≡◌, refl}
use mathlib.Core.Logic.{◌≢◌}
use mathlib.Core.Option.{Option, none, some}
use mathlib.Core.List.{List, [], ◌∷◌}
use native.Mathlib.Omega.{arith}
use brawololo.Prelude.Tests.{◌==◌, if◌then◌else◌}

module _ {ℓ} {A : Type ℓ} where
  unfoldable pub lookup : ℕ → List (ℕ × A) → Option A
  lookup k [] = none
  lookup k (e ∷ m) = let rest = lookup k m in if e.0 == k then some e.1 else rest

  -- Assignment through `operator[]`.
  unfoldable pub assign : ℕ → A → List (ℕ × A) → List (ℕ × A)
  assign k a [] = (k, a) ∷ []
  assign k a (e ∷ m) = let rest = assign k a m in if e.0 == k then (k, a) ∷ m else e ∷ rest

  unfoldable pub erase : ℕ → List (ℕ × A) → List (ℕ × A)
  erase k [] = []
  erase k (e ∷ m) = let rest = erase k m in if e.0 == k then rest else e ∷ rest

module _ {ℓ} {A : Type ℓ} where
  pub lookup-assign : (k : ℕ) (a : A) (m : List (ℕ × A)) → lookup k (assign k a m) ≡ some a
  unfolding lookup assign
  lookup-assign k a [] = ground arith
  lookup-assign k a (e ∷ m) = let ih = lookup-assign k a m in ground arith

  pub lookup-assign_other :
      (k j : ℕ) (a : A) (m : List (ℕ × A)) → j ≢ k → lookup j (assign k a m) ≡ lookup j m
  unfolding lookup assign
  lookup-assign_other k j a [] h = ground arith
  lookup-assign_other k j a (e ∷ m) h = let ih = lookup-assign_other k j a m h in ground arith

  pub lookup-erase : (k : ℕ) (m : List (ℕ × A)) → lookup k (erase k m) ≡ none
  unfolding lookup erase
  lookup-erase k [] = refl
  lookup-erase k (e ∷ m) = let ih = lookup-erase k m in ground arith

  pub lookup-erase_other : (k j : ℕ) (m : List (ℕ × A)) → j ≢ k → lookup j (erase k m) ≡ lookup j m
  unfolding lookup erase
  lookup-erase_other k j [] h = refl
  lookup-erase_other k j (e ∷ m) h = let ih = lookup-erase_other k j m h in ground arith
