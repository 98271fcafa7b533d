-- ===== src/Prelude/Sort.antt =====
-- `std::stable_sort` of the C++ library, by insertion: the first argument of `less` goes in front of
-- the second where it is less, and equal elements keep their order.
use Prim.Native.Nat.{suc}
use mathlib.Core.Path.{◌≡◌, refl, ap, ◌∙◌}
use mathlib.Core.Logic.{inl, inr}
use mathlib.Core.Bool.{Bool, true, false}
use mathlib.Core.List.{List, [], ◌∷◌, Perm}
use mathlib.Core.List.Perm
use brawololo.Prelude.Tests.{if◌then◌else◌, Bool-cases}
use brawololo.Prelude.Lists.{length, All}

module _ {ℓ} {A : Type ℓ} (less : A → A → Bool) where
  unfoldable pub insert : A → List A → List A
  insert x [] = x ∷ []
  insert x (y ∷ ys) = let rest = insert x ys in if less y x then y ∷ rest else x ∷ y ∷ ys

  unfoldable pub stable_sort : List A → List A
  unfolding insert
  stable_sort [] = []
  stable_sort (x ∷ xs) = insert x (stable_sort xs)

  -- No element is less than an earlier one.
  abbrev pub Ordered : List A → Type 0
  Ordered [] = Unit {0}
  Ordered (x ∷ xs) = All (λ y. less y x ≡ false) xs × Ordered xs

  insert-Perm : (x : A) (xs : List A) → Perm (x ∷ xs) (insert x xs)
  unfolding insert
  insert-Perm x [] = Perm.refl (x ∷ [])
  insert-Perm x (y ∷ ys) = elim (Bool-cases (less y x)) [
    | inl before ↦ rw before (Perm.trans (Perm.swap _ _ _) (Perm.cons _ (insert-Perm x ys)))
    | inr after ↦ rw after (Perm.refl (x ∷ y ∷ ys))
  ]

  length-insert : (x : A) (xs : List A) → length (insert x xs) ≡ suc (length xs)
  unfolding insert
  length-insert x [] = refl
  length-insert x (y ∷ ys) = elim (Bool-cases (less y x)) [
    | inl before ↦ rw before (ap suc (length-insert x ys))
    | inr after ↦ rw after refl
  ]

  pub length-stable_sort : (xs : List A) → length (stable_sort xs) ≡ length xs
  unfolding stable_sort
  length-stable_sort [] = refl
  length-stable_sort (x ∷ xs) = length-insert x (stable_sort xs) ∙ ap suc (length-stable_sort xs)

  pub stable_sort-Perm : (xs : List A) → Perm xs (stable_sort xs)
  unfolding stable_sort
  stable_sort-Perm [] = Perm.refl []
  stable_sort-Perm (x ∷ xs) =
      Perm.trans (Perm.cons _ (stable_sort-Perm xs)) (insert-Perm x (stable_sort xs))

  All-insert : (P : A → Type 0) (x : A) (xs : List A) → P x → All P xs → All P (insert x xs)
  unfolding insert
  All-insert P x [] hx h = (hx, tt)
  All-insert P x (y ∷ ys) hx h = elim (Bool-cases (less y x)) [
    | inl before ↦ rw before (h.0, All-insert P x ys hx h.1)
    | inr after ↦ rw after (hx, h)
  ]

  -- `less` is asymmetric, and so is being no less transitive.
  module _ (asym : (a b : A) → less a b ≡ true → less b a ≡ false)
      (trans : (a b c : A) → less a b ≡ false → less b c ≡ false → less a c ≡ false) where
    All-trans :
        (x y : A) (ys : List A)
        → less y x ≡ false
        → All (λ z. less z y ≡ false) ys
        → All (λ z. less z x ≡ false) ys
    All-trans x y [] e h = tt
    All-trans x y (z ∷ zs) e h = (trans z y x h.0 e, All-trans x y zs e h.1)

    insert-Ordered : (x : A) (xs : List A) → Ordered xs → Ordered (insert x xs)
    unfolding insert
    insert-Ordered x [] h = (tt, tt)
    insert-Ordered x (y ∷ ys) h = elim (Bool-cases (less y x)) [
      | inl before ↦
          rw before
            (All-insert (λ z. less z y ≡ false) x ys (asym y x before) h.0, insert-Ordered x ys h.1)
      | inr after ↦ rw after ((after, All-trans x y ys after h.0), h)
    ]

    pub stable_sort-Ordered : (xs : List A) → Ordered (stable_sort xs)
    unfolding stable_sort
    stable_sort-Ordered [] = tt
    stable_sort-Ordered (x ∷ xs) = insert-Ordered x (stable_sort xs) (stable_sort-Ordered xs)
