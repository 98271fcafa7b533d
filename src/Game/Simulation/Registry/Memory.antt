-- ===== src/Game/Simulation/Registry/Memory.antt =====
-- A registry in memory: a table of so many rows, whose destroyed rows are empty.
use mathlib.Core.List.{Memᴰ}
use native.Mathlib.Decide.{ℕ_discrete}
use brawololo.Prelude.{
  Memᴰ-cons_if, ℕ, zero, suc, ◌+◌, ◌<◌, ◌≡◌, ◌↔◌, sym, subst, inl, inr, Bool, true, ◌&&◌, Option,
  none, some, List, [], ◌∷◌, ltb, ◌==◌, ==_iff, if◌then◌else◌, arith, Bool-cases, &&_true,
}
use brawololo.Game.Components.{Components, no_components, has, get_or}
use brawololo.Game.Simulation.Registry.{Entt, IsLawful}

pub record Table : Type 0 where
  pub size : ℕ
  pub row : ℕ → Option Components

abbrev set_row : ℕ → Option Components → (ℕ → Option Components) → ℕ → Option Components
set_row e c row d = if d == e then c else row d

abbrev is_valid : ℕ → Table → Bool
is_valid e t = ltb e t.size && has (t.row e)

abbrev components_of : ℕ → Table → Components
components_of e t = get_or no_components (t.row e)

abbrev entities_below : (Components → Bool) → Table → ℕ → List ℕ
entities_below test t zero = []
entities_below test t (suc n) =
    let rest = entities_below test t n in
    if is_valid n t && test (components_of n t) then n ∷ rest else rest

abbrev pub memory : Entt
memory = record {
  Registry = Table;
  Entity = ℕ;
  empty = record { size = 0; row = λ e. none };
  create =
      λ t. (record { size = t.size + 1; row = set_row t.size (some no_components) t.row }, t.size);
  destroy = λ e t. record t { row = set_row e none t.row };
  valid = is_valid;
  components = components_of;
  replace = λ e c t. record t { row = set_row e (some c) t.row };
  view = λ test t. entities_below test t t.size;
}

entities_below_mem :
    (test : Components → Bool) (t : Table) (n e : ℕ)
    → Memᴰ e (entities_below test t n)
      ↔ ((e < n) × (is_valid e t ≡ true) × (test (components_of e t) ≡ true))
entities_below_mem test t zero e = (λ m. elim m [ ], λ h. absurd (omega (arith, h.0)))
entities_below_mem test t (suc n) e =
    let ih = entities_below_mem test t n e in
    let keep = is_valid n t && test (components_of n t) in
    let step = Memᴰ-cons_if keep e n (entities_below test t n) in
    (
      λ m. elim (step.0 m) [
        | inl (kept, same) ↦
            let both = &&_true _ _ kept in
            (
              omega (arith, same),
              subst (λ k. is_valid k t ≡ true) (sym same) both.0,
              subst (λ k. test (components_of k t) ≡ true) (sym same) both.1,
            )
        | inr later ↦ let (below, v, passes) = ih.0 later in (omega arith, v, passes)
      ],
      λ (below, v, passes). elim (Bool-cases (e == n)) [
        | inl same ↦
            let at_n = (==_iff e n).0 same in
            let v_n = subst (λ k. is_valid k t ≡ true) at_n v in
            let t_n = subst (λ k. test (components_of k t) ≡ true) at_n passes in
            step.1 (inl (ground arith, at_n))
        | inr other ↦ step.1 (inr (ih.1 (ground arith, v, passes)))
      ],
    )

pub memory-IsLawful : IsLawful memory
memory-IsLawful = record {
  same_entity = ℕ_discrete;
  valid-empty = λ e. ground arith;
  valid-fresh = λ r. ground arith;
  valid-create = λ r. ground arith;
  components-create = λ r. ground arith;
  valid-create_other = λ r e h. ground arith;
  components-create_other = λ r e h. ground arith;
  valid-replace = λ r e d c h. ground arith;
  components-replace = λ r e c h. ground arith;
  components-replace_other = λ r e d c h. ground arith;
  valid-destroy = λ r e. ground arith;
  valid-destroy_other = λ r e d h. ground arith;
  components-destroy_other = λ r e d h. ground arith;
  view_mem = λ r test e.
      let below = entities_below_mem test r r.size e in
      (λ m. let h = below.0 m in (h.1, h.2), λ h. let v = h.0 in below.1 (ground arith, h.0, h.1));
}
