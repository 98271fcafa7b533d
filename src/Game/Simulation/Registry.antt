-- ===== src/Game/Simulation/Registry.antt =====
-- The `entt::registry` of GameLogic/src/Simulation.cpp, which the EnTT library provides: what the
-- simulation calls, and what it relies on. `replace` stands for emplace, emplace_or_replace, remove and
-- writes through a reference; `view` for the entities whose components pass a test, in no stated order.
pub mod Memory
use mathlib.Core.List.{Memᴰ}
use brawololo.Prelude.{◌≡◌, ◌≢◌, ◌↔◌, Bool, true, false, List}
use brawololo.Game.Components.{Components, no_components}

pub record Entt : Type 1 where
  pub Registry : Type 0
  pub Entity : Type 0
  pub empty : Registry
  pub create : Registry → Registry × Entity
  pub destroy : Entity → Registry → Registry
  pub valid : Entity → Registry → Bool
  pub components : Entity → Registry → Components
  pub replace : Entity → Components → Registry → Registry
  pub view : (Components → Bool) → Registry → List Entity

-- A created entity is new and has no components; each call leaves the other entities alone; a view
-- lists the valid entities that pass its test.
pub record IsLawful (E : Entt) : Type 0 where
  pub same_entity : Discrete E.Entity
  pub valid-empty : (e : E.Entity) → E.valid e E.empty ≡ false
  pub valid-fresh : (r : E.Registry) → E.valid (E.create r).1 r ≡ false
  pub valid-create : (r : E.Registry) → E.valid (E.create r).1 (E.create r).0 ≡ true
  pub components-create :
      (r : E.Registry) → E.components (E.create r).1 (E.create r).0 ≡ no_components
  pub valid-create_other :
      (r : E.Registry) (e : E.Entity) → e ≢ (E.create r).1 → E.valid e (E.create r).0 ≡ E.valid e r
  pub components-create_other :
      (r : E.Registry) (e : E.Entity)
      → e ≢ (E.create r).1
      → E.components e (E.create r).0 ≡ E.components e r
  pub valid-replace :
      (r : E.Registry) (e d : E.Entity) (c : Components)
      → E.valid e r ≡ true
      → E.valid d (E.replace e c r) ≡ E.valid d r
  pub components-replace :
      (r : E.Registry) (e : E.Entity) (c : Components)
      → E.valid e r ≡ true
      → E.components e (E.replace e c r) ≡ c
  pub components-replace_other :
      (r : E.Registry) (e d : E.Entity) (c : Components)
      → d ≢ e
      → E.components d (E.replace e c r) ≡ E.components d r
  pub valid-destroy : (r : E.Registry) (e : E.Entity) → E.valid e (E.destroy e r) ≡ false
  pub valid-destroy_other :
      (r : E.Registry) (e d : E.Entity) → d ≢ e → E.valid d (E.destroy e r) ≡ E.valid d r
  pub components-destroy_other :
      (r : E.Registry) (e d : E.Entity) → d ≢ e → E.components d (E.destroy e r) ≡ E.components d r
  pub view_mem :
      (r : E.Registry) (test : Components → Bool) (e : E.Entity)
      → Memᴰ e (E.view test r) ↔ ((E.valid e r ≡ true) × (test (E.components e r) ≡ true))
