-- ===== src/Game/Simulation/Snapshots/Observed.antt =====
-- Which entities BuildSnapshot of GameLogic/src/Simulation.cpp puts in a snapshot, and as what.
use mathlib.Core.List.{Memᴰ}
use mathlib.Core.Option.{some-injective, none-ne-some}
use brawololo.Prelude.{
  ◌≡◌, ◌↔◌, ◌⊎◌, inl, inr, refl, sym, ap, ◌∙◌, true, Option, none, some, List, [], ◌∷◌, &&_intro,
  Memᴰ-cons_if, subst,
}
use brawololo.Game.Types.{ClientId, SnapshotId, NetworkEntityId}
use brawololo.Game.Map.{ChunkCoord}
use brawololo.Game.Replication.{MovementStateDto, EntityStateDto, SnapshotPriority}
use brawololo.Game.Components.{
  Components, PlayerComponent, ProjectileComponent, TransformComponent, VelocityComponent,
  AimComponent, has,
}
use brawololo.Game.Simulation.Registry.{Entt, IsLawful}
use brawololo.Game.Simulation.Replicas.{entity_state}
use brawololo.Game.Simulation.Config.{SimulationConfig}
use brawololo.Game.Simulation.{GameSimulation, movement_of, movement_of_row}
use brawololo.Game.Simulation.Snapshots.{
  is_in_interest, state_of, push_state, entity_states, is_replicated, observer_chunk,
  build_snapshot,
}

-- The movement of a state is the one that it is made with.
pub movement-entity_state :
    (m : MovementStateDto) (priority : SnapshotPriority) (player : Option PlayerComponent)
    (projectile : Option ProjectileComponent) (row : Components)
    → (entity_state m priority player projectile row).movement ≡ m
movement-entity_state m priority none none row = refl
movement-entity_state m priority none (some x) row = refl
movement-entity_state m priority (some x) none row = refl
movement-entity_state m priority (some x) (some y) row = refl

module _ (E : Entt) where
  open E use {Entity, valid, components}

  -- The state of an entity that moves and that interests the observer.
  abbrev IsShown :
      SimulationConfig
      → ClientId
      → Option ChunkCoord
      → Option MovementStateDto
      → Components
      → EntityStateDto
      → Type 0
  IsShown config observer chunk moves row state =
      (m : MovementStateDto) × (moves ≡ some m)
      × (is_in_interest E config observer chunk m row ≡ true)
      × (state ≡ state_of E observer m row)

  push_state_mem :
      (config : SimulationConfig) (observer : ClientId) (chunk : Option ChunkCoord)
      (moves : Option MovementStateDto) (row : Components) (states : List EntityStateDto)
      (state : EntityStateDto)
      → Memᴰ state (push_state E config observer chunk moves row states)
        ↔ (IsShown config observer chunk moves row state ⊎ Memᴰ state states)
  push_state_mem config observer chunk none row states state =
      (λ m. inr m, λ h. elim h [ inl (_, e, _, _) ↦ absurd (none-ne-some _ e) | inr m ↦ m ])
  push_state_mem config observer chunk (some m) row states state =
      let step = Memᴰ-cons_if _ state (state_of E observer m row) states in
      (
        λ h. elim (step.0 h) [
          | inl (shown, same) ↦ inl (m, refl, shown, same)
          | inr later ↦ inr later
        ],
        λ h. elim h [
          | inl (n, e, shown, same) ↦
              let at_n = some-injective m n e in
              step.1 (
                inl (
                  subst (λ x. is_in_interest E config observer chunk x row ≡ true) (sym at_n) shown,
                  same ∙ ap (λ x. state_of E observer x row) (sym at_n),
                ))
          | inr later ↦ step.1 (inr later)
        ],
      )

  -- That a snapshot for the observer shows this entity in this state.
  abbrev pub IsStateOf :
      ClientId → Option ChunkCoord → GameSimulation E → Entity → EntityStateDto → Type 0
  IsStateOf observer chunk s entity state =
      let row = components entity s.registry in
      IsShown s.config observer chunk (movement_of_row E row) row state

  entity_states_mem :
      (observer : ClientId) (chunk : Option ChunkCoord) (s : GameSimulation E)
      (entities : List Entity) (state : EntityStateDto)
      → Memᴰ state (entity_states E observer chunk s entities)
        ↔ ((entity : Entity) × Memᴰ entity entities × IsStateOf observer chunk s entity state)
  unfolding entity_states
  entity_states_mem observer chunk s [] state = (λ m. elim m [ ], λ (_, m, _). elim m [ ])
  entity_states_mem observer chunk s (entity ∷ rest) state =
      let row = components entity s.registry in
      let ih = entity_states_mem observer chunk s rest state in
      let step =
        push_state_mem s.config observer chunk (movement_of_row E row) row
          (entity_states E observer chunk s rest) state in
      (
        λ h. elim (step.0 h) [
          | inl shown ↦ (entity, Memᴰ.head refl, shown)
          | inr later ↦ let (e, m, shown) = ih.0 later in (e, Memᴰ.tail m, shown)
        ],
        λ (e, m, shown). step.1 (split ih.1 e m shown),
      )
    where
      split :
          (((e : Entity) × Memᴰ e rest × IsStateOf observer chunk s e state)
            → Memᴰ state (entity_states E observer chunk s rest))
          → (e : Entity) → Memᴰ e (entity ∷ rest)
          → IsStateOf observer chunk s e state
          → IsStateOf observer chunk s entity state
            ⊎ Memᴰ state (entity_states E observer chunk s rest)
      split f e (Memᴰ.head same) shown =
          inl (subst (λ x. IsStateOf observer chunk s x state) same shown)
      split f e (Memᴰ.tail m) shown = inr (f (e, m, shown))

  movement_of-some :
      (id : Option NetworkEntityId) (t : Option TransformComponent) (v : Option VelocityComponent)
      (a : Option AimComponent) (m : MovementStateDto)
      → movement_of E id t v a ≡ some m
      → (has id ≡ true) × (has t ≡ true) × (has v ≡ true)
  movement_of-some none t v a m h = absurd (none-ne-some m h)
  movement_of-some (some id) none v a m h = absurd (none-ne-some m h)
  movement_of-some (some id) (some t) none a m h = absurd (none-ne-some m h)
  movement_of-some (some id) (some t) (some v) a m h = (refl, refl, refl)

  replicated :
      (row : Components) (m : MovementStateDto)
      → movement_of_row E row ≡ some m
      → is_replicated E row ≡ true
  replicated row m h =
      let (id, t, v) =
        movement_of-some row.network_identity row.transform row.velocity row.aim m h in
      &&_intro _ _ (&&_intro _ _ id t) v

  -- A snapshot for an observer holds a state exactly when it is the state of a valid entity that has
  -- an id, a position and a velocity, and that the observer owns or that stands in the area of interest
  -- around the chunk of the observer's player, where the observer has one.
  pub build_snapshot_mem :
      (L : IsLawful E) (observer : ClientId) (snapshot_id baseline_id : SnapshotId)
      (s : GameSimulation E) (state : EntityStateDto)
      → Memᴰ state (build_snapshot E observer snapshot_id baseline_id s).entities ↔ (
          (entity : Entity) × (valid entity s.registry ≡ true)
          × IsStateOf observer (observer_chunk E observer s) s entity state)
  unfolding build_snapshot
  build_snapshot_mem L observer snapshot_id baseline_id s state =
      let chunk = observer_chunk E observer s in
      let listed = entity_states_mem observer chunk s (E.view (is_replicated E) s.registry) state in
      (
        λ m.
            let (e, in_view, shown) = listed.0 m in
            (e, ((L.view_mem s.registry (is_replicated E) e).0 in_view).0, shown),
        λ (e, v, shown).
            let row = components e s.registry in
            listed.1 (
              e,
              (L.view_mem s.registry (is_replicated E) e).1 (v, replicated row shown.0 shown.1),
              shown,
            ),
      )
