-- ===== src/Game/Simulation/Snapshots/Shown.antt =====
-- Which entities BuildSnapshot of GameLogic/src/Simulation.cpp shows to an observer, by their components.
use brawololo.Prelude.{◌≡◌, ◌⊎◌, Bool, Option, none, some}
use brawololo.Prelude.Int.{pos, ◌-ℤ◌, ◌≤ℤ◌, abs}
use brawololo.Prelude.Maps.{lookup}
use brawololo.Game.Types.{ClientId, NetworkEntityId}
use brawololo.Game.Map.{MapConfig, chunk_for_position}
use brawololo.Game.Replication.{MovementStateDto}
use brawololo.Game.Components.{Components, TransformComponent, VelocityComponent, AimComponent}
use brawololo.Game.Simulation.Registry.{Entt}
use brawololo.Game.Simulation.Config.{SimulationConfig}
use brawololo.Game.Simulation.{GameSimulation}
use brawololo.Game.Simulation.Snapshots.{movement_of_player}

-- The aim that is sent: the entity's, or (1000, 0) of an entity without one.
abbrev IsAim : Option AimComponent → MovementStateDto → Type 0
IsAim aim m =
    (aim ≡ some (record { x = m.aim_x; y = m.aim_y }))
    ⊎ ((aim ≡ none) × (m.aim_x ≡ pos 1000) × (m.aim_y ≡ pos 0))

abbrev MovesBy :
    Option NetworkEntityId
    → Option TransformComponent
    → Option VelocityComponent
    → Option AimComponent
    → MovementStateDto
    → Type 0
MovesBy id transform velocity aim m =
    (id ≡ some m.entity_id)
    × (transform ≡ some (record { x = m.x; y = m.y }))
    × (velocity ≡ some (record { vx = m.vx; vy = m.vy }))
    × IsAim aim m

-- The id, position, velocity and aim of an entity's components.
abbrev pub IsMoving : Components → MovementStateDto → Type 0
IsMoving row m = MovesBy row.network_identity row.transform row.velocity row.aim m

-- The owner that is sent: 0 of an entity without one.
abbrev pub IsOwner : Components → ClientId → Type 0
IsOwner row owner =
    (row.owned_by_player ≡ some owner) ⊎ ((row.owned_by_player ≡ none) × (owner ≡ 0))

-- In chunks that are at most the radius apart on each axis.
abbrev pub IsNear : MapConfig → MovementStateDto → MovementStateDto → Type 0
IsNear map p m =
    let a = chunk_for_position map p.x p.y in
    let b = chunk_for_position map m.x m.y in
    (abs (a.x -ℤ b.x) ≤ℤ map.interest_radius_chunks)
    × (abs (a.y -ℤ b.y) ≤ℤ map.interest_radius_chunks)

abbrev IsOfInterestTo :
    SimulationConfig
    → ClientId
    → Option MovementStateDto
    → Option ClientId
    → MovementStateDto
    → Type 0
IsOfInterestTo config observer player owned m =
    (owned ≡ some observer)
    ⊎ ((player ≡ none) ⊎ ((p : MovementStateDto) × (player ≡ some p) × IsNear config.map p m))

module _ (E : Entt) where
  open E use {Entity, valid, components}

  -- The observer owns the entity, has no player that moves, or has one that is near.
  abbrev pub IsOfInterest : ClientId → GameSimulation E → Components → MovementStateDto → Type 0
  unfolding lookup
  IsOfInterest observer s row m =
      IsOfInterestTo s.config observer (movement_of_player E (lookup observer s.player_by_client) s)
        row.owned_by_player m
