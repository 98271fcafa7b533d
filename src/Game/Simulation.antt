-- ===== src/Game/Simulation.antt =====
-- GameLogic/include/GameLogic/Simulation.hpp and GameLogic/src/Simulation.cpp, over an EnTT registry. A
-- method returns the new state of its object, and the maps of the object are association lists.
pub mod Registry
pub mod Config
pub mod Movement
pub mod Combat
pub mod Fitness
pub mod Inputs
pub mod Players
pub mod Ticks
pub mod Replicas
pub mod Snapshots
use brawololo.Prelude.{
  ℕ, ◌+◌, ◌%◌, ◌^◌, Bool, true, false, not, Option, none, some, List, [], ◌∷◌, ◌++◌, length, leb,
  if◌then◌else◌,
}
use brawololo.Prelude.Int.{ℤ, pos, ◌*ℤ◌, ◌/ℤ◌}
use brawololo.Prelude.Maps.{lookup, assign, erase}
use brawololo.Game.Types.{ClientId, CommandSequence, NetworkEntityId, Tick, TimestampMs, Fixed}
use brawololo.Game.FixedPoint.{fixed_one, to_fixed}
use brawololo.Game.Commands.{LoginCommand, ClientInputPacket}
use brawololo.Game.Events.{DomainEvent, player_spawned, projectile_spawned}
use brawololo.Game.Replication.{MovementStateDto}
use brawololo.Game.Components.{
  TransformComponent, VelocityComponent, AimComponent, Components, NetworkReplicationMode,
  default_velocity, default_aim, default_weapon_state, no_components, has, get_or,
}
use brawololo.Game.Simulation.Registry.{Entt}
use brawololo.Game.Simulation.Config.{SimulationConfig}
use brawololo.Game.Simulation.Movement.{Row}
use brawololo.Game.Simulation.Combat.{ProjectileRequest, is_server, spawn_transform_for_client}

-- Whether the last sequence that was accepted is not before this one.
abbrev pub is_old : Option CommandSequence → CommandSequence → Bool
is_old none sequence = false
is_old (some last) sequence = leb sequence last

module _ (E : Entt) where
  open E use {Registry, Entity, empty, create, valid, components, replace, view}

  pub record GameSimulation : Type 0 where
    pub config : SimulationConfig
    pub registry : Registry
    pub tick : Tick
    pub time_ms : TimestampMs
    pub next_network_id : NetworkEntityId
    pub events : List DomainEvent
    pub pending_inputs : List ClientInputPacket
    pub player_by_client : List (ClientId × NetworkEntityId)
    pub entity_by_network_id : List (NetworkEntityId × Entity)
    pub last_accepted_sequence : List (ClientId × CommandSequence)

  abbrev pub create_simulation : SimulationConfig → GameSimulation
  create_simulation config = record {
    config = config;
    registry = empty;
    tick = 0;
    time_ms = 0;
    next_network_id = 1;
    events = [];
    pending_inputs = [];
    player_by_client = [];
    entity_by_network_id = [];
    last_accepted_sequence = [];
  }

  -- QueueEvent, for each of some events.
  abbrev pub queue_events : List DomainEvent → GameSimulation → GameSimulation
  queue_events events s = record s { events = s.events ++ events }

  abbrev pub queue_event : DomainEvent → GameSimulation → GameSimulation
  queue_event event = queue_events (event ∷ [])

  -- An entity's components, changed by a function that also queues events.
  abbrev pub update_entity : (Components → Row) → Entity → GameSimulation → GameSimulation
  update_entity change entity s =
      let (row, events) = change (components entity s.registry) in
      record s { registry = replace entity row s.registry; events = s.events ++ events }

  abbrev pub player_entity_for_client : ClientId → GameSimulation → Option NetworkEntityId
  player_entity_for_client client_id s = lookup client_id s.player_by_client

  -- `entt::null` is `none`.
  abbrev pub entity_for : NetworkEntityId → GameSimulation → Option Entity
  entity_for entity_id s = lookup entity_id s.entity_by_network_id

  abbrev pub entity_count : GameSimulation → ℕ
  entity_count s = length s.entity_by_network_id

  -- The movement that a snapshot carries of an entity that has one.
  abbrev pub movement_state :
      NetworkEntityId
      → TransformComponent
      → VelocityComponent
      → Option AimComponent
      → MovementStateDto
  movement_state id transform velocity aim = record {
    entity_id = id;
    x = transform.x;
    y = transform.y;
    vx = velocity.vx;
    vy = velocity.vy;
    aim_x = (get_or default_aim aim).x;
    aim_y = (get_or default_aim aim).y;
  }

  abbrev pub movement_of :
      Option NetworkEntityId
      → Option TransformComponent
      → Option VelocityComponent
      → Option AimComponent
      → Option MovementStateDto
  movement_of (some id) (some transform) (some velocity) aim =
      some (movement_state id transform velocity aim)
  movement_of _ _ _ aim = none

  abbrev pub movement_of_row : Components → Option MovementStateDto
  movement_of_row row = movement_of row.network_identity row.transform row.velocity row.aim

  abbrev pub movement_found : Option Entity → GameSimulation → Option MovementStateDto
  movement_found none s = none
  movement_found (some entity) s = movement_of_row (components entity s.registry)

  unfoldable pub movement_for_entity : NetworkEntityId → GameSimulation → Option MovementStateDto
  unfolding lookup
  movement_for_entity entity_id s = movement_found (entity_for entity_id s) s

  -- The id is a uint32_t.
  abbrev pub after_allocation : NetworkEntityId → NetworkEntityId
  after_allocation id = (id + 1) % 2 ^ 32

  -- A new entity with the next network id; `row` gives its components for that id.
  abbrev pub add_entity : (NetworkEntityId → Components) → GameSimulation → GameSimulation
  add_entity row s =
      let (registry, entity) = create s.registry in
      record s {
        registry = replace entity (row s.next_network_id) registry;
        next_network_id = after_allocation s.next_network_id;
        entity_by_network_id = assign s.next_network_id entity s.entity_by_network_id;
      }

  abbrev pub player_row : SimulationConfig → ClientId → Fixed → Fixed → NetworkEntityId → Components
  player_row config client_id x y id = record no_components {
    network_identity = some id;
    transform = some (record { x = x; y = y });
    velocity = some default_velocity;
    aim = some default_aim;
    player = some (record {
      client_id = client_id;
      health = config.max_player_health;
      max_health = config.max_player_health;
      defeated = false;
      respawn_at_ms = 0;
    });
    weapon_state = some (default_weapon_state config.default_weapon);
    owned_by_player = some client_id;
    network_replication = some NetworkReplicationMode.area_of_interest;
    authoritative = is_server config.mode;
    predicted = not (is_server config.mode);
  }

  unfoldable pub create_player : ClientId → Fixed → Fixed → GameSimulation → GameSimulation
  unfolding assign
  create_player client_id x y s =
      queue_event (player_spawned s.next_network_id client_id x y)
        (record (add_entity (player_row s.config client_id x y) s) {
          player_by_client = assign client_id s.next_network_id s.player_by_client;
        })

  abbrev pub projectile_row : TimestampMs → ProjectileRequest → NetworkEntityId → Components
  projectile_row now request id = record no_components {
    network_identity = some id;
    transform = some request.transform;
    velocity = some (record {
      vx = to_fixed (request.weapon.projectile_speed_per_second *ℤ request.aim.x /ℤ fixed_one);
      vy = to_fixed (request.weapon.projectile_speed_per_second *ℤ request.aim.y /ℤ fixed_one);
    });
    projectile = some (record {
      owner_id = request.owner_id;
      spawned_at_ms = now;
      expires_at_ms = (now + request.weapon.projectile_lifetime_ms) % 2 ^ 64;
      source_weapon = request.weapon.type;
    });
    network_replication = some NetworkReplicationMode.area_of_interest;
    authoritative = true;
  }

  unfoldable pub create_projectile : ProjectileRequest → GameSimulation → GameSimulation
  unfolding assign to_fixed ◌*ℤ◌ ◌/ℤ◌
  create_projectile request s =
      queue_event
        (projectile_spawned s.next_network_id request.owner_id request.transform.x
          request.transform.y request.weapon.type)
        (add_entity (projectile_row s.time_ms request) s)

  -- Submit of a LoginCommand.
  unfoldable pub submit_login : LoginCommand → GameSimulation → GameSimulation × Bool
  unfolding lookup assign create_player spawn_transform_for_client
  submit_login command s =
      let client_id = command.header.client_id in
      let spawn = spawn_transform_for_client s.config client_id in
      if has (lookup client_id s.player_by_client)
      then (s, true)
      else if leb s.config.max_players (length s.player_by_client)
      then (s, false)
      else (
        create_player client_id spawn.x spawn.y (record s {
          last_accepted_sequence =
              assign client_id command.header.sequence s.last_accepted_sequence;
        }),
        true,
      )

  -- Submit of a ClientInputPacket.
  unfoldable pub submit_input : ClientInputPacket → GameSimulation → GameSimulation × Bool
  unfolding lookup assign
  submit_input packet s =
      let client_id = packet.header.client_id in
      let sequence = packet.header.sequence in
      if not (has (lookup client_id s.player_by_client))
      then (s, false)
      else if is_old (lookup client_id s.last_accepted_sequence) sequence
      then (s, false)
      else (
        record s {
          last_accepted_sequence = assign client_id sequence s.last_accepted_sequence;
          pending_inputs = s.pending_inputs ++ packet ∷ [];
        },
        true,
      )

  abbrev pub drain_events : GameSimulation → GameSimulation × List DomainEvent
  drain_events s = (record s { events = [] }, s.events)
