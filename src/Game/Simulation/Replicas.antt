-- ===== src/Game/Simulation/Replicas.antt =====
-- GameLogic/src/Simulation.cpp: the state of one entity in a snapshot, and the components of its replica.
use brawololo.Prelude.{
  ◌+◌, ◌%◌, ◌^◌, Bool, true, false, not, ◌&&◌, ◌||◌, Option, none, some, List, [], ◌∷◌, ◌++◌, leb,
  ◌==◌, if◌then◌else◌,
}
use brawololo.Prelude.Int.{pos, eqb_ℤ}
use brawololo.Game.Types.{ClientId, NetworkEntityId, TimestampMs}
use brawololo.Game.Events.{DomainEvent, player_moved, local_prediction_corrected}
use brawololo.Game.Weapons.{WeaponType, WeaponDefinition, find_weapon_definition}
use brawololo.Game.Replication.{
  SnapshotPriority, medium, high, priority_code, ReplicatedEntityKind, MovementStateDto,
  CombatStateDto, EntityStateDto,
}
use brawololo.Game.Components.{
  TransformComponent, PlayerComponent, WeaponStateComponent, ProjectileComponent, Components,
  NetworkReplicationMode, default_transform, default_player, default_weapon_state, has, get_or,
}
use brawololo.Game.Simulation.Config.{SimulationConfig}
use brawololo.Game.Simulation.Movement.{Row}
use brawololo.Game.Simulation.Combat.{is_server}

-- `owner != nullptr && owner->clientId == clientId`.
abbrev pub is_owned_by : ClientId → Option ClientId → Bool
is_owned_by client_id none = false
is_owned_by client_id (some owner) = owner == client_id

abbrev pub is_warming : Option WeaponStateComponent → Bool
is_warming none = false
is_warming (some weapon) = weapon.warming

abbrev pub priority_for_entity : ClientId → Components → SnapshotPriority
priority_for_entity observer row =
    if has row.projectile
    then high
    else if is_owned_by observer row.owned_by_player
    then high
    else if is_warming row.weapon_state
    then high
    else medium

abbrev pub better_priority : SnapshotPriority → SnapshotPriority → SnapshotPriority
better_priority left right = if leb (priority_code right) (priority_code left) then left else right

-- The members of a CombatStateDTO before any is assigned.
abbrev default_combat : NetworkEntityId → CombatStateDto
default_combat id = record {
  entity_id = id;
  health = pos 100;
  max_health = pos 100;
  weapon_type = WeaponType.none;
  weapon_warming = false;
  weapon_warmup_completes_at_ms = 0;
  defeated = false;
  respawn_at_ms = 0;
  server_owned_projectile = false;
  projectile_owner_id = 0;
}

abbrev with_weapon : Option WeaponStateComponent → CombatStateDto → CombatStateDto
with_weapon none combat = combat
with_weapon (some weapon) combat = record combat {
  weapon_type = weapon.type;
  weapon_warming = weapon.warming;
  weapon_warmup_completes_at_ms = weapon.warmup_completes_at_ms;
}

abbrev pub player_combat :
    NetworkEntityId → PlayerComponent → Option WeaponStateComponent → CombatStateDto
player_combat id player weapon = with_weapon weapon (record (default_combat id) {
  health = player.health;
  max_health = player.max_health;
  defeated = player.defeated;
  respawn_at_ms = player.respawn_at_ms;
})

abbrev pub projectile_combat : NetworkEntityId → ProjectileComponent → CombatStateDto
projectile_combat id projectile = record (default_combat id) {
  weapon_type = projectile.source_weapon;
  server_owned_projectile = true;
  projectile_owner_id = projectile.owner_id;
}

-- The state of an entity by its movement, the rest of its components and its priority.
abbrev pub entity_state :
    MovementStateDto
    → SnapshotPriority
    → Option PlayerComponent
    → Option ProjectileComponent
    → Components
    → EntityStateDto
entity_state movement priority (some player) projectile row = record {
  movement = movement;
  combat = some (player_combat movement.entity_id player row.weapon_state);
  replication = record {
    entity_id = movement.entity_id;
    owner_client_id = get_or 0 row.owned_by_player;
    kind = ReplicatedEntityKind.player;
    priority = priority;
  };
}
entity_state movement priority none (some projectile) row = record {
  movement = movement;
  combat = some (projectile_combat movement.entity_id projectile);
  replication = record {
    entity_id = movement.entity_id;
    owner_client_id = get_or 0 row.owned_by_player;
    kind = ReplicatedEntityKind.projectile;
    priority = better_priority priority high;
  };
}
entity_state movement priority none none row = record {
  movement = movement;
  combat = none;
  replication = record {
    entity_id = movement.entity_id;
    owner_client_id = get_or 0 row.owned_by_player;
    kind = ReplicatedEntityKind.player;
    priority = priority;
  };
}

abbrev pub is_player_kind : ReplicatedEntityKind → Bool
is_player_kind ReplicatedEntityKind.player = true
is_player_kind ReplicatedEntityKind.projectile = false

abbrev pub is_local_player : ClientId → EntityStateDto → Bool
is_local_player local state =
    state.replication.owner_client_id == local && is_player_kind state.replication.kind

abbrev player_from : Option CombatStateDto → PlayerComponent → PlayerComponent
player_from none player = player
player_from (some combat) player = record player {
  health = combat.health;
  max_health = combat.max_health;
  defeated = combat.defeated;
  respawn_at_ms = combat.respawn_at_ms;
}

abbrev weapon_from : Option CombatStateDto → WeaponStateComponent → WeaponStateComponent
weapon_from none weapon = weapon
weapon_from (some combat) weapon = record weapon {
  type = combat.weapon_type;
  warming = combat.weapon_warming;
  warmup_completes_at_ms = combat.weapon_warmup_completes_at_ms;
}

abbrev combat_owner : Option CombatStateDto → NetworkEntityId
combat_owner none = 0
combat_owner (some combat) = combat.projectile_owner_id

abbrev combat_weapon : Option CombatStateDto → WeaponType
combat_weapon none = WeaponType.none
combat_weapon (some combat) = combat.weapon_type

abbrev lifetime_of : Option WeaponDefinition → TimestampMs
lifetime_of none = 0
lifetime_of (some weapon) = weapon.projectile_lifetime_ms

abbrev projectile_from :
    SimulationConfig → TimestampMs → Option CombatStateDto → ProjectileComponent
projectile_from config server_time combat =
    let weapon = combat_weapon combat in
    record {
      owner_id = combat_owner combat;
      spawned_at_ms = server_time;
      expires_at_ms =
          (server_time + lifetime_of (find_weapon_definition config.weapons weapon)) % 2 ^ 64;
      source_weapon = weapon;
    }

-- The components that depend on the kind of the entity.
abbrev pub with_kind :
    SimulationConfig → TimestampMs → EntityStateDto → ReplicatedEntityKind → Components → Components
with_kind config server_time state ReplicatedEntityKind.player row = record row {
  player = some (
      player_from state.combat (record (get_or default_player row.player) {
        client_id = state.replication.owner_client_id;
      }));
  weapon_state =
      some
        (weapon_from state.combat (get_or (default_weapon_state WeaponType.bow) row.weapon_state));
}
with_kind config server_time state ReplicatedEntityKind.projectile row = record row {
  projectile = some (projectile_from config server_time state.combat);
}

abbrev pub with_tags : SimulationConfig → Bool → Components → Components
with_tags config is_local row = record row {
  predicted = is_local;
  interpolated = not is_local;
  authoritative = is_server config.mode || row.authoritative;
}

abbrev pub replica_transform : EntityStateDto → TransformComponent
replica_transform state = record { x = state.movement.x; y = state.movement.y }

abbrev differs : TransformComponent → TransformComponent → Bool
differs old new = not (eqb_ℤ old.x new.x) || not (eqb_ℤ old.y new.y)

abbrev pub correction_events :
    Bool → Bool → NetworkEntityId → TransformComponent → TransformComponent → List DomainEvent
correction_events is_known is_predicted id old new =
    if is_known && is_predicted && differs old new
    then local_prediction_corrected id old.x old.y new.x new.y ∷ []
    else []

abbrev pub replica_moved_events :
    Bool → Bool → NetworkEntityId → TransformComponent → TransformComponent → List DomainEvent
replica_moved_events is_known is_player id old new =
    if is_known && differs old new && is_player
    then player_moved id old.x old.y new.x new.y ∷ []
    else []

-- One round of the loop of ApplySnapshot, for an entity that it found or made.
unfoldable pub apply_state :
    SimulationConfig → ClientId → TimestampMs → Bool → EntityStateDto → Components → Row
unfolding find_weapon_definition
apply_state config local server_time is_known state row =
    let id = state.movement.entity_id in
    let old = get_or default_transform row.transform in
    let new = replica_transform state in
    let is_local = is_local_player local state in
    let moved = record row {
      transform = some new;
      velocity = some (record { vx = state.movement.vx; vy = state.movement.vy });
      aim = some (record { x = state.movement.aim_x; y = state.movement.aim_y });
      owned_by_player = some state.replication.owner_client_id;
      network_replication = some NetworkReplicationMode.area_of_interest;
    } in
    let row' =
      with_tags config is_local (with_kind config server_time state state.replication.kind moved) in
    (
      row',
      correction_events is_known (is_local && row.predicted) id old new
          ++ replica_moved_events is_known (has row'.player) id old new,
    )
