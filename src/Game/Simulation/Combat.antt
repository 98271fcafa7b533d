-- ===== src/Game/Simulation/Combat.antt =====
-- GameLogic/src/SimulationCombat.cpp: what it does to the components of one entity, with the events
-- that it queues and the projectiles to spawn.
use brawololo.Prelude.{
  ◌+◌, ◌/◌, ◌%◌, Bool, true, false, not, ◌||◌, ◌&&◌, ◌==◌, ◌++◌, ◌^◌, leb, Option, none, some, List,
  [], ◌∷◌, ltb, if◌then◌else◌,
}
use brawololo.Prelude.Int.{ℤ, pos, pos_part, ◌+ℤ◌, ◌-ℤ◌, ◌*ℤ◌, ltb_ℤ, leb_ℤ}
use brawololo.Game.Map.{map_width_fixed, map_height_fixed}
use brawololo.Game.Types.{TimestampMs, ClientId, NetworkEntityId, Fixed}
use brawololo.Game.FixedPoint.{pixels_to_fixed}
use brawololo.Game.Events.{
  weapon_fired, player_respawned, hit_confirmed, player_damaged, player_died,
}
use brawololo.Game.Weapons.{WeaponType, WeaponDefinition, find_weapon_definition}
use brawololo.Game.Components.{
  TransformComponent, VelocityComponent, AimComponent, PlayerComponent, ProjectileComponent,
  WeaponStateComponent, Components, default_velocity,
}
use brawololo.Game.Simulation.Config.{SimulationConfig, SimulationMode}
use brawololo.Game.Simulation.Movement.{Row, is_defeated}

-- What ProcessWeaponWarmups keeps to spawn a projectile after its loop.
pub record ProjectileRequest : Type 0 where
  pub owner_id : NetworkEntityId
  pub transform : TransformComponent
  pub aim : AimComponent
  pub weapon : WeaponDefinition

abbrev pub Fired : Type 0
Fired = Row × List ProjectileRequest

abbrev pub requests_for :
    NetworkEntityId → TransformComponent → AimComponent → WeaponDefinition → List ProjectileRequest
requests_for id transform aim definition =
    if definition.server_spawned_projectile
    then record { owner_id = id; transform = transform; aim = aim; weapon = definition } ∷ []
    else []

abbrev pub fire_weapon :
    TimestampMs
    → NetworkEntityId
    → TransformComponent
    → AimComponent
    → WeaponType
    → Option WeaponDefinition
    → Components
    → Fired
fire_weapon now id transform aim type none row = ((row, []), [])
fire_weapon now id transform aim type (some definition) row =
    ((row, weapon_fired id now type ∷ []), requests_for id transform aim definition)

abbrev pub is_server : SimulationMode → Bool
is_server SimulationMode.server_authoritative = true
is_server SimulationMode.client_prediction = false

abbrev pub finish_warmup :
    SimulationConfig
    → TimestampMs
    → NetworkEntityId
    → TransformComponent
    → AimComponent
    → WeaponStateComponent
    → Components
    → Fired
finish_warmup config now id transform aim weapon row =
    let idle = record row { weapon_state = some (record weapon { warming = false }) } in
    if is_defeated row.player
    then ((idle, []), [])
    else if not weapon.warming || ltb now weapon.warmup_completes_at_ms
    then ((row, []), [])
    else if is_server config.mode
    then fire_weapon now id transform aim weapon.type
        (find_weapon_definition config.weapons weapon.type) idle
    else ((idle, []), [])

-- One round of the loop of ProcessWeaponWarmups, for an entity of its view.
abbrev pub warm_present :
    SimulationConfig
    → TimestampMs
    → Option NetworkEntityId
    → Option TransformComponent
    → Option AimComponent
    → Option WeaponStateComponent
    → Components
    → Fired
warm_present config now (some id) (some transform) (some aim) (some weapon) row =
    finish_warmup config now id transform aim weapon row
warm_present config now _ _ _ _ row = ((row, []), [])

unfoldable pub process_weapon_warmup : SimulationConfig → TimestampMs → Components → Fired
unfolding find_weapon_definition
process_weapon_warmup config now row =
    warm_present config now row.network_identity row.transform row.aim row.weapon_state row

unfoldable pub spawn_transform_for_client : SimulationConfig → ClientId → TransformComponent
unfolding ◌*ℤ◌ pixels_to_fixed
spawn_transform_for_client config client_id = record {
  x = pixels_to_fixed (pos (10 + client_id % 20) *ℤ config.map.tile_size_pixels);
  y = pixels_to_fixed (pos (10 + client_id / 20 % 20) *ℤ config.map.tile_size_pixels);
}

abbrev pub rest_weapon : Option WeaponStateComponent → Option WeaponStateComponent
rest_weapon none = none
rest_weapon (some weapon) =
    some (record weapon { warming = false; warmup_started_at_ms = 0; warmup_completes_at_ms = 0 })

abbrev pub respawn :
    SimulationConfig → TimestampMs → NetworkEntityId → PlayerComponent → Components → Row
respawn config now id player row =
    let spawn = spawn_transform_for_client config player.client_id in
    if not player.defeated || ltb now player.respawn_at_ms then (row, []) else (
      record row {
        player =
            some
              (record player { health = player.max_health; defeated = false; respawn_at_ms = 0 });
        transform = some spawn;
        velocity = some default_velocity;
        weapon_state = rest_weapon row.weapon_state;
      },
      player_respawned id spawn.x spawn.y ∷ [],
    )

-- One round of the loop of ProcessRespawns, for an entity of its view.
abbrev pub respawn_present :
    SimulationConfig
    → TimestampMs
    → Option NetworkEntityId
    → Option PlayerComponent
    → Option TransformComponent
    → Option VelocityComponent
    → Components
    → Row
respawn_present config now (some id) (some player) (some _) (some _) row =
    respawn config now id player row
respawn_present config now _ _ _ _ row = (row, [])

unfoldable pub process_respawn : SimulationConfig → TimestampMs → Components → Row
unfolding spawn_transform_for_client
process_respawn config now row =
    respawn_present config now row.network_identity row.player row.transform row.velocity row

abbrev hit_radius : Fixed
unfolding pixels_to_fixed
hit_radius = pixels_to_fixed (pos 42)

unfoldable pub close_enough_for_hit : TransformComponent → TransformComponent → Bool
unfolding ◌+ℤ◌ ◌-ℤ◌ ◌*ℤ◌ pixels_to_fixed
close_enough_for_hit left right =
    let dx = left.x -ℤ right.x in
    let dy = left.y -ℤ right.y in leb_ℤ (dx *ℤ dx +ℤ dy *ℤ dy) (hit_radius *ℤ hit_radius)

-- Whether the inner loop of ProcessProjectiles hits this player with a projectile at `transform`.
abbrev pub hits_present :
    NetworkEntityId
    → TransformComponent
    → Option NetworkEntityId
    → Option PlayerComponent
    → Option TransformComponent
    → Bool
hits_present owner_id transform (some id) (some player) (some at_player) =
    not (id == owner_id) && not player.defeated && close_enough_for_hit transform at_player
hits_present owner_id transform _ _ _ = false

unfoldable pub hits : NetworkEntityId → TransformComponent → Components → Bool
unfolding close_enough_for_hit
hits owner_id transform row =
    hits_present owner_id transform row.network_identity row.player row.transform

abbrev pub damage_of : Option WeaponDefinition → ℤ
damage_of none = pos 0
damage_of (some weapon) = weapon.damage

-- `std::max(0, health - damage)`.
unfoldable pub health_after : PlayerComponent → ℤ → ℤ
unfolding ◌-ℤ◌
health_after player damage = pos (pos_part (player.health -ℤ damage))

abbrev pub wound :
    SimulationConfig
    → TimestampMs
    → NetworkEntityId
    → ProjectileComponent
    → NetworkEntityId
    → PlayerComponent
    → Components
    → Row
wound config now projectile_id projectile id player row =
    let damage = damage_of (find_weapon_definition config.weapons projectile.source_weapon) in
    let health = health_after player damage in
    let respawn_at = (now + config.respawn_delay_ms) % 2 ^ 64 in
    let wounded =
      hit_confirmed projectile.owner_id id projectile_id now
      ∷ player_damaged id projectile.owner_id damage health
      ∷ [] in
    if leb_ℤ health (pos 0)
    then (
      record row {
        player =
            some (record player { health = health; defeated = true; respawn_at_ms = respawn_at });
      },
      wounded ++ player_died id projectile.owner_id respawn_at ∷ [],
    )
    else (record row { player = some (record player { health = health }) }, wounded)

abbrev pub wound_present :
    SimulationConfig
    → TimestampMs
    → NetworkEntityId
    → ProjectileComponent
    → Option NetworkEntityId
    → Option PlayerComponent
    → Components
    → Row
wound_present config now projectile_id projectile (some id) (some player) row =
    wound config now projectile_id projectile id player row
wound_present config now projectile_id projectile _ _ row = (row, [])

-- What a hit does to the player.
unfoldable pub damage_player :
    SimulationConfig → TimestampMs → NetworkEntityId → ProjectileComponent → Components → Row
unfolding find_weapon_definition health_after
damage_player config now projectile_id projectile row =
    wound_present config now projectile_id projectile row.network_identity row.player row

-- Expired, or off the map.
unfoldable pub is_spent :
    SimulationConfig → TimestampMs → ProjectileComponent → TransformComponent → Bool
unfolding map_width_fixed map_height_fixed
is_spent config now projectile transform =
    leb projectile.expires_at_ms now
    || ltb_ℤ transform.x (pos 0)
    || ltb_ℤ transform.y (pos 0)
    || leb_ℤ (map_width_fixed config.map) transform.x
    || leb_ℤ (map_height_fixed config.map) transform.y
