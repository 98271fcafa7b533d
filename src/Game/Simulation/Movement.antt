-- ===== src/Game/Simulation/Movement.antt =====
-- GameLogic/src/SimulationMovement.cpp: what it does to the components of one entity. Each function
-- gives the components after the call and the events that it queues.
use brawololo.Prelude.{
  ◌+◌, ◌%◌, ◌^◌, Bool, true, false, not, ◌&&◌, ◌||◌, Option, none, some, List, [], ◌∷◌,
  if◌then◌else◌,
}
use brawololo.Prelude.Int.{ℤ, pos, negate, ◌+ℤ◌, ◌-ℤ◌, ◌*ℤ◌, ◌/ℤ◌, eqb_ℤ}
use brawololo.Game.Types.{TimestampMs, Fixed, NetworkEntityId}
use brawololo.Game.FixedPoint.{
  fixed_one, to_fixed, fixed_mul_ratio, clamp_fixed, normalize_digital_input,
}
use brawololo.Game.TimeSync.{to_int64}
use brawololo.Game.Map.{map_width_fixed, map_height_fixed}
use brawololo.Game.Commands.{InputFrame}
use brawololo.Game.Events.{DomainEvent, player_moved, weapon_warmup_started}
use brawololo.Game.Weapons.{WeaponType, WeaponDefinition, same_weapon, find_weapon_definition}
use brawololo.Game.Components.{
  TransformComponent, VelocityComponent, AimComponent, InputIntentComponent, PlayerComponent,
  WeaponStateComponent, Components, default_aim, default_velocity, has, get_or,
}
use brawololo.Game.Simulation.Config.{SimulationConfig}

abbrev pub Row : Type 0
Row = Components × List DomainEvent

abbrev pub is_defeated : Option PlayerComponent → Bool
is_defeated none = false
is_defeated (some player) = player.defeated

unfoldable pub integrate_fixed_per_second : Fixed → TimestampMs → Fixed
unfolding ◌*ℤ◌ ◌/ℤ◌ to_fixed
integrate_fixed_per_second value_per_second tick_duration_ms =
    to_fixed (value_per_second *ℤ to_int64 tick_duration_ms /ℤ pos 1000)

unfoldable pub apply_input_acceleration : Fixed → Fixed → ℤ → Fixed
unfolding ◌+ℤ◌ ◌*ℤ◌ ◌/ℤ◌ to_fixed
apply_input_acceleration velocity acceleration_delta normalized_input =
    velocity +ℤ to_fixed (acceleration_delta *ℤ normalized_input /ℤ fixed_one)

unfoldable pub apply_friction : Fixed → Fixed
unfolding fixed_mul_ratio
apply_friction velocity = fixed_mul_ratio velocity (pos 72) (pos 100)

-- The end of ApplyInputToEntity, for a weapon whose definition is found.
abbrev pub start_warmup :
    TimestampMs → NetworkEntityId → WeaponStateComponent → WeaponDefinition → Components → Row
start_warmup now id weapon definition row =
    if weapon.warming
    then (row, [])
    else let completes = (now + definition.warmup_ms) % 2 ^ 64 in
      (
        record row {
          weapon_state = some (record weapon {
            warming = true;
            warmup_started_at_ms = now;
            warmup_completes_at_ms = completes;
          });
        },
        weapon_warmup_started id now completes weapon.type ∷ [],
      )

abbrev pub fire_defined :
    TimestampMs
    → NetworkEntityId
    → WeaponStateComponent
    → Option WeaponDefinition
    → Components
    → Row
fire_defined now id weapon none row = (row, [])
fire_defined now id weapon (some definition) row =
    if same_weapon weapon.type WeaponType.none
    then (row, [])
    else start_warmup now id weapon definition row

abbrev pub fire :
    SimulationConfig
    → TimestampMs
    → Option WeaponStateComponent
    → Option NetworkEntityId
    → Components
    → Row
fire config now (some weapon) (some id) row =
    fire_defined now id weapon (find_weapon_definition config.weapons weapon.type) row
fire config now _ _ row = (row, [])

abbrev pub aim_at : InputFrame → AimComponent → AimComponent
aim_at input aim =
    if not (eqb_ℤ input.aim_x (pos 0)) || not (eqb_ℤ input.aim_y (pos 0))
    then record { x = input.aim_x; y = input.aim_y }
    else aim

-- ApplyInputToEntity.
unfoldable pub apply_input : SimulationConfig → TimestampMs → InputFrame → Components → Row
unfolding find_weapon_definition
apply_input config now input row =
    let aimed = record row {
      input_intent = some (record {
        move_x = input.move_x;
        move_y = input.move_y;
        aim_x = input.aim_x;
        aim_y = input.aim_y;
        fire = input.fire;
      });
      aim = some (aim_at input (get_or default_aim row.aim));
    } in
    if is_defeated row.player
    then (row, [])
    else if input.fire
    then fire config now row.weapon_state row.network_identity aimed
    else (aimed, [])

abbrev pub accelerate :
    SimulationConfig → InputIntentComponent → VelocityComponent → VelocityComponent
accelerate config intent velocity =
    let normalized = normalize_digital_input intent.move_x intent.move_y in
    let delta =
      integrate_fixed_per_second config.movement_acceleration_per_second config.tick_duration_ms in
    record {
      vx = apply_input_acceleration velocity.vx delta normalized.x;
      vy = apply_input_acceleration velocity.vy delta normalized.y;
    }

-- With an input intent the velocity is accelerated, and slowed down without.
abbrev pub change_velocity :
    SimulationConfig → Option InputIntentComponent → VelocityComponent → VelocityComponent
change_velocity config (some intent) velocity = accelerate config intent velocity
change_velocity config none velocity = record {
  vx = apply_friction velocity.vx;
  vy = apply_friction velocity.vy;
}

abbrev pub clamp_velocity : SimulationConfig → VelocityComponent → VelocityComponent
clamp_velocity config velocity =
    let max = config.max_move_speed_per_second in
    record {
      vx = clamp_fixed velocity.vx (negate max) max;
      vy = clamp_fixed velocity.vy (negate max) max;
    }

abbrev pub advance : TimestampMs → VelocityComponent → TransformComponent → TransformComponent
advance tick_duration_ms velocity transform = record {
  x = transform.x +ℤ integrate_fixed_per_second velocity.vx tick_duration_ms;
  y = transform.y +ℤ integrate_fixed_per_second velocity.vy tick_duration_ms;
}

unfoldable pub clamp_to_map : SimulationConfig → TransformComponent → TransformComponent
unfolding clamp_fixed map_width_fixed map_height_fixed ◌-ℤ◌
clamp_to_map config transform = record {
  x = clamp_fixed transform.x (pos 0) (map_width_fixed config.map -ℤ pos 1);
  y = clamp_fixed transform.y (pos 0) (map_height_fixed config.map -ℤ pos 1);
}

abbrev pub moved_events :
    NetworkEntityId → TransformComponent → TransformComponent → Bool → List DomainEvent
moved_events id old new is_player =
    if (not (eqb_ℤ old.x new.x) || not (eqb_ℤ old.y new.y)) && is_player
    then player_moved id old.x old.y new.x new.y ∷ []
    else []

abbrev pub move :
    SimulationConfig → NetworkEntityId → TransformComponent → VelocityComponent → Components → Row
move config id transform velocity row =
    let velocity' = clamp_velocity config (change_velocity config row.input_intent velocity) in
    let transform' = clamp_to_map config (advance config.tick_duration_ms velocity' transform) in
    (
      record row { transform = some transform'; velocity = some velocity' },
      moved_events id transform transform' (has row.player),
    )

abbrev pub move_present :
    SimulationConfig
    → Option NetworkEntityId
    → Option TransformComponent
    → Option VelocityComponent
    → Components
    → Row
move_present config (some id) (some transform) (some velocity) row =
    if is_defeated row.player
    then (record row { velocity = some default_velocity }, [])
    else move config id transform velocity row
move_present config _ _ _ row = (row, [])

-- IntegrateMovement.
unfoldable pub integrate_movement : SimulationConfig → Components → Row
unfolding ◌+ℤ◌ clamp_fixed clamp_to_map integrate_fixed_per_second apply_input_acceleration
    apply_friction normalize_digital_input
integrate_movement config row =
    move_present config row.network_identity row.transform row.velocity row
