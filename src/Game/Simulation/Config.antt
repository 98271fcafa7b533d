-- ===== src/Game/Simulation/Config.antt =====
-- SimulationConfig of GameLogic/include/GameLogic/Simulation.hpp
use brawololo.Prelude.{ℕ, List}
use brawololo.Prelude.Int.{ℤ, pos}
use brawololo.Game.Types.{TimestampMs, Fixed}
use brawololo.Game.Map.{MapConfig, default_map_config}
use brawololo.Game.Weapons.{WeaponType, WeaponDefinition, default_weapon_definitions}

pub data SimulationMode : Type 0 where
  server_authoritative client_prediction : SimulationMode

pub record SimulationConfig : Type 0 where
  pub mode : SimulationMode
  pub map : MapConfig
  pub tick_duration_ms : TimestampMs
  pub max_players : ℕ
  pub movement_acceleration_per_second : Fixed
  pub max_move_speed_per_second : Fixed
  pub max_player_health : ℤ
  pub respawn_delay_ms : TimestampMs
  pub default_weapon : WeaponType
  pub weapons : List WeaponDefinition

-- `PixelsToFixed(2600)` and `PixelsToFixed(360)`.
abbrev pub default_simulation_config : SimulationConfig
default_simulation_config = record {
  mode = server_authoritative;
  map = default_map_config;
  tick_duration_ms = 16;
  max_players = 256;
  movement_acceleration_per_second = pos 2_600_000;
  max_move_speed_per_second = pos 360_000;
  max_player_health = pos 100;
  respawn_delay_ms = 1500;
  default_weapon = WeaponType.bow;
  weapons = default_weapon_definitions;
}
