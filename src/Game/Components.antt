-- ===== src/Game/Components.antt =====
-- GameLogic/include/GameLogic/Components.hpp. A component that an entity may have is a field of
-- Components, which holds what `try_get` finds for each type; a tag is a Boolean.
use brawololo.Prelude.{Bool, true, false, Option, none, some}
use brawololo.Prelude.Int.{ℤ, pos}
use brawololo.Game.Types.{ClientId, NetworkEntityId, TimestampMs, Fixed}
use brawololo.Game.Weapons.{WeaponType}

pub data NetworkReplicationMode : Type 0 where
  not_replicated owner_only area_of_interest global_reliable : NetworkReplicationMode

pub record TransformComponent : Type 0 where
  pub x : Fixed
  pub y : Fixed

pub record VelocityComponent : Type 0 where
  pub vx : Fixed
  pub vy : Fixed

pub record AimComponent : Type 0 where
  pub x : ℤ
  pub y : ℤ

pub record InputIntentComponent : Type 0 where
  pub move_x : ℤ
  pub move_y : ℤ
  pub aim_x : ℤ
  pub aim_y : ℤ
  pub fire : Bool

pub record PlayerComponent : Type 0 where
  pub client_id : ClientId
  pub health : ℤ
  pub max_health : ℤ
  pub defeated : Bool
  pub respawn_at_ms : TimestampMs

pub record WeaponStateComponent : Type 0 where
  pub type : WeaponType
  pub warming : Bool
  pub warmup_started_at_ms : TimestampMs
  pub warmup_completes_at_ms : TimestampMs

pub record ProjectileComponent : Type 0 where
  pub owner_id : NetworkEntityId
  pub spawned_at_ms : TimestampMs
  pub expires_at_ms : TimestampMs
  pub source_weapon : WeaponType

-- The values that the members start with.
abbrev pub default_transform : TransformComponent
default_transform = record { x = pos 0; y = pos 0 }

abbrev pub default_velocity : VelocityComponent
default_velocity = record { vx = pos 0; vy = pos 0 }

abbrev pub default_aim : AimComponent
default_aim = record { x = pos 1000; y = pos 0 }

abbrev pub default_player : PlayerComponent
default_player = record {
  client_id = 0;
  health = pos 100;
  max_health = pos 100;
  defeated = false;
  respawn_at_ms = 0;
}

abbrev pub default_weapon_state : WeaponType → WeaponStateComponent
default_weapon_state type = record {
  type = type;
  warming = false;
  warmup_started_at_ms = 0;
  warmup_completes_at_ms = 0;
}

pub record Components : Type 0 where
  pub network_identity : Option NetworkEntityId
  pub transform : Option TransformComponent
  pub velocity : Option VelocityComponent
  pub aim : Option AimComponent
  pub input_intent : Option InputIntentComponent
  pub player : Option PlayerComponent
  pub weapon_state : Option WeaponStateComponent
  pub projectile : Option ProjectileComponent
  pub owned_by_player : Option ClientId
  pub network_replication : Option NetworkReplicationMode
  pub predicted : Bool
  pub interpolated : Bool
  pub authoritative : Bool

abbrev pub no_components : Components
no_components = record {
  network_identity = none;
  transform = none;
  velocity = none;
  aim = none;
  input_intent = none;
  player = none;
  weapon_state = none;
  projectile = none;
  owned_by_player = none;
  network_replication = none;
  predicted = false;
  interpolated = false;
  authoritative = false;
}

-- `all_of` and `get_or_emplace`, for one type.
abbrev pub has {ℓ} : {A : Type ℓ} → Option A → Bool
has none = false
has (some a) = true

abbrev pub get_or {ℓ} : {A : Type ℓ} → A → Option A → A
get_or default none = default
get_or default (some a) = a
