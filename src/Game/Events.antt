-- ===== src/Game/Events.antt =====
-- GameLogic/include/GameLogic/Events.hpp: DomainEvent, one constructor for each struct of the variant.
use brawololo.Prelude.Int.{ℤ}
use brawololo.Game.Types.{
  ClientId, CommandSequence, SnapshotId, TimestampMs, NetworkEntityId, Fixed,
}
use brawololo.Game.Weapons.{WeaponType}

pub data DomainEvent : Type 0 where
  player_spawned :
      (entity_id : NetworkEntityId) → (client_id : ClientId) → (x y : Fixed) → DomainEvent
  player_moved : (entity_id : NetworkEntityId) → (from_x from_y to_x to_y : Fixed) → DomainEvent
  weapon_warmup_started :
      (entity_id : NetworkEntityId)
      → (started_at_ms completes_at_ms : TimestampMs) → (weapon_type : WeaponType) → DomainEvent
  weapon_fired :
      (entity_id : NetworkEntityId)
      → (fired_at_ms : TimestampMs) → (weapon_type : WeaponType) → DomainEvent
  projectile_spawned :
      (projectile_id owner_id : NetworkEntityId)
      → (x y : Fixed) → (source_weapon : WeaponType) → DomainEvent
  hit_confirmed :
      (attacker_id target_id projectile_id : NetworkEntityId)
      → (server_time_ms : TimestampMs) → DomainEvent
  player_damaged :
      (entity_id attacker_id : NetworkEntityId) → (damage health_after : ℤ) → DomainEvent
  player_died :
      (entity_id attacker_id : NetworkEntityId) → (respawn_at_ms : TimestampMs) → DomainEvent
  player_respawned : (entity_id : NetworkEntityId) → (x y : Fixed) → DomainEvent
  entity_entered_interest :
      (entity_id : NetworkEntityId) → (observer_client_id : ClientId) → DomainEvent
  entity_left_interest :
      (entity_id : NetworkEntityId) → (observer_client_id : ClientId) → DomainEvent
  snapshot_applied :
      (snapshot_id baseline_id : SnapshotId)
      → (acked_input_sequence : CommandSequence) → DomainEvent
  local_prediction_corrected :
      (entity_id : NetworkEntityId)
      → (predicted_x predicted_y authoritative_x authoritative_y : Fixed) → DomainEvent
