-- ===== src/Game/Replication.antt =====
-- GameLogic/include/GameLogic/Replication.hpp: the state that snapshots carry.
use brawololo.Prelude.{ℕ, zero, suc, ◌≤◌, ◌≡◌, refl, Bool, Option, List, arith}
use brawololo.Prelude.Int.{ℤ}
use brawololo.Game.Types.{
  ClientId, CommandSequence, SnapshotId, Tick, TimestampMs, NetworkEntityId, Fixed,
}
use brawololo.Game.BinaryIo.{IsEnum}
use brawololo.Game.Weapons.{WeaponType}

pub data SnapshotPriority : Type 0 where
  low medium high : SnapshotPriority

pub data ReplicatedEntityKind : Type 0 where
  player projectile : ReplicatedEntityKind

pub data SnapshotDeliveryKind : Type 0 where
  full delta_eligible : SnapshotDeliveryKind

pub record MovementStateDto : Type 0 where
  pub entity_id : NetworkEntityId
  pub x : Fixed
  pub y : Fixed
  pub vx : Fixed
  pub vy : Fixed
  pub aim_x : ℤ
  pub aim_y : ℤ

pub record CombatStateDto : Type 0 where
  pub entity_id : NetworkEntityId
  pub health : ℤ
  pub max_health : ℤ
  pub weapon_type : WeaponType
  pub weapon_warming : Bool
  pub weapon_warmup_completes_at_ms : TimestampMs
  pub defeated : Bool
  pub respawn_at_ms : TimestampMs
  pub server_owned_projectile : Bool
  pub projectile_owner_id : NetworkEntityId

pub record ReplicationStateDto : Type 0 where
  pub entity_id : NetworkEntityId
  pub owner_client_id : ClientId
  pub kind : ReplicatedEntityKind
  pub priority : SnapshotPriority

pub record EntityStateDto : Type 0 where
  pub movement : MovementStateDto
  pub combat : Option CombatStateDto
  pub replication : ReplicationStateDto

pub record SnapshotDto : Type 0 where
  pub snapshot_id : SnapshotId
  pub baseline_id : SnapshotId
  pub delivery_kind : SnapshotDeliveryKind
  pub server_tick : Tick
  pub server_time_ms : TimestampMs
  pub acked_input_sequence : CommandSequence
  pub entities : List EntityStateDto

pub record SnapshotAckDto : Type 0 where
  pub client_id : ClientId
  pub snapshot_id : SnapshotId
  pub baseline_id : SnapshotId
  pub acked_input_sequence : CommandSequence
  pub client_received_at_ms : TimestampMs

-- The enumerations and their underlying numbers.
abbrev pub priority_code : SnapshotPriority → ℕ
priority_code low = 0
priority_code medium = 1
priority_code high = 2

abbrev pub priority_cast : ℕ → SnapshotPriority
priority_cast zero = low
priority_cast (suc zero) = medium
priority_cast (suc (suc n)) = high

pub priority-IsEnum : IsEnum 2 priority_code priority_cast
priority-IsEnum = record { fits = fits; cast-code = back; code-cast = forth }
  where
    fits : (p : SnapshotPriority) → priority_code p ≤ 2
    fits low = omega arith
    fits medium = omega arith
    fits high = omega arith

    back : (p : SnapshotPriority) → priority_cast (priority_code p) ≡ p
    back low = refl
    back medium = refl
    back high = refl

    forth : (v : ℕ) → v ≤ 2 → priority_code (priority_cast v) ≡ v
    forth zero h = refl
    forth (suc zero) h = refl
    forth (suc (suc v)) h = omega arith

abbrev pub kind_code : ReplicatedEntityKind → ℕ
kind_code player = 0
kind_code projectile = 1

abbrev pub kind_cast : ℕ → ReplicatedEntityKind
kind_cast zero = player
kind_cast (suc n) = projectile

pub kind-IsEnum : IsEnum 1 kind_code kind_cast
kind-IsEnum = record { fits = fits; cast-code = back; code-cast = forth }
  where
    fits : (k : ReplicatedEntityKind) → kind_code k ≤ 1
    fits player = omega arith
    fits projectile = omega arith

    back : (k : ReplicatedEntityKind) → kind_cast (kind_code k) ≡ k
    back player = refl
    back projectile = refl

    forth : (v : ℕ) → v ≤ 1 → kind_code (kind_cast v) ≡ v
    forth zero h = refl
    forth (suc v) h = omega arith

abbrev pub delivery_code : SnapshotDeliveryKind → ℕ
delivery_code full = 0
delivery_code delta_eligible = 1

abbrev pub delivery_cast : ℕ → SnapshotDeliveryKind
delivery_cast zero = full
delivery_cast (suc n) = delta_eligible

pub delivery-IsEnum : IsEnum 1 delivery_code delivery_cast
delivery-IsEnum = record { fits = fits; cast-code = back; code-cast = forth }
  where
    fits : (k : SnapshotDeliveryKind) → delivery_code k ≤ 1
    fits full = omega arith
    fits delta_eligible = omega arith

    back : (k : SnapshotDeliveryKind) → delivery_cast (delivery_code k) ≡ k
    back full = refl
    back delta_eligible = refl

    forth : (v : ℕ) → v ≤ 1 → delivery_code (delivery_cast v) ≡ v
    forth zero h = refl
    forth (suc v) h = omega arith
