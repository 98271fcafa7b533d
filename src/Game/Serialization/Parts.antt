-- ===== src/Game/Serialization/Parts.antt =====
-- The movement and replication state of an entity, and the enumerations that states share, in GameLogic/src/Serialization.cpp, each with its format.
use brawololo.Prelude.{ℕ, ◌≡◌, refl, ◌↔◌, Option, some, List, ◌++◌, arith}
use brawololo.Prelude.Int.{ℤ}
use brawololo.Wire.Bytes.{AreBytes}
use brawololo.Wire.Reader.{Read, ◌<$>◌, ◌<&>◌}
use brawololo.Wire.Codec.{IsCodec, map-IsCodec, ◌<⊗>◌}
use brawololo.Game.Types.{IsU32, IsI16, IsI32}
use brawololo.Game.Weapons.{WeaponType, weapon_code, weapon_cast, weapon-IsEnum}
use brawololo.Game.Replication.{
  SnapshotPriority, ReplicatedEntityKind, MovementStateDto, ReplicationStateDto, priority_code,
  priority_cast, priority-IsEnum, kind_code, kind_cast, kind-IsEnum,
}
use brawololo.Game.BinaryIo.{
  DecodeError, read_pod, write_pod, read_signed, write_signed, read_bool, write_bool, read_enum,
  write_enum, deserialize, pod-IsCodec, signed-IsCodec, enum-IsCodec, deserialize_iff,
}

unfoldable pub read_weapon_type : Read DecodeError WeaponType
unfolding read_enum
read_weapon_type = read_enum 1 weapon_cast

unfoldable pub read_replicated_entity_kind : Read DecodeError ReplicatedEntityKind
unfolding read_enum
read_replicated_entity_kind = read_enum 1 kind_cast

unfoldable pub read_snapshot_priority : Read DecodeError SnapshotPriority
unfolding read_enum
read_snapshot_priority = read_enum 2 priority_cast

pub weapon-IsCodec : IsCodec (λ w. Unit {0}) (write_enum weapon_code) read_weapon_type
unfolding read_weapon_type
weapon-IsCodec = enum-IsCodec (omega arith) weapon-IsEnum

kind-IsCodec : IsCodec (λ k. Unit {0}) (write_enum kind_code) read_replicated_entity_kind
unfolding read_replicated_entity_kind
kind-IsCodec = enum-IsCodec (omega arith) kind-IsEnum

priority-IsCodec : IsCodec (λ p. Unit {0}) (write_enum priority_code) read_snapshot_priority
unfolding read_snapshot_priority
priority-IsCodec = enum-IsCodec (omega arith) priority-IsEnum

pub record MovementFits (m : MovementStateDto) : Type 0 where
  pub entity_id : IsU32 m.entity_id
  pub x : IsI32 m.x
  pub y : IsI32 m.y
  pub vx : IsI32 m.vx
  pub vy : IsI32 m.vy
  pub aim_x : IsI16 m.aim_x
  pub aim_y : IsI16 m.aim_y

unfoldable pub write_movement : MovementStateDto → List ℕ
unfolding write_pod write_signed write_bool
write_movement movement =
    write_pod 4 movement.entity_id
    ++ write_signed 4 movement.x
    ++ write_signed 4 movement.y
    ++ write_signed 4 movement.vx
    ++ write_signed 4 movement.vy
    ++ write_signed 2 movement.aim_x
    ++ write_signed 2 movement.aim_y

abbrev movement_of : (((((ℕ × ℤ) × ℤ) × ℤ) × ℤ) × ℤ) × ℤ → MovementStateDto
movement_of p = record {
  entity_id = p.0.0.0.0.0.0;
  x = p.0.0.0.0.0.1;
  y = p.0.0.0.0.1;
  vx = p.0.0.0.1;
  vy = p.0.0.1;
  aim_x = p.0.1;
  aim_y = p.1;
}

unfoldable pub read_movement : Read DecodeError MovementStateDto
unfolding read_pod read_signed read_bool read_enum ◌<$>◌ ◌<&>◌
read_movement =
    movement_of
    <$> read_pod 4
      <&> read_signed 4
      <&> read_signed 4
      <&> read_signed 4
      <&> read_signed 4
      <&> read_signed 2
      <&> read_signed 2

pub movement-IsCodec : IsCodec MovementFits write_movement read_movement
unfolding write_movement read_movement
movement-IsCodec =
    map-IsCodec movement_of (λ c. ((((((c.entity_id, c.x), c.y), c.vx), c.vy), c.aim_x), c.aim_y))
      (λ c v. (((((((v.entity_id, v.x), v.y), v.vx), v.vy), v.aim_x), v.aim_y), refl))
      (λ p v. (
        record {
          entity_id = v.0.0.0.0.0.0;
          x = v.0.0.0.0.0.1;
          y = v.0.0.0.0.1;
          vx = v.0.0.0.1;
          vy = v.0.0.1;
          aim_x = v.0.1;
          aim_y = v.1;
        },
        refl,
      ))
      (pod-IsCodec 4
        <⊗> signed-IsCodec 3
        <⊗> signed-IsCodec 3
        <⊗> signed-IsCodec 3
        <⊗> signed-IsCodec 3
        <⊗> signed-IsCodec 1
        <⊗> signed-IsCodec 1)

pub record ReplicationFits (r : ReplicationStateDto) : Type 0 where
  pub entity_id : IsU32 r.entity_id
  pub owner_client_id : IsU32 r.owner_client_id

unfoldable pub write_replication : ReplicationStateDto → List ℕ
unfolding write_pod write_signed write_bool
write_replication replication =
    write_pod 4 replication.entity_id
    ++ write_pod 4 replication.owner_client_id
    ++ write_enum kind_code replication.kind
    ++ write_enum priority_code replication.priority

abbrev replication_of : ((ℕ × ℕ) × ReplicatedEntityKind) × SnapshotPriority → ReplicationStateDto
replication_of p = record {
  entity_id = p.0.0.0;
  owner_client_id = p.0.0.1;
  kind = p.0.1;
  priority = p.1;
}

unfoldable pub read_replication : Read DecodeError ReplicationStateDto
unfolding read_pod read_signed read_bool read_enum ◌<$>◌ ◌<&>◌
read_replication =
    replication_of
    <$> read_pod 4 <&> read_pod 4 <&> read_replicated_entity_kind <&> read_snapshot_priority

pub replication-IsCodec : IsCodec ReplicationFits write_replication read_replication
unfolding write_replication read_replication
replication-IsCodec =
    map-IsCodec replication_of (λ c. (((c.entity_id, c.owner_client_id), c.kind), c.priority))
      (λ c v. ((((v.entity_id, v.owner_client_id), tt), tt), refl))
      (λ p v. (record { entity_id = v.0.0.0; owner_client_id = v.0.0.1 }, refl))
      (pod-IsCodec 4 <⊗> pod-IsCodec 4 <⊗> kind-IsCodec <⊗> priority-IsCodec)

unfoldable pub serialize_movement_state : MovementStateDto → List ℕ
unfolding write_movement
serialize_movement_state dto = write_movement dto

unfoldable pub deserialize_movement_state : List ℕ → Option MovementStateDto
unfolding deserialize read_movement
deserialize_movement_state = deserialize read_movement

-- A movement state is decoded from a span of bytes exactly when its fields fit their widths and the
-- span is its encoding.
pub deserialize_movement_state_iff :
    (bytes : List ℕ) (dto : MovementStateDto)
    → AreBytes bytes
    → (deserialize_movement_state bytes ≡ some dto)
      ↔ (MovementFits dto × (bytes ≡ serialize_movement_state dto))
unfolding deserialize_movement_state serialize_movement_state
deserialize_movement_state_iff = deserialize_iff movement-IsCodec
