-- ===== src/Game/SnapshotDelta.antt =====
-- GameLogic/include/GameLogic/SnapshotDelta.hpp and GameLogic/src/SnapshotDelta.cpp
pub mod Reference
pub mod Itself
pub mod Kinds
use brawololo.Prelude.{
  ℕ, ◌+◌, Bool, true, false, not, ◌&&◌, Option, none, some, List, [], ◌∷◌, ◌++◌, ◌==◌,
  if◌then◌else◌,
}
use brawololo.Prelude.Int.{eqb_ℤ}
use brawololo.Prelude.Sets.{contains, add}
use brawololo.Game.Types.{NetworkEntityId, SnapshotId}
use brawololo.Game.Weapons.{weapon_code}
use brawololo.Game.Replication.{
  MovementStateDto, CombatStateDto, ReplicationStateDto, EntityStateDto, SnapshotDto, kind_code,
  priority_code,
}

pub data SnapshotEntityDeltaKind : Type 0 where
  added changed removed unchanged : SnapshotEntityDeltaKind

pub record SnapshotEntityDelta : Type 0 where
  pub entity_id : NetworkEntityId
  pub kind : SnapshotEntityDeltaKind

pub record SnapshotDeltaPlan : Type 0 where
  pub snapshot_id : SnapshotId
  pub baseline_id : SnapshotId
  pub baseline_matched : Bool
  pub entities : List SnapshotEntityDelta
  pub added_count : ℕ
  pub changed_count : ℕ
  pub removed_count : ℕ
  pub unchanged_count : ℕ

abbrev pub same_bool : Bool → Bool → Bool
same_bool true b = b
same_bool false b = not b

-- Two values of an enumeration are equal when their numbers are.
unfoldable pub equivalent_movement : MovementStateDto → MovementStateDto → Bool
equivalent_movement left right =
    left.entity_id == right.entity_id
    && eqb_ℤ left.x right.x
    && eqb_ℤ left.y right.y
    && eqb_ℤ left.vx right.vx
    && eqb_ℤ left.vy right.vy
    && eqb_ℤ left.aim_x right.aim_x
    && eqb_ℤ left.aim_y right.aim_y

unfoldable pub equivalent_combat : CombatStateDto → CombatStateDto → Bool
equivalent_combat left right =
    left.entity_id == right.entity_id
    && eqb_ℤ left.health right.health
    && eqb_ℤ left.max_health right.max_health
    && weapon_code left.weapon_type == weapon_code right.weapon_type
    && same_bool left.weapon_warming right.weapon_warming
    && left.weapon_warmup_completes_at_ms == right.weapon_warmup_completes_at_ms
    && same_bool left.defeated right.defeated
    && left.respawn_at_ms == right.respawn_at_ms
    && same_bool left.server_owned_projectile right.server_owned_projectile
    && left.projectile_owner_id == right.projectile_owner_id

unfoldable pub equivalent_replication : ReplicationStateDto → ReplicationStateDto → Bool
equivalent_replication left right =
    left.entity_id == right.entity_id
    && left.owner_client_id == right.owner_client_id
    && kind_code left.kind == kind_code right.kind
    && priority_code left.priority == priority_code right.priority

abbrev pub equivalent_maybe_combat : Option CombatStateDto → Option CombatStateDto → Bool
equivalent_maybe_combat none none = true
equivalent_maybe_combat (some left) (some right) = equivalent_combat left right
equivalent_maybe_combat _ _ = false

unfoldable pub equivalent_entity_state : EntityStateDto → EntityStateDto → Bool
unfolding equivalent_movement equivalent_combat equivalent_replication
equivalent_entity_state left right =
    equivalent_movement left.movement right.movement
    && equivalent_replication left.replication right.replication
    && equivalent_maybe_combat left.combat right.combat

unfoldable pub find_entity : NetworkEntityId → List EntityStateDto → Option EntityStateDto
find_entity id [] = none
find_entity id (entity ∷ entities) =
    let later = find_entity id entities in
    if entity.replication.entity_id == id then some entity else later

unfoldable pub count_delta : SnapshotEntityDeltaKind → SnapshotDeltaPlan → SnapshotDeltaPlan
count_delta added plan = record plan { added_count = plan.added_count + 1 }
count_delta changed plan = record plan { changed_count = plan.changed_count + 1 }
count_delta removed plan = record plan { removed_count = plan.removed_count + 1 }
count_delta unchanged plan = record plan { unchanged_count = plan.unchanged_count + 1 }

-- The entry of one entity, pushed and counted.
unfoldable pub push_delta :
    NetworkEntityId → SnapshotEntityDeltaKind → SnapshotDeltaPlan → SnapshotDeltaPlan
unfolding count_delta
push_delta id kind plan =
    count_delta kind
      (record plan { entities = plan.entities ++ record { entity_id = id; kind = kind } ∷ [] })

abbrev pub kind_of_found : EntityStateDto → Option EntityStateDto → SnapshotEntityDeltaKind
kind_of_found current none = added
kind_of_found current (some baseline) =
    if equivalent_entity_state current baseline then unchanged else changed

unfoldable pub plan_current :
    List EntityStateDto
    → List EntityStateDto
    → SnapshotDeltaPlan
    → List NetworkEntityId
    → SnapshotDeltaPlan × List NetworkEntityId
unfolding push_delta find_entity add
plan_current baseline [] plan current_ids = (plan, current_ids)
plan_current baseline (entity ∷ entities) plan current_ids =
    let id = entity.replication.entity_id in
    plan_current baseline entities
      (push_delta id (kind_of_found entity (find_entity id baseline)) plan) (add id current_ids)

unfoldable pub plan_removed :
    List EntityStateDto → List NetworkEntityId → SnapshotDeltaPlan → SnapshotDeltaPlan
unfolding push_delta contains
plan_removed [] current_ids plan = plan
plan_removed (entity ∷ entities) current_ids plan =
    let id = entity.replication.entity_id in
    plan_removed entities current_ids
      (if contains id current_ids then plan else push_delta id removed plan)

abbrev pub start_plan : SnapshotDto → SnapshotDto → SnapshotDeltaPlan
start_plan current baseline = record {
  snapshot_id = current.snapshot_id;
  baseline_id = current.baseline_id;
  baseline_matched = not (current.baseline_id == 0) && current.baseline_id == baseline.snapshot_id;
  entities = [];
  added_count = 0;
  changed_count = 0;
  removed_count = 0;
  unchanged_count = 0;
}

unfoldable pub plan_snapshot_delta : SnapshotDto → SnapshotDto → SnapshotDeltaPlan
unfolding plan_current plan_removed
plan_snapshot_delta current baseline =
    let (planned, current_ids) =
      plan_current baseline.entities current.entities (start_plan current baseline) [] in
    plan_removed baseline.entities current_ids planned
