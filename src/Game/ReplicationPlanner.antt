-- ===== src/Game/ReplicationPlanner.antt =====
-- GameLogic/include/GameLogic/ReplicationPlanner.hpp and GameLogic/src/ReplicationPlanner.cpp
pub mod Ranking
use brawololo.Prelude.{
  ℕ, ◌+◌, ◌-◌, Bool, true, false, not, ◌&&◌, List, [], ◌∷◌, length, take, ltb, ◌==◌, if◌then◌else◌,
}
use brawololo.Prelude.Sort.{stable_sort}
use brawololo.Game.Types.{ClientId}
use brawololo.Game.Replication.{SnapshotPriority, low, medium, high, EntityStateDto, SnapshotDto}

pub record ReplicationPlannerConfig : Type 0 where
  pub max_entities_per_snapshot : ℕ
  pub prioritize_higher_first : Bool
  pub keep_owner_entity_first : Bool

pub record ReplicationPlannerStats : Type 0 where
  pub input_entity_count : ℕ
  pub output_entity_count : ℕ
  pub high_priority_count : ℕ
  pub medium_priority_count : ℕ
  pub low_priority_count : ℕ
  pub dropped_entity_count : ℕ

pub record PlannedSnapshot : Type 0 where
  pub snapshot : SnapshotDto
  pub stats : ReplicationPlannerStats

abbrev pub priority_rank : SnapshotPriority → ℕ
priority_rank high = 3
priority_rank medium = 2
priority_rank low = 1

unfoldable pub count_priority : SnapshotPriority → ReplicationPlannerStats → ReplicationPlannerStats
count_priority high stats = record stats { high_priority_count = stats.high_priority_count + 1 }
count_priority medium stats = record stats {
  medium_priority_count = stats.medium_priority_count + 1;
}
count_priority low stats = record stats { low_priority_count = stats.low_priority_count + 1 }

abbrev pub differ : Bool → Bool → Bool
differ true b = not b
differ false b = b

-- What the comparison reads of an entity: whether the observer owns it, its rank, its id.
abbrev pub Key : Type 0
Key = Bool × ℕ × ℕ

-- An owned entity first, then the higher rank, then the smaller id.
abbrev pub outranks : Key → Key → Bool
outranks left right =
    if differ left.0 right.0
    then left.0
    else if not (left.1 == right.1)
    then ltb right.1 left.1
    else ltb left.2 right.2

-- Without `keepOwnerEntityFirst` no entity counts as owned.
abbrev pub key_of : ReplicationPlannerConfig → ClientId → EntityStateDto → Key
key_of config observer entity = (
  config.keep_owner_entity_first && entity.replication.owner_client_id == observer,
  priority_rank entity.replication.priority,
  entity.replication.entity_id,
)

unfoldable pub comes_first :
    ReplicationPlannerConfig → ClientId → EntityStateDto → EntityStateDto → Bool
comes_first config observer left right =
    outranks (key_of config observer left) (key_of config observer right)

abbrev pub order_entities :
    ReplicationPlannerConfig → ClientId → List EntityStateDto → List EntityStateDto
order_entities config observer entities =
    if config.prioritize_higher_first
    then stable_sort (comes_first config observer) entities
    else entities

abbrev pub truncate : ℕ → List EntityStateDto → List EntityStateDto
truncate max entities =
    if ltb 0 max && ltb max (length entities) then take max entities else entities

unfoldable pub count_priorities :
    List EntityStateDto → ReplicationPlannerStats → ReplicationPlannerStats
unfolding count_priority
count_priorities [] stats = stats
count_priorities (entity ∷ entities) stats =
    count_priorities entities (count_priority entity.replication.priority stats)

unfoldable pub plan : ReplicationPlannerConfig → SnapshotDto → ClientId → PlannedSnapshot
unfolding count_priorities stable_sort comes_first
plan config snapshot observer =
    let kept =
      truncate config.max_entities_per_snapshot
        (order_entities config observer snapshot.entities) in
    record {
      snapshot = record snapshot { entities = kept };
      stats = count_priorities kept (record {
        input_entity_count = length snapshot.entities;
        output_entity_count = length kept;
        high_priority_count = 0;
        medium_priority_count = 0;
        low_priority_count = 0;
        dropped_entity_count = length snapshot.entities - length kept;
      });
    }
