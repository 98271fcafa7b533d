-- ===== src/Game/ReplicationTests.antt =====
-- The baseline cache, the planner, the delta, interest and lag compensation at concrete snapshots, with
-- what their theorems say there.
use mathlib.Core.List.{Perm}
use brawololo.Prelude.{
  ◌≡◌, ◌≢◌, ◌↔◌, ◌≤◌, ◌<◌, ◌+◌, ◌-◌, ◌%◌, ◌^◌, refl, true, not, ◌&&◌, some, List, [], ◌∷◌, ◌++◌,
  length, drop,
}
use brawololo.Prelude.Int.{pos}
use brawololo.Prelude.Sets.{contains}
use brawololo.Game.Types.{SnapshotId}
use brawololo.Game.Replication.{delta_eligible}
use brawololo.Game.SnapshotBaselineCache.{
  SnapshotBaselineCacheConfig, create_cache, baselines_of, decide,
}
use brawololo.Game.SnapshotBaselineCache.History as History
use brawololo.Game.SnapshotBaselineCache.History.{
  store_call, clear_call, run, stored, baselines_of-run,
}
use brawololo.Game.SnapshotBaselineCache.Decision.{Offers, decide-run}
use brawololo.Game.ReplicationPlanner.{ReplicationPlannerConfig, plan}
use brawololo.Game.ReplicationPlanner.Ranking.{AreRanked, plan-AreRanked, plan-stats}
use brawololo.Game.SnapshotDelta.{plan_snapshot_delta, added, changed, removed, unchanged}
use brawololo.Game.SnapshotDelta.Reference.{removed_deltas, count_kind}
use brawololo.Game.SnapshotDelta.Kinds.{AreEntriesOf, plan_snapshot_delta-AreEntriesOf}
use brawololo.Game.InterestManagement.{InterestTracker, update, contains_entity}
use brawololo.Game.InterestManagement.Partition.{ids_of, update-partition}
use brawololo.Game.LagCompensation.{
  LagCompensationConfig, LagCompensationHistory, LagCompensationQuery, query,
  map_client_time_to_server_time,
}
use brawololo.Game.LagCompensation.Latest.{IsLatest, query-IsLatest}
use brawololo.Game.Tests.{duel, volley}

abbrev two_each : SnapshotBaselineCacheConfig
two_each = record { max_baselines_per_client = 2 }

-- Client 3 has three snapshots stored, with one of client 4 between them.
abbrev stores : List History.Call
stores =
    store_call 3 (record duel { snapshot_id = 1 })
    ∷ store_call 4 (record duel { snapshot_id = 2 })
    ∷ store_call 3 (record duel { snapshot_id = 3 })
    ∷ store_call 3 (record duel { snapshot_id = 5 })
    ∷ []

baselines_of-run_example :
    baselines_of 3 (run stores (create_cache two_each))
    ≡ drop (length (stored 3 stores []) - 2) (stored 3 stores [])
baselines_of-run_example = baselines_of-run 3 stores two_each

abbrev requested : SnapshotId
requested = 3

decide-run_example :
    ((decide 3 requested (run stores (create_cache two_each))).delivery_kind ≡ delta_eligible) ↔ (
      (requested ≢ 0)
      × Offers requested (drop (length (stored 3 stores []) - 2) (stored 3 stores [])))
decide-run_example = decide-run 3 requested stores two_each

abbrev one_entity : ReplicationPlannerConfig
one_entity = record {
  max_entities_per_snapshot = 1;
  prioritize_higher_first = true;
  keep_owner_entity_first = true;
}

plan-AreRanked_example :
    (dropped : List _) × Perm duel.entities ((plan one_entity duel 3).snapshot.entities ++ dropped)
    × AreRanked one_entity 3 ((plan one_entity duel 3).snapshot.entities ++ dropped)
plan-AreRanked_example = plan-AreRanked one_entity duel 3 refl

plan-stats_example :
    ((plan one_entity duel 3).stats.input_entity_count ≡ length duel.entities)
    × ((plan one_entity duel 3).stats.output_entity_count
        ≡ length (plan one_entity duel 3).snapshot.entities)
    × ((plan one_entity duel 3).stats.output_entity_count
          + (plan one_entity duel 3).stats.dropped_entity_count
        ≡ (plan one_entity duel 3).stats.input_entity_count)
    × ((plan one_entity duel 3).stats.high_priority_count
          + (plan one_entity duel 3).stats.medium_priority_count
          + (plan one_entity duel 3).stats.low_priority_count
        ≡ (plan one_entity duel 3).stats.output_entity_count)
    × (0 < 1 → (plan one_entity duel 3).stats.output_entity_count ≤ 1)
plan-stats_example = plan-stats one_entity duel 3

plan_snapshot_delta-AreEntriesOf_example :
    (listed : List _) × AreEntriesOf duel.entities volley.entities listed
    × (((plan_snapshot_delta volley duel).entities
          ≡ listed ++ removed_deltas (ids_of volley.entities) duel.entities)
        × ((plan_snapshot_delta volley duel).added_count
            ≡ count_kind added (plan_snapshot_delta volley duel).entities)
        × ((plan_snapshot_delta volley duel).changed_count
            ≡ count_kind changed (plan_snapshot_delta volley duel).entities)
        × ((plan_snapshot_delta volley duel).removed_count
            ≡ count_kind removed (plan_snapshot_delta volley duel).entities)
        × ((plan_snapshot_delta volley duel).unchanged_count
            ≡ count_kind unchanged (plan_snapshot_delta volley duel).entities))
plan_snapshot_delta-AreEntriesOf_example = plan_snapshot_delta-AreEntriesOf volley duel

abbrev knows_archer : InterestTracker
knows_archer = record { known_entities = 7 ∷ [] }

update-partition_example :
    (contains 7 (update volley knows_archer).1.entered
      ≡ (contains 7 (ids_of volley.entities) && not (contains_entity 7 knows_archer)))
    × (contains 7 (update volley knows_archer).1.stayed
        ≡ (contains 7 (ids_of volley.entities) && contains_entity 7 knows_archer))
    × (contains 7 (update volley knows_archer).1.exited
        ≡ (contains_entity 7 knows_archer && not (contains 7 (ids_of volley.entities))))
    × (contains_entity 7 (update volley knows_archer).0 ≡ contains 7 (ids_of volley.entities))
update-partition_example = update-partition 7 volley knows_archer

archer-left :
    ((update volley knows_archer).1.entered ≡ 8 ∷ [])
    × ((update volley knows_archer).1.exited ≡ 7 ∷ [])
unfolding update
archer-left = (refl, refl)

abbrev rewind : LagCompensationConfig
rewind = record { max_rewind_ms = 250; future_tolerance_ms = 50 }

abbrev recorded : LagCompensationHistory
recorded = record {
  max_snapshots = 128;
  snapshots =
      record duel { server_time_ms = 19950 } ∷ duel ∷ record duel { server_time_ms = 20050 } ∷ [];
}

abbrev shot : LagCompensationQuery
shot = record {
  client_id = 3;
  sequence = 9;
  client_timestamp_ms = 10030;
  client_to_server_offset_ms = pos 10000;
  server_now_ms = 20100;
}

query-IsLatest_example : ((query rewind recorded shot).historical_snapshot ≡ some duel) ↔ (
    (map_client_time_to_server_time shot ≤ (20100 + 50) % 2 ^ 64)
    × (20100 ≤ map_client_time_to_server_time shot + 250)
    × IsLatest (map_client_time_to_server_time shot) recorded.snapshots duel)
query-IsLatest_example = query-IsLatest rewind recorded shot duel
