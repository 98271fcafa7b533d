-- ===== src/Game/SnapshotBaselineCache.antt =====
-- GameLogic/include/GameLogic/SnapshotBaselineCache.hpp and GameLogic/src/SnapshotBaselineCache.cpp
pub mod History
pub mod Decision
use brawololo.Prelude.{
  ℕ, zero, suc, Bool, true, false, Option, none, some, List, [], ◌∷◌, ◌++◌, length, ltb, ◌==◌,
  if◌then◌else◌,
}
use brawololo.Prelude.Maps.{lookup, assign, erase}
use brawololo.Game.Types.{ClientId, SnapshotId}
use brawololo.Game.Replication.{SnapshotDto, SnapshotDeliveryKind, full, delta_eligible}

pub record SnapshotBaselineCacheConfig : Type 0 where
  pub max_baselines_per_client : ℕ

pub record SnapshotBaselineDecision : Type 0 where
  pub requested_baseline_id : SnapshotId
  pub effective_baseline_id : SnapshotId
  pub delivery_kind : SnapshotDeliveryKind
  pub baseline_available : Bool

pub record SnapshotBaselineCache : Type 0 where
  pub config : SnapshotBaselineCacheConfig
  pub baselines_by_client : List (ClientId × List SnapshotDto)

abbrev pub create_cache : SnapshotBaselineCacheConfig → SnapshotBaselineCache
create_cache config = record { config = config; baselines_by_client = [] }

-- What `operator[]` finds: an absent client has no baselines.
abbrev pub or_empty : Option (List SnapshotDto) → List SnapshotDto
or_empty none = []
or_empty (some baselines) = baselines

abbrev pub baselines_of : ClientId → SnapshotBaselineCache → List SnapshotDto
baselines_of client cache = or_empty (lookup client cache.baselines_by_client)

-- The loop that erases the oldest baseline while there are too many.
unfoldable pub erase_oldest : ℕ → List SnapshotDto → List SnapshotDto
erase_oldest max [] = []
erase_oldest max (oldest ∷ rest) =
    let shorter = erase_oldest max rest in
    if ltb max (length (oldest ∷ rest)) then shorter else oldest ∷ rest

unfoldable pub store : ClientId → SnapshotDto → SnapshotBaselineCache → SnapshotBaselineCache
unfolding lookup assign erase_oldest
store client snapshot cache =
    let baselines = baselines_of client cache ++ snapshot ∷ [] in
    record cache {
      baselines_by_client =
          assign client (erase_oldest cache.config.max_baselines_per_client baselines)
            cache.baselines_by_client;
    }

unfoldable pub find_if_id : SnapshotId → List SnapshotDto → Option SnapshotDto
find_if_id id [] = none
find_if_id id (snapshot ∷ rest) =
    let later = find_if_id id rest in if snapshot.snapshot_id == id then some snapshot else later

unfoldable pub find : ClientId → SnapshotId → SnapshotBaselineCache → Option SnapshotDto
unfolding lookup find_if_id
find client id cache = find_if_id id (baselines_of client cache)

abbrev back_id : List SnapshotDto → Option SnapshotId
back_id [] = none
back_id (snapshot ∷ []) = some snapshot.snapshot_id
back_id (snapshot ∷ rest) = back_id rest

unfoldable pub latest_baseline_id : ClientId → SnapshotBaselineCache → Option SnapshotId
unfolding lookup
latest_baseline_id client cache = back_id (baselines_of client cache)

abbrev decide_found : SnapshotId → Option SnapshotDto → SnapshotBaselineDecision
decide_found id none = record {
  requested_baseline_id = id;
  effective_baseline_id = 0;
  delivery_kind = full;
  baseline_available = false;
}
decide_found id (some baseline) = record {
  requested_baseline_id = id;
  effective_baseline_id = id;
  delivery_kind = delta_eligible;
  baseline_available = true;
}

unfoldable pub decide : ClientId → SnapshotId → SnapshotBaselineCache → SnapshotBaselineDecision
decide client requested cache =
    if requested == 0
    then decide_found requested none
    else decide_found requested (find client requested cache)

unfoldable pub baseline_count : ClientId → SnapshotBaselineCache → ℕ
unfolding lookup
baseline_count client cache = length (baselines_of client cache)

unfoldable pub clear : ClientId → SnapshotBaselineCache → SnapshotBaselineCache
unfolding erase
clear client cache = record cache { baselines_by_client = erase client cache.baselines_by_client }
