-- ===== src/Game/LagCompensation.antt =====
-- GameLogic/include/GameLogic/LagCompensation.hpp and GameLogic/src/LagCompensation.cpp. The sum of two
-- int64_t is the sum of the integers: the source leaves an overflow of it undefined.
pub mod Latest
use brawololo.Prelude.{
  ℕ, length, ◌+◌, ◌-◌, ◌%◌, ◌^◌, Bool, true, false, ◌&&◌, Option, none, some, List, [], ◌∷◌, ◌++◌,
  ltb, leb, if◌then◌else◌,
}
use brawololo.Prelude.Int.{ℤ, pos, ◌+ℤ◌, pos_part}
use brawololo.Wire.Ints.{from_twos}
use brawololo.Game.Types.{ClientId, CommandSequence, TimestampMs}
use brawololo.Game.Replication.{SnapshotDto}
use brawololo.Game.SnapshotBaselineCache.{erase_oldest}

pub record LagCompensationHistory : Type 0 where
  pub max_snapshots : ℕ
  pub snapshots : List SnapshotDto

-- The loop pops the oldest snapshot while there are too many.
unfoldable pub record_snapshot : SnapshotDto → LagCompensationHistory → LagCompensationHistory
unfolding erase_oldest
record_snapshot snapshot history = record history {
  snapshots = erase_oldest history.max_snapshots (history.snapshots ++ snapshot ∷ []);
}

-- The loop keeps the last snapshot that is not later than the time.
unfoldable pub closest_from :
    TimestampMs → Option SnapshotDto → List SnapshotDto → Option SnapshotDto
closest_from time result [] = result
closest_from time result (snapshot ∷ rest) =
    closest_from time (if leb snapshot.server_time_ms time then some snapshot else result) rest

unfoldable pub closest_at_or_before : TimestampMs → LagCompensationHistory → Option SnapshotDto
unfolding closest_from
closest_at_or_before time history = closest_from time none history.snapshots

abbrev snapshot_count : LagCompensationHistory → ℕ
snapshot_count history = length history.snapshots

abbrev time_of_first : List SnapshotDto → Option TimestampMs
time_of_first [] = none
time_of_first (snapshot ∷ rest) = some snapshot.server_time_ms

abbrev oldest_time_ms : LagCompensationHistory → Option TimestampMs
oldest_time_ms history = time_of_first history.snapshots

abbrev time_of_last : List SnapshotDto → Option TimestampMs
time_of_last [] = none
time_of_last (snapshot ∷ []) = some snapshot.server_time_ms
time_of_last (_ ∷ next ∷ rest) = time_of_last (next ∷ rest)

abbrev newest_time_ms : LagCompensationHistory → Option TimestampMs
newest_time_ms history = time_of_last history.snapshots

pub data LagCompensationRejectReason : Type 0 where
  no_reason too_old from_future history_unavailable : LagCompensationRejectReason

pub record LagCompensationConfig : Type 0 where
  pub max_rewind_ms : TimestampMs
  pub future_tolerance_ms : TimestampMs

pub record LagCompensationQuery : Type 0 where
  pub client_id : ClientId
  pub sequence : CommandSequence
  pub client_timestamp_ms : TimestampMs
  pub client_to_server_offset_ms : ℤ
  pub server_now_ms : TimestampMs

pub record LagCompensationResult : Type 0 where
  pub accepted : Bool
  pub reject_reason : LagCompensationRejectReason
  pub target_server_time_ms : TimestampMs
  pub historical_snapshot : Option SnapshotDto

-- Zero where the sum is not positive.
unfoldable pub map_client_time_to_server_time : LagCompensationQuery → TimestampMs
unfolding ◌+ℤ◌
map_client_time_to_server_time q =
    pos_part (from_twos 8 q.client_timestamp_ms +ℤ q.client_to_server_offset_ms)

abbrev pub rejected : TimestampMs → LagCompensationRejectReason → LagCompensationResult
rejected target reason = record {
  accepted = false;
  reject_reason = reason;
  target_server_time_ms = target;
  historical_snapshot = none;
}

abbrev pub result_of : TimestampMs → Option SnapshotDto → LagCompensationResult
result_of target none = rejected target history_unavailable
result_of target (some snapshot) = record {
  accepted = true;
  reject_reason = no_reason;
  target_server_time_ms = target;
  historical_snapshot = some snapshot;
}

-- The checks of Query, for the mapped time.
unfoldable pub query_at :
    LagCompensationConfig
    → LagCompensationHistory
    → TimestampMs
    → TimestampMs
    → LagCompensationResult
unfolding closest_at_or_before
query_at config history now target =
    if ltb ((now + config.future_tolerance_ms) % 2 ^ 64) target
    then rejected target from_future
    else if ltb target now && ltb config.max_rewind_ms (now - target)
    then rejected target too_old
    else result_of target (closest_at_or_before target history)

unfoldable pub query :
    LagCompensationConfig → LagCompensationHistory → LagCompensationQuery → LagCompensationResult
unfolding query_at map_client_time_to_server_time
query config history q = query_at config history q.server_now_ms (map_client_time_to_server_time q)
