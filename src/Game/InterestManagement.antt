-- ===== src/Game/InterestManagement.antt =====
-- GameLogic/include/GameLogic/InterestManagement.hpp and GameLogic/src/InterestManagement.cpp
pub mod Partition
use brawololo.Prelude.{ℕ, Bool, true, false, List, [], ◌∷◌, ◌++◌, length, if◌then◌else◌}
use brawololo.Prelude.Sets.{contains, add}
use brawololo.Game.Types.{NetworkEntityId}
use brawololo.Game.Replication.{EntityStateDto, SnapshotDto}

pub record InterestFrame : Type 0 where
  pub entered : List NetworkEntityId
  pub stayed : List NetworkEntityId
  pub exited : List NetworkEntityId

pub record InterestTracker : Type 0 where
  pub known_entities : List NetworkEntityId

abbrev pub add_seen : Bool → NetworkEntityId → InterestFrame → InterestFrame
add_seen true id frame = record frame { stayed = frame.stayed ++ id ∷ [] }
add_seen false id frame = record frame { entered = frame.entered ++ id ∷ [] }

-- The loop over the entities of the snapshot, with `frame` and `nextKnown` as they stand.
unfoldable pub update_entities :
    List NetworkEntityId
    → List EntityStateDto
    → InterestFrame
    → List NetworkEntityId
    → InterestFrame × List NetworkEntityId
unfolding contains add
update_entities known [] frame next_known = (frame, next_known)
update_entities known (entity ∷ entities) frame next_known =
    let id = entity.replication.entity_id in
    update_entities known entities (add_seen (contains id known) id frame) (add id next_known)

abbrev pub add_exited : Bool → NetworkEntityId → InterestFrame → InterestFrame
add_exited true id frame = frame
add_exited false id frame = record frame { exited = frame.exited ++ id ∷ [] }

-- The loop over the entities that were known.
unfoldable pub update_exited :
    List NetworkEntityId → List NetworkEntityId → InterestFrame → InterestFrame
unfolding contains
update_exited next_known [] frame = frame
update_exited next_known (id ∷ known) frame =
    update_exited next_known known (add_exited (contains id next_known) id frame)

unfoldable pub update : SnapshotDto → InterestTracker → InterestTracker × InterestFrame
unfolding update_entities update_exited
update snapshot tracker =
    let (frame, next_known) =
      update_entities tracker.known_entities snapshot.entities
        (record { entered = []; stayed = []; exited = [] }) [] in
    (record { known_entities = next_known }, update_exited next_known tracker.known_entities frame)

unfoldable pub contains_entity : NetworkEntityId → InterestTracker → Bool
unfolding contains
contains_entity id tracker = contains id tracker.known_entities

abbrev pub known_entity_count : InterestTracker → ℕ
known_entity_count tracker = length tracker.known_entities

abbrev pub clear_interest : InterestTracker → InterestTracker
clear_interest tracker = record { known_entities = [] }
