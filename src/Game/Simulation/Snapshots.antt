-- ===== src/Game/Simulation/Snapshots.antt =====
-- BuildSnapshot and ApplySnapshot of GameLogic/src/Simulation.cpp. The entities of a snapshot stand in
-- the order of the registry's view.
pub mod Observed
pub mod Shown
pub mod Replaced
pub mod Left
pub mod Applied
pub mod Delivered
use brawololo.Prelude.{
  Bool, true, false, not, ◌&&◌, ◌||◌, Option, none, some, List, [], ◌∷◌, ◌==◌, if◌then◌else◌,
}
use brawololo.Prelude.Maps.{lookup, assign, erase}
use brawololo.Prelude.Sets.{contains, add}
use brawololo.Game.Types.{ClientId, SnapshotId, NetworkEntityId, TimestampMs}
use brawololo.Game.Events.{entity_entered_interest, entity_left_interest, snapshot_applied}
use brawololo.Game.Map.{ChunkCoord, chunk_for_position, is_chunk_in_area_of_interest}
use brawololo.Game.Replication.{MovementStateDto, EntityStateDto, SnapshotDto, full}
use brawololo.Game.Components.{Components, PlayerComponent, no_components, has, get_or}
use brawololo.Game.Simulation.Registry.{Entt}
use brawololo.Game.Simulation.Config.{SimulationConfig}
use brawololo.Game.Simulation.Replicas.{
  entity_state, priority_for_entity, is_owned_by, is_player_kind, apply_state,
}
use brawololo.Game.Simulation.{
  GameSimulation, queue_event, update_entity, player_entity_for_client, entity_for,
  movement_for_entity, movement_of_row,
}

module _ (E : Entt) where
  open E use {Registry, Entity, create, destroy, components, replace, view}

  abbrev chunk_of : SimulationConfig → Option MovementStateDto → Option ChunkCoord
  chunk_of config none = none
  chunk_of config (some movement) = some (chunk_for_position config.map movement.x movement.y)

  abbrev movement_of_player : Option NetworkEntityId → GameSimulation E → Option MovementStateDto
  movement_of_player none s = none
  movement_of_player (some id) s = movement_for_entity E id s

  unfoldable pub observer_chunk : ClientId → GameSimulation E → Option ChunkCoord
  unfolding lookup movement_for_entity
  observer_chunk observer s =
      chunk_of s.config (movement_of_player (player_entity_for_client E observer s) s)

  -- Whether the loop of BuildSnapshot keeps an entity.
  unfoldable pub is_in_interest :
      SimulationConfig → ClientId → Option ChunkCoord → MovementStateDto → Components → Bool
  unfolding chunk_for_position is_chunk_in_area_of_interest
  is_in_interest config observer none movement row = true
  is_in_interest config observer (some chunk) movement row =
      is_owned_by observer row.owned_by_player
      || is_chunk_in_area_of_interest config.map chunk
          (chunk_for_position config.map movement.x movement.y)

  abbrev pub state_of : ClientId → MovementStateDto → Components → EntityStateDto
  state_of observer movement row =
      entity_state movement (priority_for_entity observer row) row.player row.projectile row

  abbrev pub push_state :
      SimulationConfig
      → ClientId
      → Option ChunkCoord
      → Option MovementStateDto
      → Components
      → List EntityStateDto
      → List EntityStateDto
  push_state config observer chunk none row states = states
  push_state config observer chunk (some movement) row states =
      if is_in_interest config observer chunk movement row
      then state_of observer movement row ∷ states
      else states

  unfoldable pub entity_states :
      ClientId → Option ChunkCoord → GameSimulation E → List Entity → List EntityStateDto
  unfolding is_in_interest
  entity_states observer chunk s [] = []
  entity_states observer chunk s (entity ∷ rest) =
      let row = components entity s.registry in
      push_state s.config observer chunk (movement_of_row E row) row
        (entity_states observer chunk s rest)

  abbrev pub is_replicated : Components → Bool
  is_replicated row = has row.network_identity && has row.transform && has row.velocity

  unfoldable pub build_snapshot :
      ClientId → SnapshotId → SnapshotId → GameSimulation E → SnapshotDto
  unfolding lookup observer_chunk entity_states
  build_snapshot observer snapshot_id baseline_id s = record {
    snapshot_id = snapshot_id;
    baseline_id = baseline_id;
    delivery_kind = full;
    server_tick = s.tick;
    server_time_ms = s.time_ms;
    acked_input_sequence = get_or 0 (lookup observer s.last_accepted_sequence);
    entities = entity_states observer (observer_chunk observer s) s (view is_replicated s.registry);
  }

  -- The entity of a state that ApplySnapshot does not know.
  abbrev pub enter : ClientId → NetworkEntityId → GameSimulation E → GameSimulation E × Entity
  enter local id s =
      let (registry, entity) = create s.registry in
      (
        queue_event E (entity_entered_interest id local) (record s {
          registry = replace entity (record no_components { network_identity = some id }) registry;
          entity_by_network_id = assign id entity s.entity_by_network_id;
        }),
        entity,
      )

  -- A player that some client owns is that client's.
  abbrev pub own_player : EntityStateDto → GameSimulation E → GameSimulation E
  own_player state s =
      if is_player_kind state.replication.kind && not (state.replication.owner_client_id == 0)
      then record s {
        player_by_client =
            assign state.replication.owner_client_id state.movement.entity_id s.player_by_client;
      }
      else s

  abbrev pub apply_known :
      ClientId → TimestampMs → Bool → EntityStateDto → GameSimulation E → Entity → GameSimulation E
  apply_known local server_time is_known state s entity =
      own_player state
        (update_entity E (apply_state s.config local server_time is_known state) entity s)

  abbrev pub apply_found :
      ClientId → TimestampMs → EntityStateDto → Option Entity → GameSimulation E → GameSimulation E
  apply_found local server_time state (some entity) s =
      apply_known local server_time true state s entity
  apply_found local server_time state none s =
      let (s', entity) = enter local state.movement.entity_id s in
      apply_known local server_time false state s' entity

  unfoldable pub apply_states :
      ClientId → TimestampMs → List EntityStateDto → GameSimulation E → GameSimulation E
  unfolding lookup assign apply_state
  apply_states local server_time [] s = s
  apply_states local server_time (state ∷ rest) s =
      apply_states local server_time rest
        (apply_found local server_time state (entity_for E state.movement.entity_id s) s)

  abbrev pub seen_entities : List EntityStateDto → List NetworkEntityId → List NetworkEntityId
  seen_entities [] seen = seen
  seen_entities (state ∷ rest) seen = seen_entities rest (add state.movement.entity_id seen)

  -- The ids that are neither seen nor of an entity that the local client owns.
  unfoldable pub leaving :
      ClientId
      → List NetworkEntityId
      → GameSimulation E
      → List (NetworkEntityId × Entity)
      → List NetworkEntityId
  unfolding contains
  leaving local seen s [] = []
  leaving local seen s (entry ∷ rest) =
      let later = leaving local seen s rest in
      if contains entry.0 seen || is_owned_by local (components entry.1 s.registry).owned_by_player
      then later
      else entry.0 ∷ later

  abbrev pub disown : Option PlayerComponent → GameSimulation E → GameSimulation E
  disown none s = s
  disown (some player) s = record s { player_by_client = erase player.client_id s.player_by_client }

  abbrev pub leave_found :
      ClientId → NetworkEntityId → Option Entity → GameSimulation E → GameSimulation E
  leave_found local id none s = s
  leave_found local id (some entity) s =
      let disowned = disown (components entity s.registry).player s in
      let told = queue_event E (entity_left_interest id local) disowned in
      record told {
        registry = destroy entity told.registry;
        entity_by_network_id = erase id told.entity_by_network_id;
      }

  unfoldable pub leave_all : ClientId → List NetworkEntityId → GameSimulation E → GameSimulation E
  unfolding lookup erase
  leave_all local [] s = s
  leave_all local (id ∷ rest) s = leave_all local rest (leave_found local id (entity_for E id s) s)

  unfoldable pub apply_snapshot : SnapshotDto → ClientId → GameSimulation E → GameSimulation E
  unfolding apply_states leaving leave_all add
  apply_snapshot snapshot local s =
      let applied = apply_states local snapshot.server_time_ms snapshot.entities s in
      let seen = seen_entities snapshot.entities [] in
      queue_event E
        (snapshot_applied snapshot.snapshot_id snapshot.baseline_id snapshot.acked_input_sequence)
        (leave_all local (leaving local seen applied applied.entity_by_network_id) applied)
