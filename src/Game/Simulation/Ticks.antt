-- ===== src/Game/Simulation/Ticks.antt =====
-- TickFixed of GameLogic/src/Simulation.cpp with the loops of SimulationMovement.cpp and
-- SimulationCombat.cpp. The order of a loop over entities is that of the registry's view.
use brawololo.Prelude.{
  ◌+◌, ◌%◌, ◌^◌, Bool, ◌&&◌, Option, none, some, List, [], ◌∷◌, ◌++◌, if◌then◌else◌,
}
use brawololo.Prelude.Maps.{lookup, erase}
use brawololo.Game.Types.{NetworkEntityId}
use brawololo.Game.Commands.{ClientInputPacket}
use brawololo.Game.Components.{
  TransformComponent, VelocityComponent, ProjectileComponent, Components, has,
}
use brawololo.Game.Simulation.Registry.{Entt}
use brawololo.Game.Simulation.Movement.{
  advance, apply_input, integrate_movement, integrate_fixed_per_second,
}
use brawololo.Game.Simulation.Combat.{
  ProjectileRequest, process_weapon_warmup, process_respawn, hits, damage_player, is_spent,
}
use brawololo.Game.Simulation.{
  GameSimulation, update_entity, player_entity_for_client, entity_for, create_projectile,
}

abbrev pub is_player : Components → Bool
is_player row = has row.player

abbrev pub has_intent : Components → Bool
has_intent row = has row.input_intent

abbrev pub can_fire : Components → Bool
can_fire row = has row.network_identity && has row.transform && has row.aim && has row.weapon_state

abbrev pub is_flying : Components → Bool
is_flying row =
    has row.network_identity && has row.projectile && has row.transform && has row.velocity

abbrev pub is_target : Components → Bool
is_target row = has row.network_identity && has row.player && has row.transform

abbrev pub can_respawn : Components → Bool
can_respawn row =
    has row.network_identity && has row.player && has row.transform && has row.velocity

module _ (E : Entt) where
  open E use {Registry, Entity, destroy, valid, components, replace, view}

  abbrev pub for_each :
      (Entity → GameSimulation E → GameSimulation E)
      → List Entity
      → GameSimulation E
      → GameSimulation E
  for_each f [] s = s
  for_each f (entity ∷ rest) s = for_each f rest (f entity s)

  -- The entities that pass a test, now.
  abbrev pub each_in_view :
      (Components → Bool)
      → (Entity → GameSimulation E → GameSimulation E)
      → GameSimulation E
      → GameSimulation E
  each_in_view test f s = for_each f (view test s.registry) s

  abbrev pub apply_input_to_entity :
      Entity → ClientInputPacket → GameSimulation E → GameSimulation E
  apply_input_to_entity entity packet s =
      update_entity E (apply_input s.config s.time_ms packet.input) entity s

  abbrev pub integrate_entity : Entity → GameSimulation E → GameSimulation E
  integrate_entity entity s = update_entity E (integrate_movement s.config) entity s

  abbrev pub apply_to : ClientInputPacket → Option Entity → GameSimulation E → GameSimulation E
  apply_to packet none s = s
  apply_to packet (some entity) s = apply_input_to_entity entity packet s

  -- EntityFor, for a player that may be missing.
  abbrev pub entity_for_player : Option NetworkEntityId → GameSimulation E → Option Entity
  entity_for_player none s = none
  entity_for_player (some id) s = entity_for E id s

  abbrev pub entity_for_client : ClientInputPacket → GameSimulation E → Option Entity
  entity_for_client packet s =
      entity_for_player (player_entity_for_client E packet.header.client_id s) s

  unfoldable pub apply_inputs : List ClientInputPacket → GameSimulation E → GameSimulation E
  unfolding lookup apply_input
  apply_inputs [] s = s
  apply_inputs (packet ∷ rest) s =
      apply_inputs rest (apply_to packet (entity_for_client packet s) s)

  abbrev pub clear_intent : Entity → GameSimulation E → GameSimulation E
  clear_intent = update_entity E (λ row. (record row { input_intent = none }, []))

  unfoldable pub process_inputs : GameSimulation E → GameSimulation E
  unfolding apply_inputs integrate_movement
  process_inputs s =
      let applied = record (apply_inputs s.pending_inputs s) { pending_inputs = [] } in
      each_in_view has_intent clear_intent (each_in_view is_player integrate_entity applied)

  abbrev pub Requests : Type 0
  Requests = GameSimulation E × List ProjectileRequest

  abbrev pub warm_entity : Entity → GameSimulation E → List ProjectileRequest → Requests
  warm_entity entity s requests =
      let (row, more) = process_weapon_warmup s.config s.time_ms (components entity s.registry) in
      (update_entity E (λ _. row) entity s, requests ++ more)

  unfoldable pub warm_entities : List Entity → GameSimulation E → List ProjectileRequest → Requests
  unfolding process_weapon_warmup
  warm_entities [] s requests = (s, requests)
  warm_entities (entity ∷ rest) s requests =
      let (s', requests') = warm_entity entity s requests in warm_entities rest s' requests'

  unfoldable pub create_projectiles : List ProjectileRequest → GameSimulation E → GameSimulation E
  unfolding create_projectile
  create_projectiles [] s = s
  create_projectiles (request ∷ rest) s = create_projectiles rest (create_projectile E request s)

  unfoldable pub process_weapon_warmups : GameSimulation E → GameSimulation E
  unfolding warm_entities create_projectiles
  process_weapon_warmups s =
      let (s', requests) = warm_entities (view can_fire s.registry) s [] in
      create_projectiles requests s'

  -- The first player that is hit, if there is one.
  unfoldable pub hit_first :
      NetworkEntityId
      → ProjectileComponent
      → TransformComponent
      → List Entity
      → GameSimulation E
      → Option (GameSimulation E)
  unfolding hits damage_player
  hit_first id projectile transform [] s = none
  hit_first id projectile transform (player ∷ rest) s =
      let later = hit_first id projectile transform rest s in
      if hits projectile.owner_id transform (components player s.registry)
      then some (update_entity E (damage_player s.config s.time_ms id projectile) player s)
      else later

  abbrev pub Flight : Type 0
  Flight = GameSimulation E × List Entity

  abbrev pub after_hit :
      Entity → Option (GameSimulation E) → GameSimulation E → List Entity → Flight
  after_hit entity none s doomed = (s, doomed)
  after_hit entity (some hit) s doomed = (hit, doomed ++ entity ∷ [])

  abbrev pub fly :
      List Entity
      → Entity
      → NetworkEntityId
      → ProjectileComponent
      → TransformComponent
      → VelocityComponent
      → GameSimulation E
      → List Entity
      → Flight
  fly players entity id projectile transform velocity s doomed =
      let moved = advance s.config.tick_duration_ms velocity transform in
      let s' = update_entity E (λ row. (record row { transform = some moved }, [])) entity s in
      if is_spent s.config s.time_ms projectile moved
      then (s', doomed ++ entity ∷ [])
      else after_hit entity (hit_first id projectile moved players s') s' doomed

  abbrev pub fly_present :
      List Entity
      → Entity
      → Option NetworkEntityId
      → Option ProjectileComponent
      → Option TransformComponent
      → Option VelocityComponent
      → GameSimulation E
      → List Entity
      → Flight
  fly_present players entity (some id) (some projectile) (some transform) (some velocity) s doomed =
      fly players entity id projectile transform velocity s doomed
  fly_present players entity _ _ _ _ s doomed = (s, doomed)

  -- One round of the loop over the projectiles.
  abbrev pub fly_entity : List Entity → Entity → GameSimulation E → List Entity → Flight
  fly_entity players entity s doomed =
      let row = components entity s.registry in
      fly_present players entity row.network_identity row.projectile row.transform row.velocity s
        doomed

  unfoldable pub fly_entities : List Entity → List Entity → GameSimulation E → List Entity → Flight
  unfolding hit_first is_spent integrate_fixed_per_second
  fly_entities players [] s doomed = (s, doomed)
  fly_entities players (entity ∷ rest) s doomed =
      let (s', doomed') = fly_entity players entity s doomed in fly_entities players rest s' doomed'

  abbrev pub remove : Option NetworkEntityId → Entity → GameSimulation E → GameSimulation E
  remove none entity s = s
  remove (some id) entity s = record s {
    entity_by_network_id = erase id s.entity_by_network_id;
    registry = destroy entity s.registry;
  }

  unfoldable pub destroy_entity : Entity → GameSimulation E → GameSimulation E
  unfolding erase
  destroy_entity entity s =
      if valid entity s.registry
      then remove (components entity s.registry).network_identity entity s
      else s

  unfoldable pub process_projectiles : GameSimulation E → GameSimulation E
  unfolding fly_entities destroy_entity
  process_projectiles s =
      let (s', doomed) =
        fly_entities (view is_target s.registry) (view is_flying s.registry) s [] in
      for_each destroy_entity doomed s'

  abbrev pub respawn_entity : Entity → GameSimulation E → GameSimulation E
  respawn_entity entity s = update_entity E (process_respawn s.config s.time_ms) entity s

  unfoldable pub process_respawns : GameSimulation E → GameSimulation E
  unfolding process_respawn
  process_respawns = each_in_view can_respawn respawn_entity

  unfoldable pub tick_fixed : GameSimulation E → GameSimulation E
  unfolding process_inputs process_weapon_warmups process_projectiles process_respawns
  tick_fixed s =
      let started = record s {
        tick = (s.tick + 1) % 2 ^ 64;
        time_ms = (s.time_ms + s.config.tick_duration_ms) % 2 ^ 64;
      } in
      process_respawns (process_projectiles (process_weapon_warmups (process_inputs started)))

  abbrev pub replay_on : ClientInputPacket → Option Entity → GameSimulation E → GameSimulation E
  replay_on packet none s = s
  replay_on packet (some entity) s =
      clear_intent entity (integrate_entity entity (apply_input_to_entity entity packet s))

  unfoldable pub replay_local_inputs_for_prediction :
      List ClientInputPacket → GameSimulation E → GameSimulation E
  unfolding lookup apply_input integrate_movement
  replay_local_inputs_for_prediction [] s = s
  replay_local_inputs_for_prediction (packet ∷ rest) s =
      replay_local_inputs_for_prediction rest (replay_on packet (entity_for_client packet s) s)
