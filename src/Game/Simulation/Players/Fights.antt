-- ===== src/Game/Simulation/Players/Fights.antt =====
-- The same for the loops over weapons, projectiles and defeated players, and for the whole tick.
use brawololo.Prelude.{
  ◌+◌, ◌%◌, ◌^◌, ◌≡◌, refl, sym, subst, true, Option, none, some, List, [], ◌∷◌, if-elim,
}
use brawololo.Game.Types.{NetworkEntityId}
use brawololo.Game.Components.{ProjectileComponent, TransformComponent, VelocityComponent}
use brawololo.Game.Simulation.Registry.{Entt, IsLawful}
use brawololo.Game.Simulation.Config.{SimulationConfig}
use brawololo.Game.Simulation.Movement.{advance}
use brawololo.Game.Simulation.Combat.{
  ProjectileRequest, process_weapon_warmup, process_respawn, hits, damage_player, is_spent,
}
use brawololo.Game.Simulation.Fitness.{IsPlayable, Keeps, OnSome}
use brawololo.Game.Simulation.Fitness.Fighting.{
  process_weapon_warmup-Keeps, process_respawn-Keeps, damage_player-Keeps, projectile_moved-Keeps,
}
use brawololo.Game.Simulation.{GameSimulation, create_projectile, projectile_row}
use brawololo.Game.Simulation.Players.{
  IsSound, Follows, Follows-trans, update_entity-Follows, add_entity-Follows, destroy-IsSound,
}
use brawololo.Game.Simulation.Players.Loops.{
  AllValid, Follows-refl, Follows-AllValid, view-AllValid, each_in_view-IsSound, update-Follows,
  process_inputs-IsSound,
}
use brawololo.Game.Simulation.Ticks.{
  for_each, warm_entity, warm_entities, create_projectiles, process_weapon_warmups, hit_first,
  after_hit, fly_present, fly_entity, fly_entities, remove, destroy_entity, process_projectiles,
  process_respawns, can_fire, can_respawn, respawn_entity, is_target, is_flying, tick_fixed,
}

module _ (E : Entt) (L : IsLawful E) (config : SimulationConfig)
    (playable : IsPlayable config) where
  open E use {Entity, valid, components, view}

  warm_entity-Follows :
      (e : Entity) (s : GameSimulation E) (requests : List ProjectileRequest)
      → IsSound E L config s
      → valid e s.registry ≡ true
      → Follows E L config s (warm_entity E e s requests).0
  warm_entity-Follows e s requests h v =
      update-Follows E L config (λ c row. (process_weapon_warmup c s.time_ms row).0) e s
        (process_weapon_warmup-Keeps config playable s.time_ms) h v

  warm_entities-Follows :
      (entities : List Entity) (s : GameSimulation E) (requests : List ProjectileRequest)
      → IsSound E L config s
      → AllValid E L config entities s
      → Follows E L config s (warm_entities E entities s requests).0
  unfolding warm_entities process_weapon_warmup
  warm_entities-Follows [] s requests h v = Follows-refl E L config s h
  warm_entities-Follows (e ∷ rest) s requests h v =
      let (s', requests') = warm_entity E e s requests in
      let first = warm_entity-Follows e s requests h v.0 in
      Follows-trans E L config s s' _ first (
        warm_entities-Follows rest s' requests' first.sound
          (Follows-AllValid E L config rest s s' first v.1))

  create_projectile-IsSound :
      (request : ProjectileRequest) (s : GameSimulation E)
      → IsSound E L config s
      → IsSound E L config (create_projectile E request s)
  unfolding create_projectile
  create_projectile-IsSound request s h =
      let added = add_entity-Follows E L config (projectile_row E s.time_ms request) s h tt refl in
      record {
        same_config = added.sound.same_config;
        few_players = added.sound.few_players;
        accepted = added.sound.accepted;
        fits = added.sound.fits;
        known = added.sound.known;
      }

  create_projectiles-IsSound :
      (requests : List ProjectileRequest) (s : GameSimulation E)
      → IsSound E L config s
      → IsSound E L config (create_projectiles E requests s)
  unfolding create_projectiles
  create_projectiles-IsSound [] s h = h
  create_projectiles-IsSound (request ∷ rest) s h =
      create_projectiles-IsSound rest _ (create_projectile-IsSound request s h)

  process_weapon_warmups-IsSound :
      (s : GameSimulation E)
      → IsSound E L config s
      → IsSound E L config (process_weapon_warmups E s)
  unfolding process_weapon_warmups
  process_weapon_warmups-IsSound s h =
      let (s', requests) = warm_entities E (view can_fire s.registry) s [] in
      create_projectiles-IsSound requests s'
        (warm_entities-Follows (view can_fire s.registry) s [] h
          (view-AllValid E L config can_fire s)).sound

  hit_first-Follows :
      (id : NetworkEntityId) (projectile : ProjectileComponent) (at : TransformComponent)
      (players : List Entity) (s : GameSimulation E)
      → IsSound E L config s
      → AllValid E L config players s
      → OnSome (Follows E L config s) (hit_first E id projectile at players s)
  unfolding hit_first
  hit_first-Follows id projectile at [] s h v = tt
  hit_first-Follows id projectile at (e ∷ rest) s h v =
      let row = components e s.registry in
      if-elim (OnSome (Follows E L config s)) (hits projectile.owner_id at row) _ _
        (λ hit.
          update_entity-Follows E L config (damage_player s.config s.time_ms id projectile) e s h
            v.0
            (subst (λ c. Keeps config row (damage_player c s.time_ms id projectile row).0)
              (sym h.same_config)
              (damage_player-Keeps config playable s.time_ms id projectile at row hit
                (h.fits e v.0))))
        (λ _. hit_first-Follows id projectile at rest s h v.1)

  after_hit-Follows :
      (e : Entity) (s : GameSimulation E) (o : Option (GameSimulation E)) (t : GameSimulation E)
      (doomed : List Entity)
      → Follows E L config s t
      → OnSome (Follows E L config t) o
      → Follows E L config s (after_hit E e o t doomed).0
  after_hit-Follows e s none t doomed f g = f
  after_hit-Follows e s (some u) t doomed f g = Follows-trans E L config s t u f g

  fly_present-Follows :
      (players : List Entity) (e : Entity) (id : Option NetworkEntityId)
      (projectile : Option ProjectileComponent) (transform : Option TransformComponent)
      (velocity : Option VelocityComponent) (s : GameSimulation E) (doomed : List Entity)
      → (components e s.registry).projectile ≡ projectile
      → IsSound E L config s
      → valid e s.registry ≡ true
      → AllValid E L config players s
      → Follows E L config s (fly_present E players e id projectile transform velocity s doomed).0
  fly_present-Follows players e none b t w s doomed p h v vs = Follows-refl E L config s h
  fly_present-Follows players e (some id) none t w s doomed p h v vs = Follows-refl E L config s h
  fly_present-Follows players e (some id) (some b) none w s doomed p h v vs =
      Follows-refl E L config s h
  fly_present-Follows players e (some id) (some b) (some t) none s doomed p h v vs =
      Follows-refl E L config s h
  fly_present-Follows players e (some id) (some b) (some t) (some w) s doomed p h v vs =
      let at = advance s.config.tick_duration_ms w t in
      let row = components e s.registry in
      let moved =
        update_entity-Follows E L config (λ row. (record row { transform = some at }, [])) e s h v
          (projectile_moved-Keeps config playable row at b p (h.fits e v)) in
      if-elim (λ (f : GameSimulation E × List Entity). Follows E L config s f.0)
        (is_spent s.config s.time_ms b at) _ _ (λ _. moved)
        (λ _. after_hit-Follows e s _ _ doomed moved (
          hit_first-Follows id b at players _ moved.sound
            (Follows-AllValid E L config players s _ moved vs)))

  fly_entities-Follows :
      (players entities : List Entity) (s : GameSimulation E) (doomed : List Entity)
      → IsSound E L config s
      → AllValid E L config players s
      → AllValid E L config entities s
      → Follows E L config s (fly_entities E players entities s doomed).0
  unfolding fly_entities
  fly_entities-Follows players [] s doomed h vs v = Follows-refl E L config s h
  fly_entities-Follows players (e ∷ rest) s doomed h vs v =
      let (s', doomed') = fly_entity E players e s doomed in
      let row = components e s.registry in
      let first =
        fly_present-Follows players e row.network_identity row.projectile row.transform row.velocity
          s doomed refl h v.0 vs in
      Follows-trans E L config s s' _ first (
        fly_entities-Follows players rest s' doomed' first.sound
          (Follows-AllValid E L config players s s' first vs)
          (Follows-AllValid E L config rest s s' first v.1))

  remove-IsSound :
      (id : Option NetworkEntityId) (e : Entity) (s : GameSimulation E)
      → (components e s.registry).network_identity ≡ id
      → IsSound E L config s
      → IsSound E L config (remove E id e s)
  remove-IsSound none e s named h = h
  remove-IsSound (some id) e s named h = destroy-IsSound E L config e id s h named

  destroy_entity-IsSound :
      (e : Entity) (s : GameSimulation E)
      → IsSound E L config s
      → IsSound E L config (destroy_entity E e s)
  unfolding destroy_entity
  destroy_entity-IsSound e s h =
      if-elim (IsSound E L config) (valid e s.registry) _ _
        (λ _. remove-IsSound (components e s.registry).network_identity e s refl h) (λ _. h)

  destroy_entities-IsSound :
      (entities : List Entity) (s : GameSimulation E)
      → IsSound E L config s
      → IsSound E L config (for_each E (destroy_entity E) entities s)
  destroy_entities-IsSound [] s h = h
  destroy_entities-IsSound (e ∷ rest) s h =
      destroy_entities-IsSound rest _ (destroy_entity-IsSound e s h)

  process_projectiles-IsSound :
      (s : GameSimulation E) → IsSound E L config s → IsSound E L config (process_projectiles E s)
  unfolding process_projectiles
  process_projectiles-IsSound s h =
      let players = view is_target s.registry in
      let flying = view is_flying s.registry in
      let flown =
        fly_entities-Follows players flying s [] h (view-AllValid E L config is_target s)
          (view-AllValid E L config is_flying s) in
      destroy_entities-IsSound (fly_entities E players flying s []).1 _ flown.sound

  process_respawns-IsSound :
      (s : GameSimulation E) → IsSound E L config s → IsSound E L config (process_respawns E s)
  unfolding process_respawns
  process_respawns-IsSound s h =
      each_in_view-IsSound E L config playable can_respawn (respawn_entity E) s
        (λ e t.
          update-Follows E L config (λ c. process_respawn c t.time_ms) e t
            (process_respawn-Keeps config playable t.time_ms))
        h

  pub tick_fixed-IsSound :
      (s : GameSimulation E) → IsSound E L config s → IsSound E L config (tick_fixed E s)
  unfolding tick_fixed
  tick_fixed-IsSound s h =
      let started = record s {
        tick = (s.tick + 1) % 2 ^ 64;
        time_ms = (s.time_ms + s.config.tick_duration_ms) % 2 ^ 64;
      } in
      let at_start : IsSound E L config started = record {
        same_config = h.same_config;
        few_players = h.few_players;
        accepted = h.accepted;
        fits = h.fits;
        known = h.known;
      } in
      process_respawns-IsSound _ (
        process_projectiles-IsSound _ (
          process_weapon_warmups-IsSound _
            (process_inputs-IsSound E L config playable started at_start)))
