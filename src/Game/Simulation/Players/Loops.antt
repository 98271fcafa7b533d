-- ===== src/Game/Simulation/Players/Loops.antt =====
-- What the loops of GameLogic/src/SimulationMovement.cpp and SimulationCombat.cpp keep of every entity.
use mathlib.Core.Option.{none-ne-some}
use brawololo.Prelude.{◌≡◌, refl, sym, subst, Bool, true, Option, none, some, List, [], ◌∷◌, All}
use brawololo.Prelude.Maps.{lookup}
use brawololo.Game.Types.{NetworkEntityId}
use brawololo.Game.Commands.{ClientInputPacket}
use brawololo.Game.Components.{Components}
use brawololo.Game.Simulation.Registry.{Entt, IsLawful}
use brawololo.Game.Simulation.Config.{SimulationConfig}
use brawololo.Game.Simulation.Movement.{Row, apply_input, integrate_movement}
use brawololo.Game.Simulation.Fitness.{
  IsPlayable, RowFits, Keeps, integrate_movement-Keeps, apply_input-Keeps,
}
use brawololo.Game.Simulation.{GameSimulation, update_entity}
use brawololo.Game.Simulation.Players.{
  IsSound, Follows, Follows-trans, update_entity-Follows, view-valid,
}
use brawololo.Game.Simulation.Ticks.{
  for_each, each_in_view, apply_to, entity_for_client, entity_for_player, apply_inputs,
  process_inputs, clear_intent, has_intent, is_player, integrate_entity,
}

module _ (E : Entt) (L : IsLawful E) (config : SimulationConfig) where
  open E use {Entity, valid, components, view}

  abbrev pub AllValid : List Entity → GameSimulation E → Type 0
  AllValid entities s = All (λ e. valid e s.registry ≡ true) entities

  pub Follows-refl : (s : GameSimulation E) → IsSound E L config s → Follows E L config s s
  Follows-refl s h = record { sound = h; still_valid = λ e v. v }

  pub Follows-AllValid :
      (entities : List Entity) (s s' : GameSimulation E)
      → Follows E L config s s'
      → AllValid entities s
      → AllValid entities s'
  Follows-AllValid [] s s' h v = tt
  Follows-AllValid (e ∷ rest) s s' h v = (h.still_valid e v.0, Follows-AllValid rest s s' h v.1)

  pub for_each-Follows :
      (f : Entity → GameSimulation E → GameSimulation E) (entities : List Entity)
      (s : GameSimulation E)
      → ((e : Entity) (t : GameSimulation E)
          → IsSound E L config t
          → valid e t.registry ≡ true
          → Follows E L config t (f e t))
      → IsSound E L config s
      → AllValid entities s
      → Follows E L config s (for_each E f entities s)
  for_each-Follows f [] s step h v = Follows-refl s h
  for_each-Follows f (e ∷ rest) s step h v =
      let first = step e s h v.0 in
      Follows-trans E L config s (f e s) _ first (
        for_each-Follows f rest (f e s) step first.sound
          (Follows-AllValid rest s (f e s) first v.1))

  pub view-AllValid :
      (test : Components → Bool) (s : GameSimulation E) → AllValid (view test s.registry) s
  view-AllValid test s = firsts (view test s.registry) (view-valid E L config test s.registry)
    where
      firsts :
          (entities : List Entity)
          → All
              (λ e. (valid e s.registry ≡ true) × (test (components e s.registry) ≡ true))
              entities
          → AllValid entities s
      firsts [] h = tt
      firsts (e ∷ rest) h = (h.0.0, firsts rest h.1)

  -- A function of the configuration that keeps what fits, on one entity.
  pub update-Follows :
      (change : SimulationConfig → Components → Row) (e : Entity) (s : GameSimulation E)
      → ((row : Components) → RowFits config row → Keeps config row (change config row).0)
      → IsSound E L config s
      → valid e s.registry ≡ true
      → Follows E L config s (update_entity E (change s.config) e s)
  update-Follows change e s keeps h v =
      let row = components e s.registry in
      update_entity-Follows E L config (change s.config) e s h v (
        subst (λ c. Keeps config row (change c row).0) (sym h.same_config) (keeps row (h.fits e v)))

module _ (E : Entt) (L : IsLawful E) (config : SimulationConfig)
    (playable : IsPlayable config) where
  open E use {Entity, valid, view}

  pub apply_to-Follows :
      (packet : ClientInputPacket) (o : Option Entity) (s : GameSimulation E)
      → IsSound E L config s
      → ((e : Entity) → o ≡ some e → valid e s.registry ≡ true)
      → Follows E L config s (apply_to E packet o s)
  apply_to-Follows packet none s h v = Follows-refl E L config s h
  apply_to-Follows packet (some e) s h v =
      update-Follows E L config (λ c. apply_input c s.time_ms packet.input) e s
        (apply_input-Keeps config playable s.time_ms packet.input) h (v e refl)

  pub entity_for_player-valid :
      (id : Option NetworkEntityId) (s : GameSimulation E)
      → IsSound E L config s
      → (e : Entity) → entity_for_player E id s ≡ some e
      → valid e s.registry ≡ true
  entity_for_player-valid none s h e found = absurd (none-ne-some e found)
  entity_for_player-valid (some id) s h e found = (h.known id e found).0

  apply_inputs-Follows :
      (packets : List ClientInputPacket) (s : GameSimulation E)
      → IsSound E L config s
      → Follows E L config s (apply_inputs E packets s)
  unfolding apply_inputs lookup
  apply_inputs-Follows [] s h = Follows-refl E L config s h
  apply_inputs-Follows (packet ∷ rest) s h =
      let first =
        apply_to-Follows packet (entity_for_client E packet s) s h
          (entity_for_player-valid (lookup packet.header.client_id s.player_by_client) s h) in
      Follows-trans E L config s _ _ first (apply_inputs-Follows rest _ first.sound)

  pub each_in_view-IsSound :
      (test : Components → Bool) (f : Entity → GameSimulation E → GameSimulation E)
      (s : GameSimulation E)
      → ((e : Entity) (t : GameSimulation E)
          → IsSound E L config t
          → valid e t.registry ≡ true
          → Follows E L config t (f e t))
      → IsSound E L config s
      → IsSound E L config (each_in_view E test f s)
  each_in_view-IsSound test f s step h =
      (for_each-Follows E L config f (view test s.registry) s step h
        (view-AllValid E L config test s)).sound

  pub clear_intent-Follows :
      (e : Entity) (s : GameSimulation E)
      → IsSound E L config s
      → valid e s.registry ≡ true
      → Follows E L config s (clear_intent E e s)
  clear_intent-Follows e s h v =
      update-Follows E L config (λ _ row. (record row { input_intent = none }, [])) e s
        (λ row fits. (fits, refl)) h v

  pub integrate_entity-Follows :
      (e : Entity) (s : GameSimulation E)
      → IsSound E L config s
      → valid e s.registry ≡ true
      → Follows E L config s (integrate_entity E e s)
  integrate_entity-Follows e s h v =
      update-Follows E L config integrate_movement e s (integrate_movement-Keeps config playable) h
        v

  pub process_inputs-IsSound :
      (s : GameSimulation E) → IsSound E L config s → IsSound E L config (process_inputs E s)
  unfolding process_inputs
  process_inputs-IsSound s h =
      let applied = (apply_inputs-Follows s.pending_inputs s h).sound in
      each_in_view-IsSound has_intent (clear_intent E) _ clear_intent-Follows (
        each_in_view-IsSound is_player (integrate_entity E) _ integrate_entity-Follows (record {
          same_config = applied.same_config;
          few_players = applied.few_players;
          accepted = (tt, tt);
          fits = applied.fits;
          known = applied.known;
        }))
