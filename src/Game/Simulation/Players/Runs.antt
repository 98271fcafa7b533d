-- ===== src/Game/Simulation/Players/Runs.antt =====
-- The states that a simulation of GameLogic/src/Simulation.cpp reaches by logins, inputs, ticks, drained
-- events and replayed inputs. ApplySnapshot is left out: it takes health, position and velocity as the
-- server sends them.
use mathlib.Core.Option.{none-ne-some}
use mathlib.Core.Bool.{true≢false}
use brawololo.Prelude.{
  ◌∙◌, ℕ, ◌<◌, ◌≡◌, refl, sym, ap, subst, Bool, true, false, not, Option, none, some, List, [], ◌∷◌,
  length, leb, arith, if-elim,
}
use brawololo.Prelude.Maps.{lookup}
use brawololo.Game.Types.{ClientId}
use brawololo.Game.Commands.{LoginCommand, ClientInputPacket}
use brawololo.Game.Components.{has}
use brawololo.Game.Simulation.Registry.{Entt, IsLawful}
use brawololo.Game.Simulation.Config.{SimulationConfig}
use brawololo.Game.Simulation.Combat.{spawn_transform_for_client}
use brawololo.Game.Simulation.Fitness.{IsPlayable, RowFits, spawn-IsOnMap, still-IsSlow}
use brawololo.Game.Simulation.Inputs.{AreAccepted-append, AreAccepted-login, length-assign}
use brawololo.Game.Simulation.{
  GameSimulation, create_simulation, create_player, player_row, submit_login, submit_input,
  drain_events, is_old,
}
use brawololo.Game.Simulation.Ticks.{
  tick_fixed, replay_on, replay_local_inputs_for_prediction, entity_for_client, integrate_entity,
  apply_input_to_entity,
}
use brawololo.Game.Simulation.Players.{IsSound, Follows, Follows-trans, add_entity-Follows}
use brawololo.Game.Simulation.Players.Loops.{
  Follows-refl, apply_to-Follows, integrate_entity-Follows, clear_intent-Follows,
  entity_for_player-valid,
}
use brawololo.Game.Simulation.Players.Fights.{tick_fixed-IsSound}

module _ (E : Entt) (config : SimulationConfig) where
  pub data Reaches : GameSimulation E → Type 0 where
    created : Reaches (create_simulation E config)
    logged_in :
        {s : GameSimulation E} (command : LoginCommand)
        → Reaches s
        → Reaches (submit_login E command s).0
    given_input :
        {s : GameSimulation E} (packet : ClientInputPacket)
        → Reaches s
        → Reaches (submit_input E packet s).0
    ticked : {s : GameSimulation E} → Reaches s → Reaches (tick_fixed E s)
    drained : {s : GameSimulation E} → Reaches s → Reaches (drain_events E s).0
    replayed :
        {s : GameSimulation E} (packets : List ClientInputPacket)
        → Reaches s
        → Reaches (replay_local_inputs_for_prediction E packets s)

not-false : {b : Bool} → not b ≡ false → b ≡ true
not-false {b} h = ground arith

not_leb→lt : (a b : ℕ) → leb a b ≡ false → b < a
not_leb→lt a b h = ground arith

module _ (E : Entt) (L : IsLawful E) (config : SimulationConfig)
    (playable : IsPlayable config) where
  open E use {Entity, valid, components}

  create_simulation-IsSound : IsSound E L config (create_simulation E config)
  unfolding lookup
  create_simulation-IsSound = record {
    same_config = refl;
    few_players = omega arith;
    accepted = (tt, tt);
    fits = λ e v. absurd (true≢false (sym v ∙ L.valid-empty e));
    known = λ id e found. absurd (none-ne-some e found);
  }

  login-IsSound :
      (command : LoginCommand) (s : GameSimulation E)
      → IsSound E L config s
      → IsSound E L config (submit_login E command s).0
  unfolding submit_login create_player spawn_transform_for_client
  login-IsSound command s h =
      let client = command.header.client_id in
      let spawn = spawn_transform_for_client s.config client in
      if-elim (λ (r : GameSimulation E × Bool). IsSound E L config r.0)
        (has (lookup client s.player_by_client)) _ _ (λ _. h)
        (λ new.
          if-elim (λ (r : GameSimulation E × Bool). IsSound E L config r.0)
            (leb s.config.max_players (length s.player_by_client)) _ _ (λ _. h)
            (λ room.
              let added =
                add_entity-Follows E L config (player_row E s.config client spawn.x spawn.y) s h
                  (player_fits client s h) refl in
              record {
                same_config = added.sound.same_config;
                few_players =
                    let grown = length-assign client s.next_network_id s.player_by_client in
                    let same = ap (λ (c : SimulationConfig). c.max_players) h.same_config in
                    let below = not_leb→lt _ _ room in omega arith;
                accepted =
                    AreAccepted-login s.player_by_client s.last_accepted_sequence s.pending_inputs
                      client s.next_network_id command.header.sequence new h.accepted;
                fits = added.sound.fits;
                known = added.sound.known;
              }))
    where
      player_fits :
          (client : ClientId) (s : GameSimulation E)
          → IsSound E L config s
          → RowFits config (
              player_row E s.config client
                (spawn_transform_for_client s.config client).x
                (spawn_transform_for_client s.config client).y
                s.next_network_id)
      player_fits client s h =
          subst
            (λ c. RowFits config (
              player_row E c client (spawn_transform_for_client c client).x
                (spawn_transform_for_client c client).y s.next_network_id))
            (sym h.same_config)
            (
              (let l = playable.health in
                  record {
                    not_below = omega arith;
                    not_above = omega arith;
                    can_live = l;
                    defeat = ground arith;
                  }),
              spawn-IsOnMap config playable client,
              still-IsSlow config playable,
              refl,
            )

  input-IsSound :
      (packet : ClientInputPacket) (s : GameSimulation E)
      → IsSound E L config s
      → IsSound E L config (submit_input E packet s).0
  unfolding submit_input
  input-IsSound packet s h =
      let client = packet.header.client_id in
      if-elim (λ (r : GameSimulation E × Bool). IsSound E L config r.0)
        (not (has (lookup client s.player_by_client))) _ _ (λ _. h)
        (λ known.
          if-elim (λ (r : GameSimulation E × Bool). IsSound E L config r.0)
            (is_old (lookup client s.last_accepted_sequence) packet.header.sequence) _ _ (λ _. h)
            (λ fresh. record {
              same_config = h.same_config;
              few_players = h.few_players;
              accepted =
                  AreAccepted-append s.player_by_client s.last_accepted_sequence s.pending_inputs
                    packet h.accepted (not-false known) fresh;
              fits = h.fits;
              known = h.known;
            }))

  replay_on-Follows :
      (packet : ClientInputPacket) (o : Option Entity) (s : GameSimulation E)
      → IsSound E L config s
      → ((e : Entity) → o ≡ some e → valid e s.registry ≡ true)
      → Follows E L config s (replay_on E packet o s)
  replay_on-Follows packet none s h v = Follows-refl E L config s h
  replay_on-Follows packet (some e) s h v =
      let applied = apply_input_to_entity E e packet s in
      let first = apply_to-Follows E L config playable packet (some e) s h v in
      let is_valid = first.still_valid e (v e refl) in
      let second = integrate_entity-Follows E L config playable e applied first.sound is_valid in
      Follows-trans E L config s applied _ first (
        Follows-trans E L config applied (integrate_entity E e applied) _ second (
          clear_intent-Follows E L config playable e (integrate_entity E e applied) second.sound
            (second.still_valid e is_valid)))

  replay-IsSound :
      (packets : List ClientInputPacket) (s : GameSimulation E)
      → IsSound E L config s
      → IsSound E L config (replay_local_inputs_for_prediction E packets s)
  unfolding replay_local_inputs_for_prediction
  replay-IsSound [] s h = h
  replay-IsSound (packet ∷ rest) s h =
      replay-IsSound rest _
        (replay_on-Follows packet (entity_for_client E packet s) s h (
          entity_for_player-valid E L config playable
            (lookup packet.header.client_id s.player_by_client) s h)).sound

  -- In every state that a simulation reaches from its creation by logins, inputs, ticks, drained events
  -- and replayed inputs, in any order and without ApplySnapshot, under a configuration whose tiles have at
  -- least one pixel, whose map has at least 30 tiles each way, whose maximal speed and weapon damage are
  -- not negative and whose maximal health is at least 1: the configuration is the one given and the
  -- players are no more than it allows; the waiting inputs are those of clients with a player, in
  -- increasing order of sequence for each client; an id that the simulation knows is that of a valid
  -- entity that carries it; and every valid entity that is a player has a health between 0 and its
  -- maximum, is defeated exactly at 0, stands on the map, and moves at no more than the maximal speed on
  -- either axis.
  pub Reaches-IsSound : (s : GameSimulation E) → Reaches E config s → IsSound E L config s
  Reaches-IsSound _ (created) = create_simulation-IsSound
  Reaches-IsSound _ (logged_in {s} command r) = login-IsSound command s (Reaches-IsSound s r)
  Reaches-IsSound _ (given_input {s} packet r) = input-IsSound packet s (Reaches-IsSound s r)
  Reaches-IsSound _ (ticked {s} r) = tick_fixed-IsSound E L config playable s (Reaches-IsSound s r)
  Reaches-IsSound _ (drained {s} r) =
      let h = Reaches-IsSound s r in
      record {
        same_config = h.same_config;
        few_players = h.few_players;
        accepted = h.accepted;
        fits = h.fits;
        known = h.known;
      }
  Reaches-IsSound _ (replayed {s} packets r) = replay-IsSound packets s (Reaches-IsSound s r)
