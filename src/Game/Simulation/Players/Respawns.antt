-- ===== src/Game/Simulation/Players/Respawns.antt =====
-- ProcessRespawns of GameLogic/src/SimulationCombat.cpp: no player waits longer than it has to.
use mathlib.Core.List.{Memᴰ}
use mathlib.Core.Option.{some-injective, none-ne-some}
use mathlib.Core.Bool.{true≢false}
use brawololo.Prelude.{
  ◌+◌, ◌%◌, ◌^◌, arith, All-imp, ◌≡◌, refl, sym, ap, ◌∙◌, subst, Bool, true, not, ◌||◌, ◌&&◌,
  Option, none, some, List, [], ◌∷◌, All, ltb, ◌<◌, ltb→lt, if-elim, Bool-cases, inl, inr,
}
use brawololo.Game.Types.{NetworkEntityId, TimestampMs}
use brawololo.Game.Components.{
  Components, PlayerComponent, TransformComponent, VelocityComponent, has,
}
use brawololo.Game.Simulation.Registry.{Entt, IsLawful}
use brawololo.Game.Simulation.Config.{SimulationConfig}
use brawololo.Game.Simulation.Movement.{Row}
use brawololo.Game.Simulation.Combat.{respawn, respawn_present, process_respawn}
use brawololo.Game.Simulation.{GameSimulation}
use brawololo.Game.Simulation.Ticks.{
  for_each, can_respawn, respawn_entity, process_respawns, process_projectiles,
  process_weapon_warmups, process_inputs, tick_fixed,
}
use brawololo.Game.Simulation.Players.{view-valid}

-- A defeated player that can respawn has still to wait.
abbrev Waits : TimestampMs → Components → Type 0
Waits now row =
    (p : PlayerComponent)
    → row.player ≡ some p
    → can_respawn row ≡ true
    → p.defeated ≡ true
    → ltb now p.respawn_at_ms ≡ true

-- The test of ProcessRespawns, for a player that is defeated.
still_waits :
    (defeated waits : Bool) → (not defeated || waits) ≡ true → defeated ≡ true → waits ≡ true
still_waits defeated waits h d = ground arith

missing :
    (id : Option NetworkEntityId) (p : Option PlayerComponent) (t : Option TransformComponent)
    (v : Option VelocityComponent)
    → (has id && has p && has t && has v) ≡ true
    → (has id ≡ true) × (has p ≡ true) × (has t ≡ true) × (has v ≡ true)
missing id p t v h = (ground arith, ground arith, ground arith, ground arith)

respawn-Waits :
    (config : SimulationConfig) (now : TimestampMs) (id : NetworkEntityId) (p : PlayerComponent)
    (row : Components)
    → row.player ≡ some p
    → Waits now (respawn config now id p row).0
respawn-Waits config now id p row is_p =
    if-elim (λ (r : Row). Waits now r.0) (not p.defeated || ltb now p.respawn_at_ms) _ _
      (λ waits q is_q can defeated.
        let same = some-injective q p (sym is_q ∙ is_p) in
        subst (λ (x : PlayerComponent). ltb now x.respawn_at_ms ≡ true) (sym same)
          (still_waits p.defeated (ltb now p.respawn_at_ms) waits
            (subst (λ (x : PlayerComponent). x.defeated ≡ true) same defeated)))
      (λ due q is_q can defeated.
        let same = some-injective _ _ is_q in
        absurd (true≢false (sym defeated ∙ ap (λ (x : PlayerComponent). x.defeated) (sym same))))

respawn_present-Waits :
    (config : SimulationConfig) (now : TimestampMs) (id : Option NetworkEntityId)
    (p : Option PlayerComponent) (t : Option TransformComponent) (v : Option VelocityComponent)
    (row : Components)
    → row.player ≡ p
    → can_respawn row ≡ (has id && has p && has t && has v)
    → Waits now (respawn_present config now id p t v row).0
respawn_present-Waits config now none p t v row is_p all =
    λ q is_q can d. absurd (true≢false (sym (missing none p t v (sym all ∙ can)).0))
respawn_present-Waits config now (some id) none t v row is_p all =
    λ q is_q can d. absurd (none-ne-some q (sym is_p ∙ is_q))
respawn_present-Waits config now (some id) (some p) none v row is_p all =
    λ q is_q can d. absurd (true≢false (sym (sym all ∙ can)))
respawn_present-Waits config now (some id) (some p) (some t) none row is_p all =
    λ q is_q can d. absurd (true≢false (sym (sym all ∙ can)))
respawn_present-Waits config now (some id) (some p) (some t) (some v) row is_p all =
    respawn-Waits config now id p row is_p

process_respawn-Waits :
    (config : SimulationConfig) (now : TimestampMs) (row : Components)
    → Waits now (process_respawn config now row).0
unfolding process_respawn
process_respawn-Waits config now row =
    respawn_present-Waits config now row.network_identity row.player row.transform row.velocity row
      refl refl

module _ (E : Entt) (L : IsLawful E) where
  open E use {Entity, valid, components, view}

  abbrev WaitsAt : Entity → GameSimulation E → Type 0
  WaitsAt e s = Waits s.time_ms (components e s.registry)

  abbrev AllValid : List Entity → GameSimulation E → Type 0
  AllValid entities s = All (λ e. valid e s.registry ≡ true) entities

  valid-respawn_entity :
      (d e : Entity) (s : GameSimulation E)
      → valid d s.registry ≡ true
      → valid e (respawn_entity E d s).registry ≡ valid e s.registry
  valid-respawn_entity d e s v = L.valid-replace s.registry d e _ v

  still_valid :
      (d : Entity) (entities : List Entity) (s : GameSimulation E)
      → valid d s.registry ≡ true
      → AllValid entities s
      → AllValid entities (respawn_entity E d s)
  still_valid d [] s v vs = tt
  still_valid d (e ∷ rest) s v vs =
      (valid-respawn_entity d e s v ∙ vs.0, still_valid d rest s v vs.1)

  respawned-WaitsAt :
      (e : Entity) (s : GameSimulation E)
      → valid e s.registry ≡ true
      → WaitsAt e (respawn_entity E e s)
  respawned-WaitsAt e s v =
      subst (Waits s.time_ms) (sym (L.components-replace s.registry e _ v))
        (process_respawn-Waits s.config s.time_ms (components e s.registry))

  respawn_entity-WaitsAt :
      (d e : Entity) (s : GameSimulation E)
      → valid d s.registry ≡ true
      → WaitsAt e s
      → WaitsAt e (respawn_entity E d s)
  respawn_entity-WaitsAt d e s v h = elim (L.same_entity e d) [
    | yes same ↦ subst (λ x. WaitsAt x (respawn_entity E d s)) (sym same) (respawned-WaitsAt d s v)
    | no other ↦ subst (Waits s.time_ms) (sym (L.components-replace_other s.registry d e _ other)) h
  ]

  for_each-WaitsAt :
      (entities : List Entity) (e : Entity) (s : GameSimulation E)
      → AllValid entities s
      → WaitsAt e s
      → WaitsAt e (for_each E (respawn_entity E) entities s)
  for_each-WaitsAt [] e s vs h = h
  for_each-WaitsAt (d ∷ rest) e s vs h =
      for_each-WaitsAt rest e _ (still_valid d rest s vs.0 vs.1)
        (respawn_entity-WaitsAt d e s vs.0 h)

  visited-WaitsAt :
      (entities : List Entity) (e : Entity) (s : GameSimulation E)
      → AllValid entities s
      → Memᴰ e entities
      → WaitsAt e (for_each E (respawn_entity E) entities s)
  visited-WaitsAt [] e s vs m = elim m [ ]
  visited-WaitsAt (d ∷ rest) e s vs (Memᴰ.head same) =
      for_each-WaitsAt rest e _ (still_valid d rest s vs.0 vs.1)
        (subst (λ x. WaitsAt x (respawn_entity E d s)) (sym same) (respawned-WaitsAt d s vs.0))
  visited-WaitsAt (d ∷ rest) e s vs (Memᴰ.tail m) =
      visited-WaitsAt rest e _ (still_valid d rest s vs.0 vs.1) m

  valid-for_each :
      (entities : List Entity) (e : Entity) (s : GameSimulation E)
      → AllValid entities s
      → valid e (for_each E (respawn_entity E) entities s).registry ≡ valid e s.registry
  valid-for_each [] e s vs = refl
  valid-for_each (d ∷ rest) e s vs =
      valid-for_each rest e _ (still_valid d rest s vs.0 vs.1) ∙ valid-respawn_entity d e s vs.0

  process_respawns-WaitsAt :
      (s : GameSimulation E) (e : Entity)
      → valid e (process_respawns E s).registry ≡ true
      → WaitsAt e (process_respawns E s)
  unfolding process_respawns
  process_respawns-WaitsAt s e v =
      let players = view can_respawn s.registry in
      let all_valid =
        All-imp _ _ (λ d both. both.0) players (view-valid E L s.config can_respawn s.registry) in
      elim (Bool-cases (can_respawn (components e s.registry))) [
        | inl can ↦
            let was_valid = sym (valid-for_each players e s all_valid) ∙ v in
            visited-WaitsAt players e s all_valid
              ((L.view_mem s.registry can_respawn e).1 (was_valid, can))
        | inr cannot ↦
            for_each-WaitsAt players e s all_valid
              (λ p is_p can defeated. absurd (true≢false (sym can ∙ cannot)))
      ]

  -- TickFixed before the respawns.
  abbrev fought : GameSimulation E → GameSimulation E
  fought s = process_projectiles E (
      process_weapon_warmups E (
        process_inputs E (record s {
          tick = (s.tick + 1) % 2 ^ 64;
          time_ms = (s.time_ms + s.config.tick_duration_ms) % 2 ^ 64;
        })))

  -- After a tick, an entity that is a defeated player, with an id, a position and a velocity, has a time to
  -- respawn that is still to come: every one whose time had come is back.
  pub tick_fixed-defeated :
      (s : GameSimulation E) (e : Entity) (p : PlayerComponent)
      → valid e (tick_fixed E s).registry ≡ true
      → (components e (tick_fixed E s).registry).player ≡ some p
      → can_respawn (components e (tick_fixed E s).registry) ≡ true
      → p.defeated ≡ true
      → (tick_fixed E s).time_ms < p.respawn_at_ms
  unfolding tick_fixed
  tick_fixed-defeated s e p v is_p can defeated =
      ltb→lt _ _ (process_respawns-WaitsAt (fought s) e v p is_p can defeated)
