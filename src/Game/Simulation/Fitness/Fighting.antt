-- ===== src/Game/Simulation/Fitness/Fighting.antt =====
-- The same for the functions of GameLogic/src/SimulationCombat.cpp.
use brawololo.Prelude.{
  subst, sym, not, ◌||◌, ◌&&◌, ltb, ◌==◌, ◌≡◌, refl, ◌∙◌, Bool, true, false, Option, none, some,
  List, [], ◌∷◌, All, arith, if-elim,
}
use brawololo.Prelude.Int.{pos, ◌≤ℤ◌, -ℤ_parts, leb_ℤ}
use brawololo.Game.Types.{TimestampMs, NetworkEntityId}
use brawololo.Game.Weapons.{WeaponDefinition, WeaponType, find_weapon_definition}
use brawololo.Game.Components.{
  TransformComponent, VelocityComponent, PlayerComponent, AimComponent, ProjectileComponent,
  WeaponStateComponent, Components,
}
use brawololo.Game.Simulation.Config.{SimulationConfig}
use brawololo.Game.Simulation.Movement.{Row, is_defeated}
use brawololo.Game.Simulation.Combat.{
  process_weapon_warmup, process_respawn, spawn_transform_for_client, damage_player, damage_of,
  health_after,
}
use brawololo.Game.Simulation.Combat.{
  Fired, fire_weapon, finish_warmup, warm_present, respawn, respawn_present, wound, wound_present,
  is_server, hits, hits_present, close_enough_for_hit,
}
use brawololo.Game.Simulation.Fitness.{
  IsPlayable, PlayerFits, RowFits, Keeps, spawn-IsOnMap, still-IsSlow,
}

find-damage :
    (weapons : List WeaponDefinition) (type : WeaponType)
    → All (λ (w : WeaponDefinition). pos 0 ≤ℤ w.damage) weapons
    → pos 0 ≤ℤ damage_of (find_weapon_definition weapons type)
unfolding find_weapon_definition
find-damage [] type h = omega arith
find-damage (w ∷ weapons) type h = let ih = find-damage weapons type h.1 in ground arith

not_second : (a b c : Bool) → (a && not b && c) ≡ true → b ≡ false
not_second a b c h = ground arith

abbrev FiredKeeps : SimulationConfig → Components → Fired → Type 0
FiredKeeps config row f = Keeps config row f.0.0

module _ (config : SimulationConfig) (playable : IsPlayable config) where
  fire_weapon-Keeps :
      (now : TimestampMs) (id : NetworkEntityId) (t : TransformComponent) (a : AimComponent)
      (type : WeaponType) (d : Option WeaponDefinition) (row : Components)
      → RowFits config row
      → FiredKeeps config row (fire_weapon now id t a type d row)
  fire_weapon-Keeps now id t a type none row h = (h, refl)
  fire_weapon-Keeps now id t a type (some d) row h = (h, refl)

  finish_warmup-Keeps :
      (now : TimestampMs) (id : NetworkEntityId) (t : TransformComponent) (a : AimComponent)
      (w : WeaponStateComponent) (row : Components)
      → RowFits config row
      → FiredKeeps config row (finish_warmup config now id t a w row)
  finish_warmup-Keeps now id t a w row h =
      if-elim (FiredKeeps config row) (is_defeated row.player) _ _ (λ n. (h, refl))
        (λ n.
          if-elim (FiredKeeps config row) (not w.warming || ltb now w.warmup_completes_at_ms) _ _
            (λ m. (h, refl))
            (λ m.
              if-elim (FiredKeeps config row) (is_server config.mode) _ _
                (λ l.
                  fire_weapon-Keeps now id t a w.type (find_weapon_definition config.weapons w.type)
                    _ h)
                (λ l. (h, refl))))

  warm_present-Keeps :
      (now : TimestampMs) (id : Option NetworkEntityId) (t : Option TransformComponent)
      (a : Option AimComponent) (w : Option WeaponStateComponent) (row : Components)
      → RowFits config row
      → FiredKeeps config row (warm_present config now id t a w row)
  warm_present-Keeps now none t a w row h = (h, refl)
  warm_present-Keeps now (some id) none a w row h = (h, refl)
  warm_present-Keeps now (some id) (some t) none w row h = (h, refl)
  warm_present-Keeps now (some id) (some t) (some a) none row h = (h, refl)
  warm_present-Keeps now (some id) (some t) (some a) (some w) row h =
      finish_warmup-Keeps now id t a w row h

  pub process_weapon_warmup-Keeps :
      (now : TimestampMs) (row : Components)
      → RowFits config row
      → Keeps config row (process_weapon_warmup config now row).0.0
  unfolding process_weapon_warmup
  process_weapon_warmup-Keeps now row h =
      warm_present-Keeps now row.network_identity row.transform row.aim row.weapon_state row h

  -- What fits of a player is at hand once it is known to be one.
  known_player :
      (p : PlayerComponent) (row : Components)
      → row.player ≡ some p
      → RowFits config row
      → PlayerFits config (some p) row.transform row.velocity row.projectile
  known_player p row e h =
      subst (λ q. PlayerFits config q row.transform row.velocity row.projectile) e h

  respawn-Keeps :
      (now : TimestampMs) (id : NetworkEntityId) (p : PlayerComponent) (row : Components)
      → row.player ≡ some p
      → RowFits config row
      → Keeps config row (respawn config now id p row).0
  unfolding spawn_transform_for_client
  respawn-Keeps now id p row e h =
      let (healthy, m, s, no_projectile) = known_player p row e h in
      if-elim (λ (r : Row). Keeps config row r.0) (not p.defeated || ltb now p.respawn_at_ms) _ _
        (λ n. (h, refl))
        (λ n. (
          (
            record {
              not_below = let l = healthy.can_live in omega arith;
              not_above = omega arith;
              can_live = healthy.can_live;
              defeat = let l = healthy.can_live in ground arith;
            },
            spawn-IsOnMap config playable p.client_id,
            still-IsSlow config playable,
            no_projectile,
          ),
          refl,
        ))

  respawn_present-Keeps :
      (now : TimestampMs) (id : Option NetworkEntityId) (p : Option PlayerComponent)
      (t : Option TransformComponent) (v : Option VelocityComponent) (row : Components)
      → row.player ≡ p
      → RowFits config row
      → Keeps config row (respawn_present config now id p t v row).0
  respawn_present-Keeps now none p t v row e h = (h, refl)
  respawn_present-Keeps now (some id) none t v row e h = (h, refl)
  respawn_present-Keeps now (some id) (some p) none v row e h = (h, refl)
  respawn_present-Keeps now (some id) (some p) (some t) none row e h = (h, refl)
  respawn_present-Keeps now (some id) (some p) (some t) (some v) row e h =
      respawn-Keeps now id p row e h

  pub process_respawn-Keeps :
      (now : TimestampMs) (row : Components)
      → RowFits config row
      → Keeps config row (process_respawn config now row).0
  unfolding process_respawn
  process_respawn-Keeps now row h =
      respawn_present-Keeps now row.network_identity row.player row.transform row.velocity row refl
        h

  wound-Keeps :
      (now : TimestampMs) (b : NetworkEntityId) (projectile : ProjectileComponent)
      (id : NetworkEntityId) (p : PlayerComponent) (row : Components)
      → row.player ≡ some p
      → p.defeated ≡ false
      → RowFits config row
      → Keeps config row (wound config now b projectile id p row).0
  unfolding health_after
  wound-Keeps now b projectile id p row e alive h =
      let (healthy, m, s, no_projectile) = known_player p row e h in
      let damage = damage_of (find_weapon_definition config.weapons projectile.source_weapon) in
      let hurts = find-damage config.weapons projectile.source_weapon playable.damage in
      let left = (-ℤ_parts p.health damage).0 in
      let below = healthy.not_above in
      let above = healthy.not_below in
      let live = healthy.can_live in
      let health = health_after p damage in
      let fits : (pos 0 ≤ℤ health) × (health ≤ℤ p.max_health) =
        (omega arith, omega (arith, left)) in
      if-elim (λ (r : Row). Keeps config row r.0) (leb_ℤ health (pos 0)) _ _
        (λ low. (
          (
            record { not_below = fits.0; not_above = fits.1; can_live = live; defeat = sym low },
            m,
            s,
            no_projectile,
          ),
          refl,
        ))
        (λ high. (
          (
            record {
              not_below = fits.0;
              not_above = fits.1;
              can_live = live;
              defeat = alive ∙ sym high;
            },
            m,
            s,
            no_projectile,
          ),
          refl,
        ))

  hit_present-Keeps :
      (now : TimestampMs) (b : NetworkEntityId) (projectile : ProjectileComponent)
      (at : TransformComponent) (id : Option NetworkEntityId) (p : Option PlayerComponent)
      (t : Option TransformComponent) (row : Components)
      → row.player ≡ p
      → hits_present projectile.owner_id at id p t ≡ true
      → RowFits config row
      → Keeps config row (wound_present config now b projectile id p row).0
  hit_present-Keeps now b projectile at none p t row e hit h = (h, refl)
  hit_present-Keeps now b projectile at (some id) none t row e hit h = (h, refl)
  hit_present-Keeps now b projectile at (some id) (some p) none row e hit h = absurd (cc)
  hit_present-Keeps now b projectile at (some id) (some p) (some t) row e hit h =
      wound-Keeps now b projectile id p row e
        (not_second (not (id == projectile.owner_id)) p.defeated (close_enough_for_hit at t) hit) h

  -- A hit on a player that the projectile can hit.
  pub damage_player-Keeps :
      (now : TimestampMs) (b : NetworkEntityId) (projectile : ProjectileComponent)
      (at : TransformComponent) (row : Components)
      → hits projectile.owner_id at row ≡ true
      → RowFits config row
      → Keeps config row (damage_player config now b projectile row).0
  unfolding hits damage_player
  damage_player-Keeps now b projectile at row hit h =
      hit_present-Keeps now b projectile at row.network_identity row.player row.transform row refl
        hit h

  -- Moving a projectile is not moving a player.
  pub projectile_moved-Keeps :
      (row : Components) (t : TransformComponent) (projectile : ProjectileComponent)
      → row.projectile ≡ some projectile
      → RowFits config row
      → Keeps config row (record row { transform = some t })
  projectile_moved-Keeps row t projectile e h = (moved row.player h, refl)
    where
      moved :
          (p : Option PlayerComponent)
          → PlayerFits config p row.transform row.velocity row.projectile
          → PlayerFits config p (some t) row.velocity row.projectile
      moved none g = tt
      moved (some p) g = absurd (let no_projectile = g.3 in cc)
