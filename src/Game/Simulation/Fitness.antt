-- ===== src/Game/Simulation/Fitness.antt =====
-- What the functions on one entity's components keep: a player's health, position and speed.
pub mod Fighting
use brawololo.Prelude.{
  ℕ, suc, ◌+◌, ◌-◌, ◌*◌, ◌/◌, ◌%◌, ◌<◌, ◌≤◌, ◌≡◌, ◌↔◌, refl, ap, ◌∙◌, Bool, true, false, Option,
  none, some, List, [], ◌∷◌, All, arith, if◌then◌else◌, leb, leb→le, if-elim, Bool-cases, inl, inr,
}
use brawololo.Prelude.Int.{
  ℤ, pos, negsuc, pos_part, neg_part, negate, ◌+ℤ◌, ◌-ℤ◌, ◌*ℤ◌, ◌≤ℤ◌, -ℤ_parts, leb_ℤ,
}
use brawololo.Game.Types.{Fixed, ClientId, TimestampMs, NetworkEntityId}
use brawololo.Game.FixedPoint.{pixels_to_fixed, clamp_fixed, clamp_fixed_bounds}
use brawololo.Game.Map.{MapConfig, map_width_fixed, map_height_fixed}
use brawololo.Game.Commands.{InputFrame}
use brawololo.Game.Weapons.{WeaponDefinition, WeaponType, find_weapon_definition, same_weapon}
use brawololo.Game.Components.{
  TransformComponent, VelocityComponent, PlayerComponent, ProjectileComponent, WeaponStateComponent,
  Components, default_velocity,
}
use brawololo.Game.Simulation.Config.{SimulationConfig}
use brawololo.Game.Simulation.Movement.{
  Row, apply_input, integrate_movement, clamp_to_map, clamp_velocity, is_defeated, move_present,
  fire, fire_defined,
}
use brawololo.Game.Simulation.Combat.{
  process_weapon_warmup, process_respawn, spawn_transform_for_client, damage_player, damage_of,
  health_after,
}

-- A map with room for the spawn tiles 10 to 29, a player that can live and stand still, and weapons that never
-- heal.
pub record IsPlayable (config : SimulationConfig) : Type 0 where
  pub tile : pos 1 ≤ℤ config.map.tile_size_pixels
  pub width : pos 30 ≤ℤ config.map.width_tiles
  pub height : pos 30 ≤ℤ config.map.height_tiles
  pub speed : pos 0 ≤ℤ config.max_move_speed_per_second
  pub health : pos 1 ≤ℤ config.max_player_health
  pub damage : All (λ (w : WeaponDefinition). pos 0 ≤ℤ w.damage) config.weapons

-- On the map.
pub record IsOnMap (config : SimulationConfig) (t : TransformComponent) : Type 0 where
  pub left : pos 0 ≤ℤ t.x
  pub right : t.x ≤ℤ (map_width_fixed config.map -ℤ pos 1)
  pub top : pos 0 ≤ℤ t.y
  pub bottom : t.y ≤ℤ (map_height_fixed config.map -ℤ pos 1)

-- Within the maximal speed on each axis.
pub record IsSlow (config : SimulationConfig) (v : VelocityComponent) : Type 0 where
  pub x_low : negate config.max_move_speed_per_second ≤ℤ v.vx
  pub x_high : v.vx ≤ℤ config.max_move_speed_per_second
  pub y_low : negate config.max_move_speed_per_second ≤ℤ v.vy
  pub y_high : v.vy ≤ℤ config.max_move_speed_per_second

-- Defeated exactly at health 0.
pub record IsHealthy (p : PlayerComponent) : Type 0 where
  pub not_below : pos 0 ≤ℤ p.health
  pub not_above : p.health ≤ℤ p.max_health
  pub can_live : pos 1 ≤ℤ p.max_health
  pub defeat : p.defeated ≡ leb_ℤ p.health (pos 0)

abbrev pub OnSome {ℓ} : {A : Type ℓ} → (A → Type 0) → Option A → Type 0
OnSome P none = Unit {0}
OnSome P (some a) = P a

-- Of an entity that is a player; there is nothing to say of another.
abbrev pub PlayerFits :
    SimulationConfig
    → Option PlayerComponent
    → Option TransformComponent
    → Option VelocityComponent
    → Option ProjectileComponent
    → Type 0
PlayerFits config none transform velocity projectile = Unit {0}
PlayerFits config (some player) transform velocity projectile =
    IsHealthy player
    × OnSome (IsOnMap config) transform
    × OnSome (IsSlow config) velocity
    × (projectile ≡ none)

abbrev pub RowFits : SimulationConfig → Components → Type 0
RowFits config row = PlayerFits config row.player row.transform row.velocity row.projectile

pos-*ℤ-pos : (a b : ℕ) → pos a *ℤ pos b ≡ pos (a * b)
unfolding ◌*ℤ◌
pos-*ℤ-pos a b = ground arith

-- A tile before the end of an axis starts before the end of the map.
tile-lt : (k w t : ℕ) → k < w → 1 ≤ t → k * t * 1000 < w * t * 1000
tile-lt k w t h ht = grind arith

tile_bounds :
    (k : ℕ) (tiles size : ℤ)
    → k < 30
    → pos 30 ≤ℤ tiles
    → pos 1 ≤ℤ size
    → (pos 0 ≤ℤ pixels_to_fixed (pos k *ℤ size))
      × (pixels_to_fixed (pos k *ℤ size) ≤ℤ (pixels_to_fixed (tiles *ℤ size) -ℤ pos 1))
unfolding pixels_to_fixed
tile_bounds k (pos w) (pos t) hk hw ht =
    let lt = tile-lt k w t (omega arith) (omega arith) in
    rw (pos-*ℤ-pos k t, pos-*ℤ-pos w t, pos-*ℤ-pos (k * t) 1000, pos-*ℤ-pos (w * t) 1000)
      (
        omega arith,
        omega (
          arith,
          (-ℤ_parts (pos (w * t * 1000)) (pos 1)).0,
          (-ℤ_parts (pos (w * t * 1000)) (pos 1)).1,
        ),
      )
tile_bounds k (pos w) (negsuc t) hk hw ht = absurd (omega arith)
tile_bounds k (negsuc w) t hk hw ht = absurd (omega arith)

-- The components after a call fit, and are those of the same network entity.
abbrev pub Keeps : SimulationConfig → Components → Components → Type 0
Keeps config row row' = RowFits config row' × (row'.network_identity ≡ row.network_identity)

module _ (config : SimulationConfig) (playable : IsPlayable config) where
  pub spawn-IsOnMap :
      (client : ClientId) → IsOnMap config (spawn_transform_for_client config client)
  unfolding spawn_transform_for_client map_width_fixed map_height_fixed
  spawn-IsOnMap client =
      let x =
        tile_bounds (10 + client % 20) config.map.width_tiles config.map.tile_size_pixels
          (omega arith) playable.width playable.tile in
      let y =
        tile_bounds (10 + client / 20 % 20) config.map.height_tiles config.map.tile_size_pixels
          (omega arith) playable.height playable.tile in
      record { left = x.0; right = x.1; top = y.0; bottom = y.1 }

  clamp_to_map-IsOnMap : (t : TransformComponent) → IsOnMap config (clamp_to_map config t)
  unfolding clamp_to_map
  clamp_to_map-IsOnMap t =
      let s = spawn-IsOnMap 0 in
      let l = s.left in
      let r = s.right in
      let u = s.top in
      let d = s.bottom in
      let x = clamp_fixed_bounds t.x (pos 0) (map_width_fixed config.map -ℤ pos 1) (omega arith) in
      let y = clamp_fixed_bounds t.y (pos 0) (map_height_fixed config.map -ℤ pos 1) (omega arith) in
      record { left = x.0; right = x.1; top = y.0; bottom = y.1 }

  clamp_velocity-IsSlow : (v : VelocityComponent) → IsSlow config (clamp_velocity config v)
  clamp_velocity-IsSlow v =
      let max = config.max_move_speed_per_second in
      let h = playable.speed in
      let x = clamp_fixed_bounds v.vx (negate max) max (ground arith) in
      let y = clamp_fixed_bounds v.vy (negate max) max (ground arith) in
      record { x_low = x.0; x_high = x.1; y_low = y.0; y_high = y.1 }

  pub still-IsSlow : IsSlow config default_velocity
  still-IsSlow =
      let h = playable.speed in
      record {
        x_low = ground arith;
        x_high = ground arith;
        y_low = ground arith;
        y_high = ground arith;
      }

  PlayerFits-moved :
      (p : Option PlayerComponent) (t : Option TransformComponent) (v : Option VelocityComponent)
      (b : Option ProjectileComponent) (t' : TransformComponent) (v' : VelocityComponent)
      → PlayerFits config p t v b
      → IsOnMap config t'
      → IsSlow config v'
      → PlayerFits config p (some t') (some v') b
  PlayerFits-moved none t v b t' v' h m s = tt
  PlayerFits-moved (some p) t v b t' v' h m s = (h.0, m, s, h.3)

  PlayerFits-slowed :
      (p : Option PlayerComponent) (t : Option TransformComponent) (v : Option VelocityComponent)
      (b : Option ProjectileComponent) (v' : VelocityComponent)
      → PlayerFits config p t v b
      → IsSlow config v'
      → PlayerFits config p t (some v') b
  PlayerFits-slowed none t v b v' h s = tt
  PlayerFits-slowed (some p) t v b v' h s = (h.0, h.1, s, h.3)

  move_present-Keeps :
      (id : Option NetworkEntityId) (t : Option TransformComponent) (v : Option VelocityComponent)
      (row : Components)
      → RowFits config row
      → Keeps config row (move_present config id t v row).0
  move_present-Keeps none t v row h = (h, refl)
  move_present-Keeps (some id) none v row h = (h, refl)
  move_present-Keeps (some id) (some t) none row h = (h, refl)
  move_present-Keeps (some id) (some t) (some v) row h =
      if-elim (λ (r : Row). Keeps config row r.0) (is_defeated row.player) _ _
        (λ n. (PlayerFits-slowed row.player _ _ _ _ h still-IsSlow, refl))
        (λ n. (
          PlayerFits-moved row.player _ _ _ _ _ h (clamp_to_map-IsOnMap _)
              (clamp_velocity-IsSlow _),
          refl,
        ))

  pub integrate_movement-Keeps :
      (row : Components) → RowFits config row → Keeps config row (integrate_movement config row).0
  unfolding integrate_movement
  integrate_movement-Keeps row h =
      move_present-Keeps row.network_identity row.transform row.velocity row h

  fire_defined-Keeps :
      (now : TimestampMs) (id : NetworkEntityId) (w : WeaponStateComponent)
      (d : Option WeaponDefinition) (row : Components)
      → RowFits config row
      → Keeps config row (fire_defined now id w d row).0
  fire_defined-Keeps now id w none row h = (h, refl)
  fire_defined-Keeps now id w (some d) row h =
      if-elim (λ (r : Row). Keeps config row r.0) (same_weapon w.type WeaponType.none) _ _
        (λ n. (h, refl))
        (λ n.
          if-elim (λ (r : Row). Keeps config row r.0) w.warming _ _ (λ m. (h, refl))
            (λ m. (h, refl)))

  fire-Keeps :
      (now : TimestampMs) (w : Option WeaponStateComponent) (id : Option NetworkEntityId)
      (row : Components)
      → RowFits config row
      → Keeps config row (fire config now w id row).0
  fire-Keeps now none id row h = (h, refl)
  fire-Keeps now (some w) none row h = (h, refl)
  fire-Keeps now (some w) (some id) row h = fire_defined-Keeps now id w _ row h

  pub apply_input-Keeps :
      (now : TimestampMs) (input : InputFrame) (row : Components)
      → RowFits config row
      → Keeps config row (apply_input config now input row).0
  unfolding apply_input
  apply_input-Keeps now input row h =
      if-elim (λ (r : Row). Keeps config row r.0) (is_defeated row.player) _ _ (λ n. (h, refl))
        (λ n.
          if-elim (λ (r : Row). Keeps config row r.0) input.fire _ _
            (λ m. fire-Keeps now row.weapon_state row.network_identity _ h) (λ m. (h, refl)))
