-- ===== src/Game/Serialization/Combat.antt =====
-- The combat state of an entity in GameLogic/src/Serialization.cpp, with its format.
use brawololo.Prelude.{ℕ, refl, Bool, List, ◌++◌}
use brawololo.Prelude.Int.{ℤ}
use brawololo.Wire.Reader.{Read, ◌<$>◌, ◌<&>◌}
use brawololo.Wire.Codec.{IsCodec, map-IsCodec, ◌<⊗>◌}
use brawololo.Game.Types.{IsU32, IsU64, IsI32}
use brawololo.Game.Weapons.{WeaponType, weapon_code}
use brawololo.Game.Replication.{CombatStateDto}
use brawololo.Game.BinaryIo.{
  DecodeError, read_pod, write_pod, read_signed, write_signed, read_bool, write_bool, read_enum,
  write_enum, pod-IsCodec, signed-IsCodec, bool-IsCodec,
}
use brawololo.Game.Serialization.Parts.{read_weapon_type, weapon-IsCodec}

pub record CombatFits (c : CombatStateDto) : Type 0 where
  pub entity_id : IsU32 c.entity_id
  pub health : IsI32 c.health
  pub max_health : IsI32 c.max_health
  pub weapon_warmup_completes_at_ms : IsU64 c.weapon_warmup_completes_at_ms
  pub respawn_at_ms : IsU64 c.respawn_at_ms
  pub projectile_owner_id : IsU32 c.projectile_owner_id

unfoldable pub write_combat : CombatStateDto → List ℕ
unfolding write_pod write_signed write_bool
write_combat combat =
    write_pod 4 combat.entity_id
    ++ write_signed 4 combat.health
    ++ write_signed 4 combat.max_health
    ++ write_enum weapon_code combat.weapon_type
    ++ write_bool combat.weapon_warming
    ++ write_pod 8 combat.weapon_warmup_completes_at_ms
    ++ write_bool combat.defeated
    ++ write_pod 8 combat.respawn_at_ms
    ++ write_bool combat.server_owned_projectile
    ++ write_pod 4 combat.projectile_owner_id

abbrev combat_of :
    ((((((((ℕ × ℤ) × ℤ) × WeaponType) × Bool) × ℕ) × Bool) × ℕ) × Bool) × ℕ → CombatStateDto
combat_of p = record {
  entity_id = p.0.0.0.0.0.0.0.0.0;
  health = p.0.0.0.0.0.0.0.0.1;
  max_health = p.0.0.0.0.0.0.0.1;
  weapon_type = p.0.0.0.0.0.0.1;
  weapon_warming = p.0.0.0.0.0.1;
  weapon_warmup_completes_at_ms = p.0.0.0.0.1;
  defeated = p.0.0.0.1;
  respawn_at_ms = p.0.0.1;
  server_owned_projectile = p.0.1;
  projectile_owner_id = p.1;
}

unfoldable pub read_combat : Read DecodeError CombatStateDto
unfolding read_pod read_signed read_bool read_enum ◌<$>◌ ◌<&>◌
read_combat =
    combat_of
    <$> read_pod 4
      <&> read_signed 4
      <&> read_signed 4
      <&> read_weapon_type
      <&> read_bool
      <&> read_pod 8
      <&> read_bool
      <&> read_pod 8
      <&> read_bool
      <&> read_pod 4

pub combat-IsCodec : IsCodec CombatFits write_combat read_combat
unfolding write_combat read_combat
combat-IsCodec =
    map-IsCodec combat_of
      (λ c. (
        (
          (
            (
              (
                ((((c.entity_id, c.health), c.max_health), c.weapon_type), c.weapon_warming),
                c.weapon_warmup_completes_at_ms,
              ),
              c.defeated,
            ),
            c.respawn_at_ms,
          ),
          c.server_owned_projectile,
        ),
        c.projectile_owner_id,
      ))
      (λ c v. (
        (
          (
            (
              (
                (
                  ((((v.entity_id, v.health), v.max_health), tt), tt),
                  v.weapon_warmup_completes_at_ms,
                ),
                tt,
              ),
              v.respawn_at_ms,
            ),
            tt,
          ),
          v.projectile_owner_id,
        ),
        refl,
      ))
      (λ p v. (
        record {
          entity_id = v.0.0.0.0.0.0.0.0.0;
          health = v.0.0.0.0.0.0.0.0.1;
          max_health = v.0.0.0.0.0.0.0.1;
          weapon_warmup_completes_at_ms = v.0.0.0.0.1;
          respawn_at_ms = v.0.0.1;
          projectile_owner_id = v.1;
        },
        refl,
      ))
      (pod-IsCodec 4
        <⊗> signed-IsCodec 3
        <⊗> signed-IsCodec 3
        <⊗> weapon-IsCodec
        <⊗> bool-IsCodec
        <⊗> pod-IsCodec 8
        <⊗> bool-IsCodec
        <⊗> pod-IsCodec 8
        <⊗> bool-IsCodec
        <⊗> pod-IsCodec 4)
