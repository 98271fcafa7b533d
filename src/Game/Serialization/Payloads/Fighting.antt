-- ===== src/Game/Serialization/Payloads/Fighting.antt =====
-- The formats of the payloads for weapons, projectiles and damage in GameLogic/src/Serialization.cpp
use brawololo.Game.Weapons.{WeaponType}
use brawololo.Prelude.Int.{ℤ}
use brawololo.Prelude.{ℕ, ◌≡◌, refl}
use brawololo.Wire.Codec.{IsCodec, embed-IsCodec, ◌<⊗>◌}
use brawololo.Game.Types.{IsU32, IsU64, IsI32}
use brawololo.Game.NetworkEvents.{NetworkEventKind, NetworkEventPayloadDto, kind_for_network_event}
use brawololo.Game.BinaryIo.{pod-IsCodec, signed-IsCodec}
use brawololo.Game.Serialization.Parts.{weapon-IsCodec}
use brawololo.Game.Serialization.Payloads.{write_payload, read_payload, Of}

pub weapon_warmup_started-IsCodec :
    IsCodec
      (Of NetworkEventKind.weapon_warmup_started)
      write_payload
      (read_payload NetworkEventKind.weapon_warmup_started)
unfolding write_payload read_payload kind_for_network_event
weapon_warmup_started-IsCodec =
    embed-IsCodec _ back (λ p v. (((v.0.0.0, v.0.0.1, v.0.1), refl), refl))
      (pod-IsCodec 4 <⊗> pod-IsCodec 8 <⊗> pod-IsCodec 8 <⊗> weapon-IsCodec)
  where
    back :
        (payload : NetworkEventPayloadDto)
        → Of NetworkEventKind.weapon_warmup_started payload
        → (p : ((ℕ × ℕ) × ℕ) × WeaponType) × ((((IsU32 p.0.0.0) × (IsU64 p.0.0.1)) × (IsU64 p.0.1))
            × (Unit {0}))
          × (NetworkEventPayloadDto.weapon_warmup_started p.0.0.0 p.0.0.1 p.0.1 p.1 ≡ payload)
    back
          (NetworkEventPayloadDto.weapon_warmup_started entity_id started_at_ms completes_at_ms
            weapon_type)
          v =
        (
          (((entity_id, started_at_ms), completes_at_ms), weapon_type),
          (((v.0.0, v.0.1), v.0.2), tt),
          refl,
        )
    back _ v = cc

pub bow_fired-IsCodec :
    IsCodec (Of NetworkEventKind.bow_fired) write_payload (read_payload NetworkEventKind.bow_fired)
unfolding write_payload read_payload kind_for_network_event
bow_fired-IsCodec =
    embed-IsCodec _ back (λ p v. (((v.0.0, v.0.1), refl), refl))
      (pod-IsCodec 4 <⊗> pod-IsCodec 8 <⊗> weapon-IsCodec)
  where
    back :
        (payload : NetworkEventPayloadDto)
        → Of NetworkEventKind.bow_fired payload
        → (p : (ℕ × ℕ) × WeaponType) × (((IsU32 p.0.0) × (IsU64 p.0.1)) × (Unit {0}))
          × (NetworkEventPayloadDto.weapon_fired p.0.0 p.0.1 p.1 ≡ payload)
    back (NetworkEventPayloadDto.weapon_fired entity_id fired_at_ms weapon_type) v =
        (((entity_id, fired_at_ms), weapon_type), ((v.0.0, v.0.1), tt), refl)
    back _ v = cc

pub projectile_spawned-IsCodec :
    IsCodec
      (Of NetworkEventKind.projectile_spawned)
      write_payload
      (read_payload NetworkEventKind.projectile_spawned)
unfolding write_payload read_payload kind_for_network_event
projectile_spawned-IsCodec =
    embed-IsCodec _ back (λ p v. (((v.0.0.0.0, v.0.0.0.1, v.0.0.1, v.0.1), refl), refl))
      (pod-IsCodec 4 <⊗> pod-IsCodec 4 <⊗> signed-IsCodec 3 <⊗> signed-IsCodec 3 <⊗> weapon-IsCodec)
  where
    back :
        (payload : NetworkEventPayloadDto)
        → Of NetworkEventKind.projectile_spawned payload
        → (p : (((ℕ × ℕ) × ℤ) × ℤ) × WeaponType) × (((((IsU32 p.0.0.0.0) × (IsU32 p.0.0.0.1))
                × (IsI32 p.0.0.1))
              × (IsI32 p.0.1))
            × (Unit {0}))
          × (NetworkEventPayloadDto.projectile_spawned p.0.0.0.0 p.0.0.0.1 p.0.0.1 p.0.1 p.1
              ≡ payload)
    back (NetworkEventPayloadDto.projectile_spawned projectile_id owner_id x y source_weapon) v = (
      ((((projectile_id, owner_id), x), y), source_weapon),
      ((((v.0.0, v.0.1), v.0.2), v.0.3), tt),
      refl,
    )
    back _ v = cc

pub hit_confirmed-IsCodec :
    IsCodec
      (Of NetworkEventKind.hit_confirmed)
      write_payload
      (read_payload NetworkEventKind.hit_confirmed)
unfolding write_payload read_payload kind_for_network_event
hit_confirmed-IsCodec =
    embed-IsCodec _ back (λ p v. (((v.0.0.0, v.0.0.1, v.0.1, v.1), refl), refl))
      (pod-IsCodec 4 <⊗> pod-IsCodec 4 <⊗> pod-IsCodec 4 <⊗> pod-IsCodec 8)
  where
    back :
        (payload : NetworkEventPayloadDto)
        → Of NetworkEventKind.hit_confirmed payload
        → (p : ((ℕ × ℕ) × ℕ) × ℕ) × ((((IsU32 p.0.0.0) × (IsU32 p.0.0.1)) × (IsU32 p.0.1))
            × (IsU64 p.1))
          × (NetworkEventPayloadDto.hit_confirmed p.0.0.0 p.0.0.1 p.0.1 p.1 ≡ payload)
    back (NetworkEventPayloadDto.hit_confirmed attacker_id target_id projectile_id server_time_ms)
          v =
        (
          (((attacker_id, target_id), projectile_id), server_time_ms),
          (((v.0.0, v.0.1), v.0.2), v.0.3),
          refl,
        )
    back _ v = cc

pub player_damaged-IsCodec :
    IsCodec
      (Of NetworkEventKind.player_damaged)
      write_payload
      (read_payload NetworkEventKind.player_damaged)
unfolding write_payload read_payload kind_for_network_event
player_damaged-IsCodec =
    embed-IsCodec _ back (λ p v. (((v.0.0.0, v.0.0.1, v.0.1, v.1), refl), refl))
      (pod-IsCodec 4 <⊗> pod-IsCodec 4 <⊗> signed-IsCodec 3 <⊗> signed-IsCodec 3)
  where
    back :
        (payload : NetworkEventPayloadDto)
        → Of NetworkEventKind.player_damaged payload
        → (p : ((ℕ × ℕ) × ℤ) × ℤ) × ((((IsU32 p.0.0.0) × (IsU32 p.0.0.1)) × (IsI32 p.0.1))
            × (IsI32 p.1))
          × (NetworkEventPayloadDto.player_damaged p.0.0.0 p.0.0.1 p.0.1 p.1 ≡ payload)
    back (NetworkEventPayloadDto.player_damaged entity_id attacker_id damage health_after) v =
        ((((entity_id, attacker_id), damage), health_after), (((v.0.0, v.0.1), v.0.2), v.0.3), refl)
    back _ v = cc
