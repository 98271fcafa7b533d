-- ===== src/Game/Serialization/Payloads.antt =====
-- The payloads of SerializeNetworkEvent and DeserializeNetworkEvent in
-- GameLogic/src/Serialization.cpp
pub mod Fighting
pub mod Formats
use brawololo.Game.Weapons.{WeaponType}
use brawololo.Prelude.Int.{ℤ}
use brawololo.Prelude.{ℕ, ◌≡◌, refl, List, ◌++◌}
use brawololo.Wire.Reader.{Read, ◌<$>◌, ◌<&>◌}
use brawololo.Wire.Codec.{IsCodec, embed-IsCodec, ◌<⊗>◌}
use brawololo.Game.Types.{IsU32, IsU64, IsI32}
use brawololo.Game.Weapons.{weapon_code}
use brawololo.Game.NetworkEvents.{NetworkEventKind, NetworkEventPayloadDto, kind_for_network_event}
use brawololo.Game.BinaryIo.{
  DecodeError, read_pod, write_pod, read_signed, write_signed, write_enum, pod-IsCodec,
  signed-IsCodec,
}
use brawololo.Game.Serialization.Parts.{read_weapon_type, weapon-IsCodec}

-- Each number of a payload fits its width.
abbrev pub IsPayload : NetworkEventPayloadDto → Type 0
IsPayload (NetworkEventPayloadDto.player_spawned entity_id client_id x y) =
    IsU32 entity_id × IsU32 client_id × IsI32 x × IsI32 y
IsPayload (NetworkEventPayloadDto.weapon_warmup_started entity_id started_at_ms completes_at_ms _) =
    IsU32 entity_id × IsU64 started_at_ms × IsU64 completes_at_ms
IsPayload (NetworkEventPayloadDto.weapon_fired entity_id fired_at_ms _) =
    IsU32 entity_id × IsU64 fired_at_ms
IsPayload (NetworkEventPayloadDto.projectile_spawned projectile_id owner_id x y _) =
    IsU32 projectile_id × IsU32 owner_id × IsI32 x × IsI32 y
IsPayload
      (NetworkEventPayloadDto.hit_confirmed attacker_id target_id projectile_id server_time_ms) =
    IsU32 attacker_id × IsU32 target_id × IsU32 projectile_id × IsU64 server_time_ms
IsPayload (NetworkEventPayloadDto.player_damaged entity_id attacker_id damage health_after) =
    IsU32 entity_id × IsU32 attacker_id × IsI32 damage × IsI32 health_after
IsPayload (NetworkEventPayloadDto.player_died entity_id attacker_id respawn_at_ms) =
    IsU32 entity_id × IsU32 attacker_id × IsU64 respawn_at_ms
IsPayload (NetworkEventPayloadDto.player_respawned entity_id x y) =
    IsU32 entity_id × IsI32 x × IsI32 y
IsPayload (NetworkEventPayloadDto.entity_entered_interest entity_id observer_client_id) =
    IsU32 entity_id × IsU32 observer_client_id
IsPayload (NetworkEventPayloadDto.entity_left_interest entity_id observer_client_id) =
    IsU32 entity_id × IsU32 observer_client_id

unfoldable pub write_payload : NetworkEventPayloadDto → List ℕ
unfolding write_pod write_signed
write_payload (NetworkEventPayloadDto.player_spawned entity_id client_id x y) =
    write_pod 4 entity_id ++ write_pod 4 client_id ++ write_signed 4 x ++ write_signed 4 y
write_payload
      (NetworkEventPayloadDto.weapon_warmup_started entity_id started_at_ms completes_at_ms
        weapon_type) =
    write_pod 4 entity_id
    ++ write_pod 8 started_at_ms
    ++ write_pod 8 completes_at_ms
    ++ write_enum weapon_code weapon_type
write_payload (NetworkEventPayloadDto.weapon_fired entity_id fired_at_ms weapon_type) =
    write_pod 4 entity_id ++ write_pod 8 fired_at_ms ++ write_enum weapon_code weapon_type
write_payload (NetworkEventPayloadDto.projectile_spawned projectile_id owner_id x y source_weapon) =
    write_pod 4 projectile_id
    ++ write_pod 4 owner_id
    ++ write_signed 4 x
    ++ write_signed 4 y
    ++ write_enum weapon_code source_weapon
write_payload
      (NetworkEventPayloadDto.hit_confirmed attacker_id target_id projectile_id server_time_ms) =
    write_pod 4 attacker_id
    ++ write_pod 4 target_id
    ++ write_pod 4 projectile_id
    ++ write_pod 8 server_time_ms
write_payload (NetworkEventPayloadDto.player_damaged entity_id attacker_id damage health_after) =
    write_pod 4 entity_id
    ++ write_pod 4 attacker_id
    ++ write_signed 4 damage
    ++ write_signed 4 health_after
write_payload (NetworkEventPayloadDto.player_died entity_id attacker_id respawn_at_ms) =
    write_pod 4 entity_id ++ write_pod 4 attacker_id ++ write_pod 8 respawn_at_ms
write_payload (NetworkEventPayloadDto.player_respawned entity_id x y) =
    write_pod 4 entity_id ++ write_signed 4 x ++ write_signed 4 y
write_payload (NetworkEventPayloadDto.entity_entered_interest entity_id observer_client_id) =
    write_pod 4 entity_id ++ write_pod 4 observer_client_id
write_payload (NetworkEventPayloadDto.entity_left_interest entity_id observer_client_id) =
    write_pod 4 entity_id ++ write_pod 4 observer_client_id

-- The cases of the switch.
unfoldable pub read_payload : NetworkEventKind → Read DecodeError NetworkEventPayloadDto
unfolding read_pod read_signed read_weapon_type ◌<$>◌ ◌<&>◌
read_payload NetworkEventKind.player_spawned =
    (λ p. NetworkEventPayloadDto.player_spawned p.0.0.0 p.0.0.1 p.0.1 p.1)
    <$> read_pod 4 <&> read_pod 4 <&> read_signed 4 <&> read_signed 4
read_payload NetworkEventKind.weapon_warmup_started =
    (λ p. NetworkEventPayloadDto.weapon_warmup_started p.0.0.0 p.0.0.1 p.0.1 p.1)
    <$> read_pod 4 <&> read_pod 8 <&> read_pod 8 <&> read_weapon_type
read_payload NetworkEventKind.bow_fired =
    (λ p. NetworkEventPayloadDto.weapon_fired p.0.0 p.0.1 p.1)
    <$> read_pod 4 <&> read_pod 8 <&> read_weapon_type
read_payload NetworkEventKind.projectile_spawned =
    (λ p. NetworkEventPayloadDto.projectile_spawned p.0.0.0.0 p.0.0.0.1 p.0.0.1 p.0.1 p.1)
    <$> read_pod 4 <&> read_pod 4 <&> read_signed 4 <&> read_signed 4 <&> read_weapon_type
read_payload NetworkEventKind.hit_confirmed =
    (λ p. NetworkEventPayloadDto.hit_confirmed p.0.0.0 p.0.0.1 p.0.1 p.1)
    <$> read_pod 4 <&> read_pod 4 <&> read_pod 4 <&> read_pod 8
read_payload NetworkEventKind.player_damaged =
    (λ p. NetworkEventPayloadDto.player_damaged p.0.0.0 p.0.0.1 p.0.1 p.1)
    <$> read_pod 4 <&> read_pod 4 <&> read_signed 4 <&> read_signed 4
read_payload NetworkEventKind.player_died =
    (λ p. NetworkEventPayloadDto.player_died p.0.0 p.0.1 p.1)
    <$> read_pod 4 <&> read_pod 4 <&> read_pod 8
read_payload NetworkEventKind.player_respawned =
    (λ p. NetworkEventPayloadDto.player_respawned p.0.0 p.0.1 p.1)
    <$> read_pod 4 <&> read_signed 4 <&> read_signed 4
read_payload NetworkEventKind.entity_entered_interest =
    (λ p. NetworkEventPayloadDto.entity_entered_interest p.0 p.1) <$> read_pod 4 <&> read_pod 4
read_payload NetworkEventKind.entity_left_interest =
    (λ p. NetworkEventPayloadDto.entity_left_interest p.0 p.1) <$> read_pod 4 <&> read_pod 4

abbrev pub Of : NetworkEventKind → NetworkEventPayloadDto → Type 0
Of kind payload = IsPayload payload × (kind_for_network_event payload ≡ kind)
